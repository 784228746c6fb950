-- ===== src/Tests/Redis.antt =====
-- Runs of protos/redis/redis.go.
use packetbeat.Base.{ℕ, ◌++◌, ◌≡◌, ◌≢◌, refl, true, false, [], ◌∷◌, none, some, arith}
use packetbeat.Base.GoMap.{lookup, bytes_instance}
use packetbeat.Base.Text.{Bytes, codes, to_upper, parse_int, join}
use packetbeat.Base.Int.{pos}
use packetbeat.Base.Find.{index}
use packetbeat.Protos.{TcpTuple, Packet}
use packetbeat.Redis.Commands.{is_redis_command}
use packetbeat.Redis.{
  RedisMessage, RedisStream, new_message, waits, failed, complete, redis_message_parser, parse_loop,
  scan, scan_kind, scan_multi_bulk, scan_bulk, scan_bulk_bytes, read_line, after_scan, add_value,
  add_bulk, finish_bulks, parse_stream,
}
use packetbeat.Redis.Resume.{redis_message_parser_resumes}
use packetbeat.Redis.Termination.{Returns, parse_stream-Returns}
use packetbeat.Redis.Timestamps.{Stamped, Stamped?, log, parse_stream-Stamped}
use packetbeat.Redis.Transactions.{Redis, RedisEvent, Lookups, handle_redis}
use packetbeat.Redis.Transactions.Laws.{IsWellFormed, Answers, request_response}

abbrev get_bytes : Bytes
get_bytes = codes "*2\r\n$3\r\nGET\r\n$1\r\nk\r\n"

abbrev get_message : RedisMessage
get_message = record (new_message 7) {
  bulks = codes "GET" ∷ codes "k" ∷ [];
  is_request = true;
  message = codes "GET k";
  method = codes "GET";
  path = codes "k";
  size = 20;
}

parse_get : redis_message_parser get_bytes (new_message 7) 0 ≡ complete get_message 20
unfolding redis_message_parser parse_loop scan scan_kind scan_multi_bulk scan_bulk scan_bulk_bytes
    read_line index after_scan add_value add_bulk finish_bulks parse_int is_redis_command join
parse_get = refl

abbrev half_bytes : Bytes
half_bytes = codes "*2\r\n$3\r\nGET\r\n$1\r\nk"

-- The message after the first of its two words.
abbrev half_message : RedisMessage
half_message = record (new_message 7) {
  number_of_bulks = pos 1;
  bulks = codes "GET" ∷ [];
  is_request = true;
  method = codes "GET";
}

parse_half : redis_message_parser half_bytes (new_message 7) 0 ≡ waits half_message 13 false
unfolding redis_message_parser parse_loop scan scan_kind scan_multi_bulk scan_bulk scan_bulk_bytes
    read_line index after_scan add_value add_bulk finish_bulks parse_int is_redis_command join
parse_half = refl

redis_message_parser_resumes_example :
    ((m' : RedisMessage) (off : ℕ)
      → redis_message_parser half_bytes (new_message 7) 0 ≡ complete m' off
      → redis_message_parser (half_bytes ++ codes "\r\n") (new_message 7) 0 ≡ complete m' off)
    × (redis_message_parser half_bytes (new_message 7) 0 ≡ failed
        → redis_message_parser (half_bytes ++ codes "\r\n") (new_message 7) 0 ≡ failed)
    × ((m' : RedisMessage) (off : ℕ)
        → redis_message_parser half_bytes (new_message 7) 0 ≡ waits m' off false
        → redis_message_parser (half_bytes ++ codes "\r\n") (new_message 7) 0
          ≡ redis_message_parser (half_bytes ++ codes "\r\n") m' off)
redis_message_parser_resumes_example =
    redis_message_parser_resumes half_bytes (codes "\r\n") (new_message 7) 0 (omega arith)

abbrev tuple : TcpTuple
tuple = record {
  ip_length = 4;
  src_ip = 10 ∷ 0 ∷ 0 ∷ 1 ∷ [];
  dst_ip = 10 ∷ 0 ∷ 0 ∷ 2 ∷ [];
  src_port = 40000;
  dst_port = 6379;
  stream_id = 1;
}

abbrev get_packet : Packet
get_packet = record {
  ts = 90;
  tuple = record {
    ip_length = 4;
    src_ip = tuple.src_ip;
    dst_ip = tuple.dst_ip;
    src_port = 40000;
    dst_port = 6379;
  };
  payload = get_bytes;
}

-- A stream whose last message is read, and which keeps the time 7.
abbrev waiting : RedisStream
waiting = record { payload = []; parse_offset = 0; message = some (new_message 7) }

parse_stream-Returns_example : Returns (parse_stream log get_packet (some waiting) [])
parse_stream-Returns_example =
    parse_stream-Returns log get_packet (some waiting) [] (record { inside = omega arith })

parse_stream-Stamped_example :
    Stamped? 90 (parse_stream log get_packet none [])
    × (Stamped 7 (some waiting, []) → Stamped? 7 (parse_stream log get_packet (some waiting) []))
parse_stream-Stamped_example = parse_stream-Stamped get_packet waiting [] 7

abbrev lookups : Lookups
lookups = record {
  hashable = λ t. t.src_ip ++ (t.src_port ∷ t.dst_ip) ++ (t.dst_port ∷ t.stream_id ∷ []);
  find_processes_tuple = λ t. record { src = codes "app"; dst = codes "redis-server" };
}

abbrev empty : Redis
empty = record {
  ports = 6379 ∷ [];
  send_request = true;
  send_response = false;
  transactions_map = [];
  results = some [];
}

empty-IsWellFormed : IsWellFormed lookups empty
empty-IsWellFormed = record { entries = λ k t e. absurd (unfold lookup in cc) }

abbrev reply : RedisMessage
reply = record (new_message 3_000_007) { message = codes "v"; size = 7 }

request_response_example :
    let after =
      handle_redis lookups tuple 0 reply (handle_redis lookups tuple 1 get_message empty) in
    (lookup (lookups.hashable tuple) after.transactions_map ≡ none)
    × ((k : Bytes)
        → k ≢ lookups.hashable tuple
        → lookup k after.transactions_map ≡ lookup k empty.transactions_map)
    × ((e : RedisEvent) × (after.results ≡ some ([] ++ e ∷ [])) × Answers get_message reply e)
request_response_example =
    request_response lookups tuple 1 0 get_message reply empty [] empty-IsWellFormed refl refl refl

-- A small letter without its dot, whose upper case is in ASCII.
dotless_command : to_upper (0xc4 ∷ 0xb1 ∷ codes "nfo") ≡ codes "INFO"
unfolding to_upper
dotless_command = refl
