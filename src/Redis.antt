-- ===== src/Redis.antt =====
-- protos/redis/redis.go: messages, the parser of a stream, and `Parse`.
-- A slice that a stream owns is a value here. `data` is the field `payload`.
pub mod Commands
pub mod Lines
pub mod Termination
pub mod Resume
pub mod Timestamps
pub mod Transactions
use packetbeat.Base.{
  ℕ, zero, suc, ◌+◌, ◌-◌, ◌++◌, Bool, true, false, ◌&&◌, ◌||◌, List, [], ◌∷◌, Option, none, some,
  length, get_elem?, get_or, take, drop, ltb, leb, ◌==◌, if◌then◌else◌,
}
use packetbeat.Base.Int.{ℤ, pos, negsuc, pos_part, is_positive}
use packetbeat.Base.Text.{Bytes, codes, join, itoa, parse_int}
use packetbeat.Base.Find.{index}
use packetbeat.Protos.{Packet}
use packetbeat.Redis.Commands.{is_redis_command}
use packetbeat.Tcp.{tcp_max_data_in_stream}

-- `RedisMessage`. The tuple, the processes and the direction that `handleRedis` stores in it are
-- arguments of the functions that read them.
pub record RedisMessage : Type 0 where
  pub ts : ℕ
  pub number_of_bulks : ℤ  -- int64
  pub bulks : List Bytes
  pub is_request : Bool
  pub is_error : Bool
  pub message : Bytes
  pub method : Bytes
  pub path : Bytes
  pub size : ℕ

-- `&RedisMessage{Ts: ts}`
abbrev pub new_message : ℕ → RedisMessage
new_message ts = record {
  ts = ts;
  number_of_bulks = pos 0;
  bulks = [];
  is_request = false;
  is_error = false;
  message = [];
  method = [];
  path = [];
  size = 0;
}

-- `RedisStream`; a message of `none` is nil.
pub record RedisStream : Type 0 where
  pub payload : Bytes
  pub parse_offset : ℕ
  pub message : Option RedisMessage

abbrev crlf : Bytes
crlf = 13 ∷ 10 ∷ []

-- `readLine`: the line, and the offset behind its end.
unfoldable pub read_line : Bytes → ℕ → Option (Bytes × ℕ)
read_line bytes offset = elim (index crlf (drop offset bytes)) [
  | none ↦ none
  | some q ↦ some (take q (drop offset bytes), offset + q + 2)
]

-- One round of the loop of `redisMessageParser`, up to `// add value`.
pub data Scan : Type 0 where
  wait : Scan  -- `return true, false`
  fail : Scan  -- `return false, false`
  bulk_count : ℤ → ℕ → Scan  -- the count of a multi bulk message, and the new offset
  value : Bytes → ℕ → Bool → Scan  -- the value, the new offset, and `iserror` set or not

-- `len(line) == 3 && line[1] == '-' && line[2] == '1'`
abbrev is_null : Bytes → Bool
is_null line = length line == 3 && (get_or line 1 0 == b'-' && get_or line 2 0 == b'1')

unfoldable pub scan_multi_bulk : Option (Bytes × ℕ) → Scan
scan_multi_bulk none = wait
scan_multi_bulk (some (line, off)) =
    if is_null line
    then value (codes "nil") off false
    else elim (parse_int (drop 1 line)) [ none ↦ fail | some n ↦ bulk_count n off ]

-- The line that holds the bytes of a bulk reply of the given length.
unfoldable pub scan_bulk_bytes : ℤ → Option (Bytes × ℕ) → Scan
scan_bulk_bytes n none = wait
scan_bulk_bytes (pos n) (some (line, off)) = if length line == n then value line off false else fail
scan_bulk_bytes (negsuc n) (some (line, off)) = fail

unfoldable pub scan_bulk : Bytes → Option (Bytes × ℕ) → Scan
scan_bulk bytes none = wait
scan_bulk bytes (some (line, off)) =
    if is_null line then value (codes "nil") off false else elim (parse_int (drop 1 line)) [
      | none ↦ fail
      | some n ↦ scan_bulk_bytes n (read_line bytes off)
    ]

unfoldable pub scan_integer : Option (Bytes × ℕ) → Scan
scan_integer none = wait
scan_integer (some (line, off)) = elim (parse_int (drop 1 line)) [
  | none ↦ fail
  | some n ↦ value (itoa n) off false
]

unfoldable pub scan_text : Bool → Option (Bytes × ℕ) → Scan
scan_text iserror none = wait
scan_text iserror (some (line, off)) = value (drop 1 line) off iserror

-- The byte at the offset chooses the kind of the reply.
unfoldable pub scan_kind : ℕ → Bytes → ℕ → Scan
scan_kind c bytes offset =
    if c == b'*'
    then scan_multi_bulk (read_line bytes offset)
    else if c == b'$'
    then scan_bulk bytes (read_line bytes offset)
    else if c == b':'
    then scan_integer (read_line bytes offset)
    else if c == b'+'
    then scan_text false (read_line bytes offset)
    else if c == b'-'
    then scan_text true (read_line bytes offset)
    else fail

unfoldable pub scan : Bytes → ℕ → Scan
scan bytes offset = elim (get_elem? bytes offset) [
  | none ↦ wait
  | some c ↦ scan_kind c bytes offset
]

-- The first word of a multi bulk message says whether it is a request, the second is its path.
first_word : Bytes → RedisMessage → RedisMessage
first_word v m =
    if length m.bulks == 1 && is_redis_command v
    then record m { is_request = true; method = v }
    else m

second_word : Bytes → RedisMessage → RedisMessage
second_word v m = if length m.bulks == 2 && m.is_request then record m { path = v } else m

-- `m.Bulks = append(m.Bulks, value)`, with the count and what the word means.
unfoldable pub add_bulk : Bytes → RedisMessage → RedisMessage
unfolding first_word second_word
add_bulk v m = second_word v (
    first_word v (record m {
      number_of_bulks = pos (pos_part m.number_of_bulks - 1);
      bulks = m.bulks ++ (v ∷ []);
    }))

unfoldable pub finish_bulks : ℕ → RedisMessage → RedisMessage
finish_bulks off m = record m { message = join m.bulks (codes " "); size = off }

unfoldable pub finish_single : Bytes → ℕ → Bool → RedisMessage → RedisMessage
finish_single v off iserror m = record m {
  message = v;
  size = off;
  is_error = m.is_error || iserror;
}

-- What `redisMessageParser` returns, with the message, the offset it leaves in the stream and,
-- where it waits for more data, its local variable `iserror`. `stuck` is no result of the code:
-- the loop ran out of fuel.
pub data Parsed : Type 0 where
  waits : RedisMessage → ℕ → Bool → Parsed
  failed : Parsed
  complete : RedisMessage → ℕ → Parsed
  stuck : Parsed

pub is_zero : ℤ → Bool
is_zero (pos n) = n == 0
is_zero (negsuc n) = false

-- `// add value`, with the next round of the loop where the message is not complete.
unfoldable pub add_value :
    (RedisMessage → ℕ → Bool → Parsed) → Bytes → ℕ → Bool → RedisMessage → Parsed
unfolding is_zero
add_value next v off iserror m =
    if is_positive m.number_of_bulks
    then (if is_zero (add_bulk v m).number_of_bulks
        then complete (finish_bulks off (add_bulk v m)) off
        else next (add_bulk v m) off iserror)
    else complete (finish_single v off iserror m) off

-- What a round does with what it has read; `next` is the next round.
unfoldable pub after_scan :
    (RedisMessage → ℕ → Bool → Parsed) → RedisMessage → ℕ → Bool → Scan → Parsed
after_scan next m offset iserror wait = waits m offset iserror
after_scan next m offset iserror fail = failed
after_scan next m offset iserror (bulk_count n off) =
    next (record m { number_of_bulks = n; bulks = [] }) off iserror
after_scan next m offset iserror (value v off err) = add_value next v off (iserror || err) m

-- The loop of `redisMessageParser`.
unfoldable pub parse_loop : ℕ → Bytes → RedisMessage → ℕ → Bool → Parsed
parse_loop zero bytes m offset iserror = stuck
parse_loop (suc fuel) bytes m offset iserror = elim (ltb offset (length bytes)) [
  | false ↦ waits m offset iserror
  | true ↦ after_scan (parse_loop fuel bytes) m offset iserror (scan bytes offset)
]

-- `redisMessageParser`: each round reads two bytes at least, so a round for each byte is enough.
unfoldable pub redis_message_parser : Bytes → RedisMessage → ℕ → Parsed
redis_message_parser bytes m offset = parse_loop (suc (length bytes)) bytes m offset false

-- `PrepareForNewMessage`: the new message keeps the time of the old one.
unfoldable pub prepare_for_new_message : Bytes → RedisMessage → ℕ → RedisStream
prepare_for_new_message bytes m off = record {
  payload = drop off bytes;
  parse_offset = 0;
  message = some (new_message m.ts);
}

-- `if stream.message == nil { ... }`
unfoldable pub current_message : ℕ → Option RedisMessage → RedisMessage
current_message ts none = new_message ts
current_message ts (some m) = m

-- The two results of the loop of `Parse`: the stream (`none` where it is dropped), and the state
-- that `handle` has threaded through. `none` of the whole is no result: the fuel ran out.
module _ {W : Type 0} (handle : RedisMessage → W → W) where
  unfoldable pub stream_loop : ℕ → ℕ → RedisStream → W → Option (Option RedisStream × W)
  stream_loop zero ts s w = none
  stream_loop (suc fuel) ts s w = elim (ltb 0 (length s.payload)) [
    | false ↦ some (some s, w)
    | true ↦ elim (redis_message_parser s.payload (current_message ts s.message) s.parse_offset) [
      | stuck ↦ none
      | failed ↦ some (none, w)
      | waits m off iserror ↦ some (some (record s { parse_offset = off; message = some m }), w)
      | complete m off ↦ stream_loop fuel ts (prepare_for_new_message s.payload m off) (handle m w)
    ]
  ]

  -- The part of `Parse` on the stream of the packet's direction: a new stream, or the payload
  -- behind what is there, unless that is too much.
  unfoldable pub parse_stream : Packet → Option RedisStream → W → Option (Option RedisStream × W)
  parse_stream pkt none w =
      stream_loop (suc (length pkt.payload)) pkt.ts
        (record { payload = pkt.payload; parse_offset = 0; message = some (new_message pkt.ts) }) w
  parse_stream pkt (some s) w =
      let bytes = s.payload ++ pkt.payload in
      if ltb tcp_max_data_in_stream (length bytes)
      then some (none, w)
      else stream_loop (suc (length bytes)) pkt.ts (record s { payload = bytes }) w
