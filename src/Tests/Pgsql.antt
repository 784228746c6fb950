-- ===== src/Tests/Pgsql.antt =====
-- The theorems on protos/pgsql/pgsql.go at small inputs.
use packetbeat.Base.{
  ℕ, ◌+◌, ◌*◌, ◌++◌, ◌≡◌, refl, sym, true, false, List, [], ◌∷◌, map, Option, none, some, length,
  take, drop, ◌==◌, if◌then◌else◌, arith,
}
use packetbeat.Base.GoMap.{lookup, bytes_instance}
use packetbeat.Base.Text.{Bytes, codes, join, split}
use packetbeat.Base.Space.{is_white, blank_size, trim_start, trim_end, trim_space}
use packetbeat.Protos.{TcpTuple, Packet}
use packetbeat.Base.Slice.{Buffer}
use packetbeat.Pgsql.Message.{
  Common, IsCommon, IsText, startup_message, PgsqlMessage, new_message, spent,
}
use packetbeat.Pgsql.{special_command, parse_loop}
use packetbeat.Pgsql.Termination.{NoEmptyStartup}
use packetbeat.Pgsql.Endless.{special_command-long, parse_loop_spins}
use packetbeat.Pgsql.Stream.{parse_streams, gap_in_streams}
use packetbeat.Pgsql.Streaming.{AreReady, parse-AreReady}
use packetbeat.Pgsql.Framing.{query_packet, query_message, at_start}
use packetbeat.Pgsql.Segments.{Segment, Delivers, parse_segments, query_segments-Delivers}
use packetbeat.Pgsql.Queries.{Piece, text_of, query_parser-join}
use packetbeat.Pgsql.State.{Pgsql, query_parser, trimmed_queries}
use packetbeat.Pgsql.Transactions.{waiting, event_of}
use packetbeat.Pgsql.Queues.{Op, message, expiry, run, replay, Shows, queues_of, queries}
use packetbeat.Pgsql.Refinement.{run_refines}
use packetbeat.Pgsql.Pipeline.{events_for, pipelined_queries}
use packetbeat.Redis.Transactions.{Lookups}
use packetbeat.Mysql.Transactions.{Dump}

-- Big-endian numbers, and strings that end at the first byte 0.
abbrev two_bytes : Bytes → ℕ
two_bytes (a ∷ b ∷ []) = a * 256 + b
two_bytes _ = 0

abbrev four_bytes : Bytes → ℕ
four_bytes (a ∷ b ∷ c ∷ d ∷ []) = a * 16777216 + b * 65536 + c * 256 + d
four_bytes _ = 0

abbrev cons_some : ℕ → Option Bytes → Option Bytes
cons_some c none = none
cons_some c (some s) = some (c ∷ s)

abbrev until_zero : Bytes → Option Bytes
until_zero [] = none
until_zero (c ∷ s) = let rest = until_zero s in if c == 0 then some [] else cons_some c rest

abbrev common : Common
common = record { ntohs = two_bytes; ntohl = four_bytes; read_string = until_zero }

until_zero-text : (s rest : Bytes) → IsText s → until_zero (s ++ 0 ∷ rest) ≡ some s
until_zero-text [] rest t = refl
until_zero-text (c ∷ s) rest t =
    let other : (c == 0) ≡ false = ground (arith, t.0) in
    rw (other, until_zero-text s rest t.2) refl

common-IsCommon : IsCommon common
common-IsCommon = record {
  ntohs_is = λ a b. refl;
  ntohl_is = λ a b c d. refl;
  read_string_is = until_zero-text;
}

abbrev ask_x : Bytes
ask_x = query_packet (codes "x")

-- There is no room for a start-up message in the data.
ask_x-NoEmptyStartup : NoEmptyStartup common (record { bytes = ask_x; spare = [] })
ask_x-NoEmptyStartup offset e = absurd (
    omega (
      arith,
      special_command-long common (record { bytes = ask_x; spare = [] }) offset startup_message e,
    ))

-- A start-up message that says it has the length 0.
abbrev empty_startup : Buffer
empty_startup = record { bytes = 0 ∷ 0 ∷ 0 ∷ 0 ∷ 0 ∷ 3 ∷ 0 ∷ 0 ∷ []; spare = [] }

empty_startup_special : special_command common empty_startup 0 ≡ some startup_message
unfolding special_command
empty_startup_special = refl

parse_loop_spins_example :
    parse_loop common empty_startup 1000 1024 10 false (at_start (new_message 5)) ≡ spent
parse_loop_spins_example =
    parse_loop_spins common empty_startup 1024 10 false (at_start (new_message 5)) refl
      empty_startup_special refl 1000

abbrev packet_of : ℕ → Bytes → Packet
packet_of ts payload = record {
  ts = ts;
  tuple = record {
    ip_length = 4;
    src_ip = 1 ∷ [];
    dst_ip = 2 ∷ [];
    src_port = 1024;
    dst_port = 5432;
  };
  payload = payload;
}

abbrev collect : PgsqlMessage → List Bytes → List Bytes
collect m seen = m.query ∷ seen

parse-AreReady_example :
    AreReady (
      parse_streams collect common 1024 10
        (packet_of 5 ask_x)
        []
        (record { this = none; other = none })
        [])
    × AreReady (gap_in_streams collect (record { this = none; other = none }) [])
parse-AreReady_example =
    parse-AreReady collect common 1024 10 (packet_of 5 ask_x) []
      (record { this = none; other = none }) [] ask_x-NoEmptyStartup tt tt

abbrev select_1 : Bytes
select_1 = codes "SELECT 1"

select_1-IsText : IsText select_1
select_1-IsText = ground arith

abbrev first_segment : Segment
first_segment = record { packet = packet_of 5 (take 3 (query_packet select_1)); spare = [] }

abbrev second_segment : Segment
second_segment = record { packet = packet_of 6 (drop 3 (query_packet select_1)); spare = 7 ∷ [] }

query_segments-Delivers_example :
    Delivers collect (query_message select_1 (new_message 5)) none [] (
      parse_segments collect common 1024 10
        (first_segment ∷ second_segment ∷ [])
        (record { this = none; other = none })
        [])
query_segments-Delivers_example =
    query_segments-Delivers collect common 1024 10 select_1 first_segment (second_segment ∷ []) none
      [] common-IsCommon select_1-IsText (omega arith) refl (omega arith, (omega arith, tt))

abbrev spaced : Bytes → Piece
spaced q = record {
  before = (32 ∷ []) ∷ (0xc2 ∷ 0xa0 ∷ []) ∷ [];
  query = q;
  after = (10 ∷ []) ∷ [];
}

query_parser-join_example :
    query_parser (join (map text_of (spaced (codes "a b") ∷ spaced (codes "c") ∷ [])) (b';' ∷ []))
    ≡ codes "a b" ∷ codes "c" ∷ []
unfolding is_white
query_parser-join_example = query_parser-join (spaced (codes "a b")) (spaced (codes "c") ∷ []) (
  record {
    before_is = (refl, (refl, tt));
    some_byte = omega arith;
    starts = (refl, refl, refl);
    ends = (refl, (refl, (refl, tt)));
    one_query = (refl, (refl, (refl, tt)));
    after_is = (refl, tt);
  },
  (
    record {
      before_is = (refl, (refl, tt));
      some_byte = omega arith;
      starts = (refl, refl, refl);
      ends = (refl, tt);
      one_query = (refl, tt);
      after_is = (refl, tt);
    },
    tt,
  ),
)

abbrev env : Lookups
env = record {
  hashable = λ t. t.src_ip ++ (t.src_port ∷ t.dst_ip) ++ (t.dst_port ∷ t.stream_id ∷ []);
  find_processes_tuple = λ t. record { src = codes "psql"; dst = codes "postgres" };
}

abbrev tuple : TcpTuple
tuple = record {
  ip_length = 4;
  src_ip = 1 ∷ [];
  dst_ip = 2 ∷ [];
  src_port = 1024;
  dst_port = 5432;
  stream_id = 1;
}

-- The fields alone stand for the text.
abbrev dump : Dump
dump fields rows = join fields (codes ",")

abbrev empty_pgsql : Pgsql
empty_pgsql = record {
  ports = 5432 ∷ [];
  max_store_rows = 10;
  max_row_length = 1024;
  send_request = true;
  send_response = false;
  transactions_map = [];
  results = some [];
  next_id = 0;
}

none_waits : (k : Bytes) → waiting k empty_pgsql.transactions_map ≡ []
unfolding waiting lookup
none_waits k = refl

empty_pgsql-Shows : Shows empty_pgsql (queues_of empty_pgsql)
empty_pgsql-Shows = record {
  queue_is = λ k. refl;
  told_is = refl;
  fresh_is = refl;
  tell_is = λ d t. refl;
  asked = λ k. rw (none_waits k) tt;
}

abbrev two_queries : PgsqlMessage
two_queries = record (new_message 7) { is_request = true; query = codes "SELECT 1; SELECT 2" }

abbrev answer_at : ℕ → PgsqlMessage
answer_at ts = record (new_message ts) { is_ok = true }

abbrev trace : List Op
trace = message tuple 1 two_queries ∷ message tuple 0 (answer_at 9) ∷ expiry tuple 1 ∷ []

run_refines_example :
    Shows (run env dump trace empty_pgsql) (replay env dump trace (queues_of empty_pgsql))
run_refines_example =
    run_refines env dump trace empty_pgsql (queues_of empty_pgsql) empty_pgsql-Shows

two_queries_parsed : length (query_parser two_queries.query) ≡ 2
unfolding query_parser trimmed_queries trim_space trim_start blank_size is_white trim_end split
two_queries_parsed = refl

pipelined_queries_example :
    let answers = answer_at 8 ∷ answer_at 9 ∷ [] in
    let after =
      run env dump (message tuple 1 two_queries ∷ map (message tuple 0) answers) empty_pgsql in
    (after.results
      ≡ some (
          []
          ++ events_for
              (event_of empty_pgsql)
              dump
              (queries env dump tuple 1 two_queries 0)
              answers))
    × (waiting (env.hashable tuple) after.transactions_map ≡ [])
pipelined_queries_example =
    pipelined_queries env dump tuple 1 0 two_queries (answer_at 8 ∷ answer_at 9 ∷ []) empty_pgsql []
      empty_pgsql-Shows (none_waits (env.hashable tuple)) refl refl (refl, (refl, tt))
      (sym two_queries_parsed)

-- A no-break space, and half of one, which is no rune.
spaces_of_unicode : trim_space (0xc2 ∷ 0xa0 ∷ 97 ∷ 0xa0 ∷ 0xe3 ∷ 0x80 ∷ 0x80 ∷ []) ≡ 97 ∷ 0xa0 ∷ []
unfolding trim_space trim_start blank_size is_white trim_end
spaces_of_unicode = refl
