-- ===== src/Tests/Mysql.antt =====
-- The theorems on protos/mysql/mysql.go at small inputs, and runs of its parser.
use packetbeat.Base.{
  List, ℕ, ◌+◌, ◌≡◌, ◌≢◌, ◌++◌, refl, [], ◌∷◌, arith, Bool, true, false, some, none,
}
use packetbeat.Base.Text.{Bytes, codes, join}
use packetbeat.Protos.{TcpTuple, Packet}
use packetbeat.Mysql.Integers.{
  lstring_of, read_lstring, linteger_at, integer, read_u24, read_linteger,
}
use packetbeat.Mysql.{
  state_eat_message, state_eat_rows, MysqlMessage, Cursor, Round, complete, new_message,
  with_header, eat_row, round_packet, mysql_message_parser,
}
use packetbeat.Mysql.Stream.{done}
use packetbeat.Base.GoMap.{lookup, bytes_instance}
use packetbeat.Redis.Transactions.{Lookups}
use packetbeat.Mysql.Endless.{StaysIn, read_cells_endless}
use packetbeat.Mysql.Response.{
  endless, stuck, read_cells, read_fields, read_rows, returns, parse_mysql_response, length_at,
}
use packetbeat.Mysql.State.{Mysql, MysqlEvent}
use packetbeat.Mysql.Transactions.{Dump, handle_mysql, parse_mysql}
use packetbeat.Mysql.Transactions.Laws.{IsWellFormed, Answers, mysql_request_response}
use packetbeat.Mysql.Decoding.{encode_linteger, read_linteger_encoded}
use packetbeat.Mysql.Framing.{query_packet, query_message, at_start, mysql_message_parser_query}
use packetbeat.Mysql.Returns.{data_of}
use packetbeat.Mysql.Plugin.{PluginReturns, parsed_stream, parse_mysql-Returns}
use packetbeat.Mysql.Truncation.{Cuts, round_packet_truncated}

read_linteger_encoded_example :
    read_linteger (7 ∷ (encode_linteger 1000 ++ 9 ∷ [])) 1 ≡ integer 1000 (1 + 3)
read_linteger_encoded_example = read_linteger_encoded 1000 (7 ∷ []) (9 ∷ []) (omega arith)

abbrev select_one : Bytes
select_one = codes "SELECT 1"

mysql_message_parser_query_example :
    mysql_message_parser (query_packet select_one ++ 1 ∷ 0 ∷ []) (at_start 5)
    ≡ some (
        complete (record {
          parse_offset = 13;
          parse_state = state_eat_message;
          is_client = true;
          message = query_message 5 select_one;
        }))
mysql_message_parser_query_example =
    mysql_message_parser_query 5 select_one (1 ∷ 0 ∷ []) (omega arith)

abbrev query_in_packet : Packet
query_in_packet = record {
  ts = 5;
  tuple = record {
    ip_length = 4;
    src_ip = 1 ∷ [];
    dst_ip = 2 ∷ [];
    src_port = 1024;
    dst_port = 3306;
  };
  payload = query_packet select_one;
}

-- The last packet of a response whose end is at 4.
abbrev end_of_rows : Bytes
end_of_rows = 0 ∷ 0 ∷ 0 ∷ 1 ∷ 5 ∷ 0 ∷ 0 ∷ 2 ∷ 0xfe ∷ 0 ∷ 0 ∷ 2 ∷ 0 ∷ []

abbrev in_rows : Cursor
in_rows = record {
  parse_offset = 4;
  parse_state = state_eat_rows;
  is_client = false;
  message = record (new_message 5) { end = 4 };
}

round_packet_truncated_example : Cuts end_of_rows in_rows (round_packet eat_row end_of_rows in_rows)
round_packet_truncated_example =
    round_packet_truncated end_of_rows in_rows
      (record { offset_inside = omega arith; end_inside = omega arith }) (omega arith)

-- The round above completes the response.
abbrev is_complete : Round → Bool
is_complete (complete c) = true
is_complete _ = false

last_round_completes : is_complete (round_packet eat_row end_of_rows in_rows) ≡ true
unfolding round_packet with_header read_u24 eat_row
last_round_completes = refl

abbrev lookups : Lookups
lookups = record {
  hashable = λ t. t.src_ip ++ (t.src_port ∷ t.dst_ip) ++ (t.dst_port ∷ t.stream_id ∷ []);
  find_processes_tuple = λ t. record { src = codes "app"; dst = codes "mysqld" };
}

abbrev tuple : TcpTuple
tuple = record {
  ip_length = 4;
  src_ip = 1 ∷ [];
  dst_ip = 2 ∷ [];
  src_port = 1024;
  dst_port = 3306;
  stream_id = 1;
}

-- The fields alone stand for the text.
abbrev dump : Dump
dump fields rows = join fields (codes ",")

abbrev empty : Mysql
empty = record {
  ports = 3306 ∷ [];
  max_store_rows = 10;
  max_row_length = 1024;
  send_request = true;
  send_response = true;
  transactions_map = [];
  results = some [];
}

empty-IsWellFormed : IsWellFormed lookups empty
empty-IsWellFormed = record { entries = λ k t e. absurd (unfold lookup in cc) }

parse_mysql-Returns_example :
    PluginReturns
      (data_of query_in_packet (parsed_stream 1 none))
      (parse_mysql lookups dump query_in_packet tuple 1 none empty)
parse_mysql-Returns_example = parse_mysql-Returns lookups dump tuple 1 query_in_packet none empty tt

abbrev request : MysqlMessage
request = record (new_message 7) { is_request = true; query = select_one }

abbrev reply : MysqlMessage
reply = record (new_message 3_000_007) { is_ok = true }

-- An OK packet.
abbrev ok_packet : Bytes
ok_packet = 3 ∷ 0 ∷ 0 ∷ 1 ∷ 0 ∷ 0 ∷ 0 ∷ []

ok_packet_rows : parse_mysql_response 1024 10 ok_packet ≡ returns [] []
unfolding parse_mysql_response length_at read_u24
ok_packet_rows = refl

mysql_request_response_example :
    (asked : Mysql) × (after : Mysql) × (e : MysqlEvent) × (handle_mysql lookups dump tuple 1
        request [] empty
      ≡ done asked)
    × (handle_mysql lookups dump tuple 0 reply ok_packet asked ≡ done after)
    × (lookup (lookups.hashable tuple) after.transactions_map ≡ none)
    × ((k : Bytes)
        → k ≢ lookups.hashable tuple
        → lookup k after.transactions_map ≡ lookup k empty.transactions_map)
    × (after.results ≡ some ([] ++ e ∷ []))
    × Answers request reply e
mysql_request_response_example =
    mysql_request_response lookups dump tuple 1 0 request reply [] ok_packet [] [] empty []
      empty-IsWellFormed refl refl refl ok_packet_rows refl

-- A response with one field announced, none described, and one row, whose second cell is longer
-- than all the data.
abbrev long_cell : Bytes
long_cell =
    1 ∷ 0 ∷ 0 ∷ 1 ∷ 1 ∷ 1 ∷ 0 ∷ 0 ∷ 2 ∷ 0xfe ∷ 5 ∷ 0 ∷ 0 ∷ 3 ∷ 2 ∷ 97 ∷ 98 ∷ 200 ∷ 99 ∷ 1 ∷ 0 ∷ 0
    ∷ 4 ∷ 0xfe ∷ []

abbrev visited : List ℕ
visited = 14 ∷ 17 ∷ 0 ∷ 2 ∷ 3 ∷ 5 ∷ 7 ∷ 8 ∷ 11 ∷ 12 ∷ 13 ∷ []

visited_stay : StaysIn long_cell 19 visited visited
unfolding read_lstring lstring_of read_linteger linteger_at
visited_stay = (
  omega arith,
  (17, refl, refl),
  (
    omega arith,
    (0, refl, refl),
    (
      omega arith,
      (2, refl, refl),
      (
        omega arith,
        (3, refl, refl),
        (
          omega arith,
          (5, refl, refl),
          (
            omega arith,
            (7, refl, refl),
            (
              omega arith,
              (8, refl, refl),
              (
                omega arith,
                (11, refl, refl),
                (
                  omega arith,
                  (12, refl, refl),
                  (omega arith, (13, refl, refl), (omega arith, (17, refl, refl), tt)),
                ),
              ),
            ),
          ),
        ),
      ),
    ),
  ),
)

read_cells_endless_example : read_cells 1000 long_cell 1024 19 14 0 [] ≡ stuck
read_cells_endless_example =
    read_cells_endless long_cell 19 visited 1000 1024 14 0 [] visited_stay refl

-- The whole function runs out of rounds on it.
long_cell_endless : parse_mysql_response 1024 10 long_cell ≡ endless
unfolding parse_mysql_response length_at read_u24 read_fields read_rows read_cells read_lstring
    lstring_of read_linteger linteger_at
long_cell_endless = refl
