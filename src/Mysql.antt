-- ===== src/Mysql.antt =====
-- protos/mysql/mysql.go: the parser of a stream, `mysqlMessageParser`.
-- A slice that a stream owns is a value here; `data` is the field `payload`. Bytes that the source
-- joins by shifts and `|` do not overlap, so they are added.
pub mod Integers
pub mod Message
pub mod Stream
pub mod Response
pub mod State
pub mod Transactions
pub mod Decoding
pub mod Termination
pub mod Returns
pub mod Plugin
pub mod Endless
pub mod Framing
pub mod Truncation
pub use packetbeat.Mysql.Message.{
  mysql_cmd_query, max_payload_size, ParseState, state_start, state_eat_message, state_eat_fields,
  state_eat_rows, MysqlMessage, new_message, Cursor, Round, next, waits, failed, complete, panicked,
}
use packetbeat.Base.{
  ℕ, zero, suc, ◌+◌, ◌-◌, ◌*◌, ◌++◌, Bool, true, false, not, ◌&&◌, ◌||◌, List, [], ◌∷◌, Option,
  none, some, length, get_or, take, drop, ltb, leb, ◌==◌, if◌then◌else◌,
}
use packetbeat.Base.Text.{Bytes, codes}
use packetbeat.Base.Find.{index}
use packetbeat.Mysql.Integers.{
  LInteger, LString, byte_at, read_u24, slice, read_lstring, read_linteger, past_end, incomplete,
  malformed, integer, string,
}
use packetbeat.Protos.{Packet}
use packetbeat.Tcp.{tcp_max_data_in_stream}

-- `len(s.data[s.parseOffset:])`
abbrev pub left : Bytes → ℕ → ℕ
left bytes offset = length bytes - offset

-- A packet of the command phase. Anything but a query is ignored.
unfoldable pub start_command : Cursor → MysqlMessage → Cursor
start_command c m =
    if m.typ == mysql_cmd_query
    then record c {
      is_client = true;
      parse_state = state_eat_message;
      message = record m { is_request = true; start = c.parse_offset };
    }
    else record c {
      is_client = true;
      parse_state = state_eat_message;
      message = record m { ignore_message = true };
    }

-- The first packet of a response.
unfoldable pub start_response : Cursor → MysqlMessage → Cursor
start_response c old =
    let m = record old { is_request = false } in
    if m.typ == 0 || m.typ == 0xfe
    then record c {
      parse_state = state_eat_message;
      message = record m { start = c.parse_offset; is_ok = true };
    }
    else if m.typ == 0xff
    then record c {
      parse_state = state_eat_message;
      message = record m { start = c.parse_offset; is_error = true };
    }
    else if m.packet_length == 1
    then record c {
      parse_offset = c.parse_offset + 5;
      parse_state = state_eat_fields;
      message = record m { start = c.parse_offset; number_of_fields = m.typ };
    }
    else record c { parse_state = state_eat_message; message = record m { ignore_message = true } }

-- The message with the header of the packet at the offset.
unfoldable pub with_header : Bytes → ℕ → MysqlMessage → MysqlMessage
with_header bytes offset m = record m {
  packet_length = read_u24 bytes offset;
  seq = byte_at bytes (offset + 3);
}

-- `case MysqlStateStart`
unfoldable pub round_start : Bytes → Cursor → Round
round_start bytes c =
    let m = record (with_header bytes c.parse_offset c.message) {
      start = c.parse_offset;
      typ = byte_at bytes (c.parse_offset + 4);
    } in
    if ltb (left bytes c.parse_offset) 5
    then failed
    else if m.seq == 0
    then next (start_command c m)
    else if not c.is_client
    then next (start_response c m)
    else failed

-- The insert id of an OK packet, and then the affected rows before it.
unfoldable pub eat_insert_id : ℕ → Cursor → LInteger → Round
eat_insert_id rows c past_end = panicked
eat_insert_id rows c incomplete =
    waits (record c { message = record (c.message) { affected_rows = rows } })
eat_insert_id rows c malformed =
    waits (record c { message = record (c.message) { affected_rows = rows } })
eat_insert_id rows c (integer id off) =
    complete (record c { message = record (c.message) { affected_rows = rows; insert_id = id } })

unfoldable pub eat_ok : Bytes → Cursor → LInteger → Round
eat_ok bytes c past_end = panicked
eat_ok bytes c incomplete = waits c
eat_ok bytes c malformed = waits c
eat_ok bytes c (integer rows off) = eat_insert_id rows c (read_linteger bytes off)

-- What the whole packet, from `m.start` to `m.end`, is read as.
unfoldable pub eat_packet : Bytes → Cursor → Round
eat_packet bytes c =
    let m = c.message in
    if m.is_request
    then (if ltb m.end (m.start + 5)
        then panicked
        else complete (record c { message = record m { query = slice bytes (m.start + 5) m.end } }))
    else if m.is_ok
    then eat_ok bytes c (read_linteger bytes (m.start + 5))
    else if m.is_error
    then (if ltb (length bytes) (m.start + 13)
        then panicked
        else complete (record c {
          message = record m {
            error_code = byte_at bytes (m.start + 6) * 256 + byte_at bytes (m.start + 5);
            error_info =
                slice bytes (m.start + 8) (m.start + 13)
                ++ (codes ": " ++ drop (m.start + 13) bytes);
          };
        }))
    else complete c

-- `case MysqlStateEatMessage`
unfoldable pub round_message : Bytes → Cursor → Round
round_message bytes c =
    let end = c.parse_offset + 4 + c.message.packet_length in
    if leb (c.message.packet_length + 4) (left bytes c.parse_offset)
    then eat_packet bytes
        (record c { parse_offset = end; message = record (c.message) { end = end } })
    else waits c

-- `m.Tables`: each table once, unless its name holds that of another.
unfoldable pub add_table : Bytes → Bytes → Bytes
add_table db_table tables = if length tables == 0 then db_table else elim (index db_table tables) [
  | some q ↦ tables
  | none ↦ tables ++ (codes ", " ++ db_table)
]

-- The three strings at the head of the description of a field, from the last one back.
unfoldable pub field_table : Bytes → Cursor → LString → Round
field_table db c past_end = panicked
field_table db c incomplete = waits c
field_table db c malformed = waits c
field_table db c (string table off) = next (record c {
  parse_offset = c.parse_offset + c.message.packet_length;
  message = record (c.message) { tables = add_table (db ++ (codes "." ++ table)) c.message.tables };
})

unfoldable pub field_db : Bytes → Cursor → LString → Round
field_db bytes c past_end = panicked
field_db bytes c incomplete = waits c
field_db bytes c malformed = waits c
field_db bytes c (string db off) = field_table db c (read_lstring bytes off)

unfoldable pub field_catalog : Bytes → Cursor → LString → Round
field_catalog bytes c past_end = panicked
field_catalog bytes c incomplete = waits c
field_catalog bytes c malformed = waits c
field_catalog bytes c (string catalog off) = field_db bytes c (read_lstring bytes off)

-- A whole packet of the fields, behind its header.
unfoldable pub eat_field : Bytes → Cursor → Round
eat_field bytes c =
    if leb (length bytes) c.parse_offset
    then panicked
    else if byte_at bytes c.parse_offset == 0xfe
    then next (record c {
      parse_offset = c.parse_offset + c.message.packet_length;
      parse_state = state_eat_rows;
    })
    else field_catalog bytes c (read_lstring bytes c.parse_offset)

-- A whole packet of the rows, behind its header.
unfoldable pub eat_row : Bytes → Cursor → Round
eat_row bytes c =
    let m = c.message in
    let offset = c.parse_offset + m.packet_length in
    if leb (length bytes) c.parse_offset
    then panicked
    else if byte_at bytes c.parse_offset == 0xfe
    then complete (record c {
      parse_offset = offset;
      message = record m {
        end = if m.end == 0 then offset else m.end;
        is_truncated = if m.end == 0 then m.is_truncated else true;
        size = offset - m.start;
        is_ok = if m.is_error then m.is_ok else true;
      };
    })
    else next (record c {
      parse_offset = offset;
      message = record m {
        end = if m.end == 0 && ltb max_payload_size offset then offset else m.end;
        number_of_rows = m.number_of_rows + 1;
      };
    })

-- `case MysqlStateEatFields` and `case MysqlStateEatRows`, which differ in what they do with a
-- whole packet.
unfoldable pub round_packet : (Bytes → Cursor → Round) → Bytes → Cursor → Round
round_packet eat bytes c =
    let m = with_header bytes c.parse_offset c.message in
    if ltb (left bytes c.parse_offset) 4
    then waits c
    else if leb (m.packet_length + 4) (left bytes c.parse_offset)
    then eat bytes (record c { parse_offset = c.parse_offset + 4; message = m })
    else waits (record c { message = m })

unfoldable pub round : ParseState → Bytes → Cursor → Round
round state_start bytes c = round_start bytes c
round state_eat_message bytes c = round_message bytes c
round state_eat_fields bytes c = round_packet eat_field bytes c
round state_eat_rows bytes c = round_packet eat_row bytes c

-- The loop of `mysqlMessageParser`; `none` is no result of the code: the rounds ran out.
unfoldable pub parse_loop : ℕ → Bytes → Cursor → Option Round
parse_loop zero bytes c = none
parse_loop (suc fuel) bytes c = elim (ltb c.parse_offset (length bytes)) [
  | false ↦ some (waits c)
  | true ↦ elim (round c.parse_state bytes c) [
    | next c' ↦ parse_loop fuel bytes c'
    | waits c' ↦ some (waits c')
    | failed ↦ some failed
    | complete c' ↦ some (complete c')
    | panicked ↦ some panicked
  ]
]

-- `mysqlMessageParser`. A round moves the offset or leaves the start, so two rounds for each byte
-- and two more are enough.
unfoldable pub mysql_message_parser : Bytes → Cursor → Option Round
mysql_message_parser bytes c = parse_loop (2 * length bytes + 2) bytes c
