-- ===== src/Pgsql.antt =====
-- protos/pgsql/pgsql.go: the parser of a stream, `pgsqlMessageParser`.
pub mod Message
pub mod Reading
pub mod Stream
pub mod Progress
pub mod Termination
pub mod Streaming
pub mod Endless
pub mod Framing
pub mod Loop
pub mod Segments
pub mod Spaces
pub mod Queries
pub mod State
pub mod Transactions
pub mod Plugin
pub mod Lists
pub mod Queues
pub mod Refinement
pub mod Pipeline
use packetbeat.Base.{
  ℕ, zero, suc, ◌+◌, ◌-◌, ◌*◌, Bool, true, false, ◌&&◌, ◌||◌, Option, none, some, length, take,
  drop, get_or, ltb, leb, ◌==◌, if◌then◌else◌,
}
use packetbeat.Base.Text.{Bytes}
use packetbeat.Base.Slice.{Buffer}
use packetbeat.Pgsql.Message.{
  Common, ParseState, start_state, get_data_state, Command, ssl_request, startup_message,
  cancel_request, PgsqlMessage, Cursor, Round, next, waits, complete, panicked, spent,
}
use packetbeat.Pgsql.Reading.{fields_parser, rows_parser, error_loop}

-- `len(s.data[s.parseOffset:])`
abbrev pub left : Buffer → ℕ → ℕ
left d offset = length d.bytes - offset

-- `common.Bytes_Ntohl(s.data[offset : offset+4])`, where it is known that the bytes are there.
abbrev pub u32_at : Common → Buffer → ℕ → ℕ
u32_at lib d offset = lib.ntohl (take 4 (drop offset d.bytes))

abbrev pub byte_at : Buffer → ℕ → ℕ
byte_at d offset = get_or d.bytes offset 0

-- `isSpecialPgsqlCommand`, on the data from the offset on.
unfoldable pub special_command : Common → Buffer → ℕ → Option Command
special_command lib d offset =
    let len = u32_at lib d offset in
    let code = u32_at lib d (offset + 4) in
    if ltb (left d offset) 8
    then none
    else if len == 16 && code == 80_877_102
    then some cancel_request
    else if len == 8 && code == 80_877_103
    then some ssl_request
    else if code == 196_608
    then some startup_message
    else none

-- The reply to an SSL request.
unfoldable pub ssl_response : Cursor → Round
ssl_response c = complete (record c {
  parse_offset = c.parse_offset + 1;
  message = record (c.message) {
    start = c.parse_offset;
    end = c.parse_offset + 1;
    is_ssl_response = true;
  };
})

-- The message of a response, where its first packet is found.
abbrev pub as_response : Cursor → PgsqlMessage
as_response c = record (c.message) { start = c.parse_offset; is_request = false; to_export = true }

-- `typ == 'I'`
unfoldable pub empty_query : Cursor → Round
empty_query c = complete (record c {
  parse_offset = c.parse_offset + 5;
  message = record (as_response c) { is_ok = true; end = c.parse_offset + 5; size = 5 };
})

-- `m.end = s.parseOffset` and `m.Size = uint64(m.end - m.start)` at the end of a message.
unfoldable pub end_message : Cursor → Cursor
end_message c = record c {
  message = record (c.message) { end = c.parse_offset; size = c.parse_offset - c.message.start };
}

-- A result of `pgsqlErrorParser` completes the message.
unfoldable pub finish_error : Round → Round
finish_error (next c) = complete (end_message c)
finish_error (waits c) = waits c
finish_error (complete c) = complete c
finish_error panicked = panicked
finish_error spent = spent

-- The end of a CommandComplete packet, whose tag is cut out of it, with a panic where the length
-- leaves no room for it.
unfoldable pub finish_command : ℕ → Cursor → Round
finish_command len c =
    if ltb len 5
    then panicked
    else complete (
        end_message
          (record c { parse_offset = c.parse_offset + 1 + len; parse_state = start_state }))

module _ (lib : Common) (d : Buffer) where
  -- The branch on a special command.
  unfoldable pub round_special : Command → Cursor → Round
  round_special command c =
      let len = u32_at lib d c.parse_offset in
      let offset = c.parse_offset + len in
      if leb len (left d c.parse_offset)
      then elim command [
        | ssl_request ↦ complete (record c {
          parse_offset = offset;
          message = record (c.message) {
            start = c.parse_offset;
            end = offset;
            is_ssl_request = true;
          };
        })
        | startup_message ↦ next (record c { parse_offset = offset })
        | cancel_request ↦ next (record c { parse_offset = offset })
      ]
      else waits c

  -- `len(s.data[s.parseOffset:]) >= length+1`
  abbrev pub is_whole : ℕ → ℕ → Bool
  is_whole len offset = leb (len + 1) (left d offset)

  -- `typ == 'Q'`
  unfoldable pub simple_query : ℕ → Cursor → Round
  simple_query len c =
      let m = record (c.message) { start = c.parse_offset; is_request = true } in
      let end = c.parse_offset + 1 + len in
      if is_whole len c.parse_offset
      then (if ltb end (c.parse_offset + 6)
          then panicked
          else complete (record c {
            parse_offset = end;
            message = record m {
              end = end;
              query = take (end - 1 - (c.parse_offset + 5)) (drop (c.parse_offset + 5) d.bytes);
              to_export = true;
            };
          }))
      else waits (record c { message = m })

  -- `typ == 'T'`
  unfoldable pub row_description : ℕ → Cursor → Round
  row_description len c =
      let m = record (as_response c) { is_ok = true } in
      let c' : Cursor = record c { parse_offset = c.parse_offset + 5; message = m } in
      if is_whole len c.parse_offset
      then elim (fields_parser lib d c') [
        | none ↦ panicked
        | some c'' ↦ next (record c'' { parse_state = get_data_state })
      ]
      else waits (record c { message = m })

  -- `typ == 'E'`
  unfoldable pub error_response : ℕ → Cursor → Round
  error_response len c =
      let m = record (as_response c) { is_error = true } in
      if is_whole len c.parse_offset
      then finish_error (
          error_loop lib d (suc (length d.bytes))
            (record c { parse_offset = c.parse_offset + 5; message = m }))
      else waits (record c { message = m })

  -- `typ == 'C'`
  unfoldable pub command_complete : ℕ → Cursor → Round
  command_complete len c =
      let m = record (as_response c) { is_ok = true } in
      if is_whole len c.parse_offset
      then finish_command len (record c { message = m })
      else waits (record c { message = m })

  -- `typ == 'Z'`
  unfoldable pub ready_for_query : ℕ → Cursor → Round
  ready_for_query len c =
      let end = c.parse_offset + 1 + len in
      if is_whole len c.parse_offset
      then complete (record c {
        parse_offset = end;
        message = record (c.message) { start = c.parse_offset; end = end };
      })
      else waits c

  -- Any other type is skipped.
  unfoldable pub skip_packet : ℕ → Cursor → Round
  skip_packet len c =
      if is_whole len c.parse_offset
      then next (record c { parse_offset = c.parse_offset + 1 + len })
      else waits c

  -- The branch on the type in the first byte.
  unfoldable pub round_typed : ℕ → ℕ → Cursor → Round
  round_typed typ len c =
      if typ == b'Q'
      then simple_query len c
      else if typ == b'T'
      then row_description len c
      else if typ == b'I'
      then empty_query c
      else if typ == b'E'
      then error_response len c
      else if typ == b'C'
      then command_complete len c
      else if typ == b'Z'
      then ready_for_query len c
      else skip_packet len c

  -- `case PgsqlStartState`; the flag is `s.expectSSLResponse`.
  unfoldable pub round_start : Bool → Cursor → Round
  round_start expect c =
      let typ = byte_at d c.parse_offset in
      if ltb (left d c.parse_offset) 5
      then waits c
      else elim (special_command lib d c.parse_offset) [
        | some command ↦ round_special command c
        | none ↦
            if expect && (typ == b'N' || typ == b'S')
            then ssl_response c
            else round_typed typ (u32_at lib d (c.parse_offset + 1)) c
      ]

  -- `typ == 'D'`, with `maxRowLength` and `maxStoreRows`.
  unfoldable pub data_row : ℕ → ℕ → ℕ → Cursor → Round
  data_row max max_rows len c =
      if is_whole len c.parse_offset
      then elim (rows_parser lib d max max_rows (record c { parse_offset = c.parse_offset + 5 })) [
        | none ↦ panicked
        | some c' ↦ next c'
      ]
      else waits c

  -- `case PgsqlGetDataState`
  unfoldable pub round_data : ℕ → ℕ → Cursor → Round
  round_data max max_rows c =
      let typ = byte_at d c.parse_offset in
      let len = u32_at lib d (c.parse_offset + 1) in
      if ltb (left d c.parse_offset) 5
      then waits c
      else if typ == b'D'
      then data_row max max_rows len c
      else if typ == b'C'
      then (if is_whole len c.parse_offset then finish_command len c else waits c)
      else next (record c { parse_state = start_state })

  unfoldable pub round : ParseState → ℕ → ℕ → Bool → Cursor → Round
  round start_state max max_rows expect c = round_start expect c
  round get_data_state max max_rows expect c = round_data max max_rows c

  -- The loop of `pgsqlMessageParser`.
  unfoldable pub parse_loop : ℕ → ℕ → ℕ → Bool → Cursor → Round
  parse_loop zero max max_rows expect c = spent
  parse_loop (suc fuel) max max_rows expect c = elim (ltb c.parse_offset (length d.bytes)) [
    | false ↦ waits c
    | true ↦ elim (round c.parse_state max max_rows expect c) [
      | next c' ↦ parse_loop fuel max max_rows expect c'
      | waits c' ↦ waits c'
      | complete c' ↦ complete c'
      | panicked ↦ panicked
      | spent ↦ spent
    ]
  ]

  -- `pgsqlMessageParser`. A round moves the offset, or leaves the state for data: two rounds for
  -- each byte and two more are enough, where no start-up message has the length 0.
  unfoldable pub pgsql_message_parser : ℕ → ℕ → Bool → Cursor → Round
  pgsql_message_parser max max_rows expect c =
      parse_loop (2 * length d.bytes + 2) max max_rows expect c
