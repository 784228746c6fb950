-- ===== src/Mysql/Stream.antt =====
-- protos/mysql/mysql.go: `MysqlStream`, `PrepareForNewMessage` and `Parse`.
use packetbeat.Base.{
  ℕ, zero, suc, ◌++◌, Bool, true, false, Option, none, some, length, drop, ltb, if◌then◌else◌,
}
use packetbeat.Base.Text.{Bytes}
use packetbeat.Mysql.Integers.{slice}
use packetbeat.Protos.{Packet}
use packetbeat.Tcp.{tcp_max_data_in_stream}
use packetbeat.Mysql.{
  ParseState, state_start, MysqlMessage, new_message, Cursor, next, waits, failed, complete,
  panicked, mysql_message_parser,
}

-- `MysqlStream`; a message of `none` is nil.
pub record MysqlStream : Type 0 where
  pub payload : Bytes
  pub parse_offset : ℕ
  pub parse_state : ParseState
  pub is_client : Bool
  pub message : Option MysqlMessage

-- `&MysqlStream{data: pkt.Payload, message: &MysqlMessage{Ts: pkt.Ts}}`
abbrev pub new_stream : Packet → MysqlStream
new_stream pkt = record {
  payload = pkt.payload;
  parse_offset = 0;
  parse_state = state_start;
  is_client = false;
  message = some (new_message pkt.ts);
}

-- `if stream.message == nil { ... }`
abbrev pub current_message : ℕ → Option MysqlMessage → MysqlMessage
current_message ts none = new_message ts
current_message ts (some m) = m

abbrev pub cursor_of : ℕ → MysqlStream → Cursor
cursor_of ts s = record {
  parse_offset = s.parse_offset;
  parse_state = s.parse_state;
  is_client = s.is_client;
  message = current_message ts s.message;
}

-- `PrepareForNewMessage`
unfoldable pub prepare_for_new_message : Bytes → MysqlMessage → MysqlStream
prepare_for_new_message bytes m = record {
  payload = drop m.end bytes;
  parse_offset = 0;
  parse_state = state_start;
  is_client = false;
  message = none;
}

-- What `Parse` leaves: the stream, no stream in this direction, or, where its deferred call has
-- recovered from a panic, no private data at all; `hung` is no result of the code.
pub data StreamResult (W : Type 0) : Type 0 where
  kept : MysqlStream → W → StreamResult W
  dropped : W → StreamResult W
  recovered : W → StreamResult W
  hung : StreamResult W

-- What handling a message does: it returns, it panics, or (no result of the code) the rounds of
-- `parseMysqlResponse` ran out.
pub data Handled (W : Type 0) : Type 0 where
  done : W → Handled W
  crashed : W → Handled W
  hangs : Handled W

module _ {W : Type 0} (handle : MysqlMessage → Bytes → W → Handled W) where
  unfoldable pub ship : MysqlMessage → Bytes → W → Handled W
  ship m bytes w = if m.ignore_message then done w else handle m (slice bytes m.start m.end) w

  -- The loop of `Parse`; `none` is no result of the code.
  unfoldable pub stream_loop : ℕ → ℕ → MysqlStream → W → Option (StreamResult W)
  stream_loop zero ts s w = none
  stream_loop (suc fuel) ts s w = elim (ltb 0 (length s.payload)) [
    | false ↦ some (kept s w)
    | true ↦ elim (mysql_message_parser s.payload (cursor_of ts s)) [
      | none ↦ none
      | some (next c) ↦ none
      | some failed ↦ some (dropped w)
      | some panicked ↦ some (recovered w)
      | some (waits c) ↦ some (
          kept
            (record {
              payload = s.payload;
              parse_offset = c.parse_offset;
              parse_state = c.parse_state;
              is_client = c.is_client;
              message = some c.message;
            })
            w)
      | some (complete c) ↦ elim (ltb c.message.end c.message.start) [
        | true ↦ some (recovered w)
        | false ↦ elim (ship c.message s.payload w) [
          | done w' ↦ stream_loop fuel ts (prepare_for_new_message s.payload c.message) w'
          | crashed w' ↦ some (recovered w')
          | hangs ↦ some hung
        ]
      ]
    ]
  ]

  -- `Parse`, on the stream of the packet's direction.
  unfoldable pub parse_stream : Packet → Option MysqlStream → W → Option (StreamResult W)
  parse_stream pkt none w = stream_loop (suc (length pkt.payload)) pkt.ts (new_stream pkt) w
  parse_stream pkt (some s) w =
      let bytes = s.payload ++ pkt.payload in
      if ltb tcp_max_data_in_stream (length bytes)
      then some (dropped w)
      else stream_loop (suc (length bytes)) pkt.ts (record s { payload = bytes }) w
