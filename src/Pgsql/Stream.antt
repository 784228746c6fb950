-- ===== src/Pgsql/Stream.antt =====
-- protos/pgsql/pgsql.go: `PgsqlStream`, `PrepareForNewMessage`, `Parse` and `GapInStream`.
use packetbeat.Base.{
  ℕ, zero, suc, ◌+◌, ◌++◌, Bool, true, false, ◌||◌, Option, none, some, length, drop, ltb,
  if◌then◌else◌,
}
use packetbeat.Base.Text.{Bytes}
use packetbeat.Protos.{Packet}
use packetbeat.Tcp.{tcp_max_data_in_stream}
use packetbeat.Base.Slice.{Buffer}
use packetbeat.Pgsql.Message.{
  Common, ParseState, start_state, PgsqlMessage, new_message, next, waits, complete, panicked,
  spent,
}
use packetbeat.Pgsql.{pgsql_message_parser}

-- `PgsqlStream`; a message of `none` is nil.
pub record PgsqlStream : Type 0 where
  pub buffer : Buffer  -- `data`
  pub parse_offset : ℕ
  pub parse_state : ParseState
  pub seen_ssl_request : Bool
  pub expect_ssl_response : Bool
  pub message : Option PgsqlMessage

-- `&PgsqlStream{data: pkt.Payload, message: &PgsqlMessage{Ts: pkt.Ts}}`
abbrev pub new_stream : Packet → Bytes → PgsqlStream
new_stream pkt spare = record {
  buffer = record { bytes = pkt.payload; spare = spare };
  parse_offset = 0;
  parse_state = start_state;
  seen_ssl_request = false;
  expect_ssl_response = false;
  message = some (new_message pkt.ts);
}

-- `if stream.message == nil { ... }`
abbrev pub current_message : ℕ → Option PgsqlMessage → PgsqlMessage
current_message ts none = new_message ts
current_message ts (some m) = m

-- `PrepareForNewMessage`, for a message whose end is not behind the data.
unfoldable pub prepare_for_new_message : PgsqlMessage → PgsqlStream → PgsqlStream
prepare_for_new_message m s = record s {
  buffer = record (s.buffer) { bytes = drop m.end s.buffer.bytes };
  parse_offset = 0;
  parse_state = start_state;
  message = none;
}

-- `pgsqlPrivateData`: the stream of the direction at hand, and that of the other one.
pub record Streams : Type 0 where
  pub this : Option PgsqlStream
  pub other : Option PgsqlStream

-- What the calls leave: the streams, or, where the deferred call has recovered from a panic, no
-- private data at all; `hung` is no result of the code.
pub data StreamResult (W : Type 0) : Type 0 where
  kept : Streams → W → StreamResult W
  recovered : W → StreamResult W
  hung : StreamResult W

-- `s.data[start:end]` and, later, `s.data[end:]` panic.
abbrev pub cannot_cut : Buffer → PgsqlMessage → Bool
cannot_cut d m = ltb m.end m.start || ltb (length d.bytes + length d.spare) m.end

abbrev pub cannot_drop : Buffer → PgsqlMessage → Bool
cannot_drop d m = ltb (length d.bytes) m.end

-- What a complete message does before the stream is made ready: the stream, the other one and the
-- state that the handler leaves, or a panic.
pub data Shipped (W : Type 0) : Type 0 where
  shipped : PgsqlStream → Option PgsqlStream → W → Shipped W
  failed : W → Shipped W

-- `if priv.Data[1-dir] != nil && priv.Data[1-dir].seenSSLRequest`
abbrev pub expecting : Option PgsqlStream → PgsqlStream → PgsqlStream
expecting none s = s
expecting (some o) s = if o.seen_ssl_request then record s { expect_ssl_response = true } else s

module _ {W : Type 0} (handle : PgsqlMessage → W → W) where
  unfoldable pub ship : PgsqlMessage → PgsqlStream → Option PgsqlStream → W → Shipped W
  ship m s other w =
      if m.is_ssl_request
      then shipped (record s { seen_ssl_request = true }) other w
      else if m.is_ssl_response
      then elim other [
        | none ↦ failed w
        | some o ↦
            shipped (record s { expect_ssl_response = false })
              (some (record o { seen_ssl_request = false })) w
      ]
      else if m.to_export
      then shipped s other (handle m w)
      else shipped s other w

  -- The loop of `Parse`, with `maxRowLength` and `maxStoreRows`.
  unfoldable pub stream_loop :
      Common → ℕ → ℕ → ℕ → ℕ → PgsqlStream → Option PgsqlStream → W → StreamResult W
  stream_loop lib max max_rows zero ts s other w = hung
  stream_loop lib max max_rows (suc fuel) ts s other w = elim (ltb 0 (length s.buffer.bytes)) [
    | false ↦ kept (record { this = some s; other = other }) w
    | true ↦
        elim (pgsql_message_parser lib s.buffer max max_rows s.expect_ssl_response (record {
          parse_offset = s.parse_offset;
          parse_state = s.parse_state;
          message = current_message ts s.message;
        })) [
          | next c ↦ hung
          | spent ↦ hung
          | panicked ↦ recovered w
          | waits c ↦
              kept
                (record {
                  this = some (record s {
                    parse_offset = c.parse_offset;
                    parse_state = c.parse_state;
                    message = some c.message;
                  });
                  other = other;
                })
                w
          | complete c ↦ elim (cannot_cut s.buffer c.message) [
            | true ↦ recovered w
            | false ↦ elim (ship c.message s other w) [
              | failed w' ↦ recovered w'
              | shipped s' other' w' ↦ elim (cannot_drop s.buffer c.message) [
                | true ↦ recovered w'
                | false ↦
                    stream_loop lib max max_rows fuel ts (prepare_for_new_message c.message s')
                      other' w'
              ]
            ]
          ]
        ]
  ]

  -- `Parse`; `spare` is what the array of the data holds behind them, as `append` left it.
  unfoldable pub parse_streams : Common → ℕ → ℕ → Packet → Bytes → Streams → W → StreamResult W
  parse_streams lib max max_rows pkt spare priv w = elim (priv.this) [
    | none ↦
        stream_loop lib max max_rows (suc (length pkt.payload)) pkt.ts
          (expecting priv.other (new_stream pkt spare)) priv.other w
    | some s ↦
        let bytes = s.buffer.bytes ++ pkt.payload in
        if ltb tcp_max_data_in_stream (length bytes)
        then kept (record priv { this = none }) w
        else stream_loop lib max max_rows (suc (length bytes)) pkt.ts
            (expecting priv.other (record s { buffer = record { bytes = bytes; spare = spare } }))
            priv.other w
  ]

  -- `messageHasEnoughData`
  unfoldable pub message_has_enough_data : PgsqlMessage → Bool
  message_has_enough_data m =
      if m.is_ssl_request || m.is_ssl_response
      then false
      else if m.is_request
      then ltb 0 (length m.query)
      else ltb 0 (length m.rows)

  -- What `GapInStream` does with the message of the stream, as far as it came.
  unfoldable pub flush_message : PgsqlMessage → PgsqlStream → Streams → W → StreamResult W
  flush_message old s priv w =
      let m = record old { to_export = true; end = s.parse_offset; incomplete = true } in
      if cannot_cut s.buffer m
      then recovered w
      else if cannot_drop s.buffer m
      then recovered (handle m w)
      else kept (record priv { this = some (prepare_for_new_message m s) }) (handle m w)

  -- `GapInStream`
  unfoldable pub gap_in_streams : Streams → W → StreamResult W
  gap_in_streams priv w = elim (priv.this) [
    | none ↦ kept priv w
    | some s ↦ elim (s.message) [
      | none ↦ kept priv w
      | some m ↦ if message_has_enough_data m then flush_message m s priv w else kept priv w
    ]
  ]
