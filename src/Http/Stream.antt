-- ===== src/Http/Stream.antt =====
-- protos/http/http.go: `HttpStream`, `Parse`, `ReceivedFin` and `GapInStream`. A call handles one
-- message at most.
use packetbeat.Base.{ℕ, ◌+◌, ◌++◌, Option, none, some, length, take, drop, ltb, ◌==◌, if◌then◌else◌}
use packetbeat.Base.Text.{Bytes}
use packetbeat.Http.{message_parser}
use packetbeat.Http.Hiding.{hide_headers}
use packetbeat.Http.Message.{
  ParseState, start_state, HttpMessage, new_message, next, waits, failed, complete, panicked, spent,
}
use packetbeat.Http.Parameters.{Urls}
use packetbeat.Http.State.{Http}
use packetbeat.Http.Transactions.{Handled, done, crashed, handle_http}
use packetbeat.Base.Slice.{Buffer, slice?, rest?}
use packetbeat.Protos.{Packet, TcpTuple, Call, returns, panics}
use packetbeat.Redis.Transactions.{Lookups}
use packetbeat.Tcp.{tcp_max_data_in_stream}

-- `HttpStream`; a message of `none` is nil.
pub record HttpStream : Type 0 where
  pub buffer : Buffer  -- `data`
  pub parse_offset : ℕ
  pub parse_state : ParseState
  pub body_received : ℕ
  pub message : Option HttpMessage

-- `&HttpStream{data: pkt.Payload, message: &HttpMessage{Ts: pkt.Ts}}`
abbrev pub new_stream : Packet → Bytes → HttpStream
new_stream pkt spare = record {
  buffer = record { bytes = pkt.payload; spare = spare };
  parse_offset = 0;
  parse_state = start_state;
  body_received = 0;
  message = some (new_message pkt.ts);
}

-- `if stream.message == nil { ... }`
abbrev pub current_message : ℕ → Option HttpMessage → HttpMessage
current_message ts none = new_message ts
current_message ts (some m) = m

-- `PrepareForNewMessage`, or a panic.
unfoldable pub prepare_for_new_message : HttpMessage → Buffer → Option HttpStream
prepare_for_new_message m d = elim (rest? d m.end) [
  | none ↦ none
  | some bytes ↦ some (record {
    buffer = record d { bytes = bytes };
    parse_offset = 0;
    parse_state = start_state;
    body_received = 0;
    message = none;
  })
]

-- What a call does: it leaves the stream of its direction, which may be nil, or it panics; `hung` is
-- no result of the code.
pub data StreamResult : Type 0 where
  kept : Option HttpStream → Http → StreamResult
  recovered : Http → StreamResult
  hung : Http → StreamResult

-- The data, with other bytes of a message that starts there.
unfoldable pub overwritten : ℕ → Bytes → Buffer → Buffer
overwritten from bytes d = record d {
  bytes = take from d.bytes ++ (bytes ++ drop (from + length bytes) d.bytes);
}

module _ (env : Lookups) (urls : Urls) (tuple : TcpTuple) (dir : ℕ) where
  -- Behind `handleHttp` the message is reset. Its bytes in the data are as the calls left them.
  unfoldable pub reset : HttpMessage → Buffer → Handled → StreamResult
  reset m d (crashed http) = recovered http
  reset m d (done raw http) = elim (prepare_for_new_message m (overwritten m.start raw.bytes d)) [
    | none ↦ recovered http
    | some s ↦ kept (some s) http
  ]

  -- A message with its bytes goes to the transactions; what is behind them in the array is `behind`.
  unfoldable pub ship : HttpMessage → Bytes → Bytes → Buffer → Http → StreamResult
  ship m bytes behind d http =
      elim (hide_headers http.strip_authorization m (record { bytes = bytes; spare = behind })) [
        | none ↦ recovered http
        | some (m', bytes') ↦
            reset m' d
              (handle_http env urls tuple dir m' (record { bytes = bytes'; spare = behind }) http)
      ]

  -- What `Parse` does with a complete message.
  unfoldable pub ship_complete : HttpMessage → Buffer → Http → StreamResult
  ship_complete m d http = elim (slice? d m.start m.end) [
    | none ↦ recovered http
    | some bytes ↦ ship m bytes (drop m.end (d.bytes ++ d.spare)) d http
  ]

  -- `Parse`, once the payload is appended.
  unfoldable pub parse_data : ℕ → HttpStream → Http → StreamResult
  parse_data ts s http =
      elim (message_parser http.options s.buffer (record {
        parse_offset = s.parse_offset;
        parse_state = s.parse_state;
        body_received = s.body_received;
        message = current_message ts s.message;
      })) [
        | next c ↦ hung http
        | spent ↦ hung http
        | failed ↦ kept none http
        | panicked ↦ recovered http
        | waits c ↦
            kept
              (some (record {
                buffer = s.buffer;
                parse_offset = c.parse_offset;
                parse_state = c.parse_state;
                body_received = c.body_received;
                message = some c.message;
              }))
              http
        | complete c ↦ ship_complete c.message s.buffer http
      ]

  -- `Parse`, on the stream of the direction; `spare` is what the array of the data holds behind them.
  unfoldable pub parse_stream : Packet → Bytes → Option HttpStream → Http → StreamResult
  parse_stream pkt spare none http = parse_data pkt.ts (new_stream pkt spare) http
  parse_stream pkt spare (some s) http =
      let bytes = s.buffer.bytes ++ pkt.payload in
      if ltb tcp_max_data_in_stream (length bytes)
      then kept none http
      else parse_data pkt.ts (record s { buffer = record { bytes = bytes; spare = spare } }) http

  -- `ReceivedFin`: what has come of a message is handled as it is.
  unfoldable pub fin_in_stream : Option HttpStream → Http → StreamResult
  fin_in_stream none http = kept none http
  fin_in_stream (some s) http = elim (s.message) [
    | none ↦ kept (some s) http
    | some m ↦ elim (rest? s.buffer m.start) [
      | none ↦ recovered http
      | some bytes ↦
          if ltb 0 (length bytes)
          then ship m bytes s.buffer.spare s.buffer http
          else kept (some s) http
    ]
  ]

-- `httpPrivateData`
pub record HttpPrivateData : Type 0 where
  pub reverse : Option HttpStream
  pub original : Option HttpStream

unfoldable pub private_data : Option HttpPrivateData → HttpPrivateData
private_data none = record { reverse = none; original = none }
private_data (some priv) = priv

unfoldable pub stream_of : ℕ → HttpPrivateData → Option HttpStream
stream_of dir priv = if dir == 0 then priv.reverse else priv.original

unfoldable pub with_stream : ℕ → Option HttpStream → HttpPrivateData → HttpPrivateData
with_stream dir s priv =
    if dir == 0 then record priv { reverse = s } else record priv { original = s }

-- What a call that has not hung returns, where a panic is recovered with nil.
unfoldable pub call_result :
    ℕ → HttpPrivateData → StreamResult → Option (Option HttpPrivateData × Http)
call_result dir priv (kept s http) = some (some (with_stream dir s priv), http)
call_result dir priv (recovered http) = some (none, http)
call_result dir priv (hung http) = none

-- `Parse`
unfoldable pub parse :
    Lookups
    → Urls
    → Packet
    → Bytes
    → TcpTuple
    → ℕ
    → Option HttpPrivateData
    → Http
    → Option (Option HttpPrivateData × Http)
parse env urls pkt spare tuple dir private http =
    let priv = private_data private in
    call_result dir priv (parse_stream env urls tuple dir pkt spare (stream_of dir priv) http)

-- `GapInStream`
unfoldable pub gap_in_stream : TcpTuple → ℕ → Option HttpPrivateData → Option HttpPrivateData
gap_in_stream tuple dir private = private

-- `ReceivedFin`; `FollowTcp` recovers from its panic.
unfoldable pub fin_result : ℕ → HttpPrivateData → StreamResult → Call HttpPrivateData × Http
fin_result dir priv (kept s http) = (returns (some (with_stream dir s priv)), http)
fin_result dir priv (recovered http) = (panics, http)
fin_result dir priv (hung http) = (panics, http)

unfoldable pub received_fin :
    Lookups → Urls → TcpTuple → ℕ → Option HttpPrivateData → Http → Call HttpPrivateData × Http
received_fin env urls tuple dir none http = (returns none, http)
received_fin env urls tuple dir (some priv) http =
    fin_result dir priv (fin_in_stream env urls tuple dir (stream_of dir priv) http)
