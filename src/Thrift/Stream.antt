-- ===== src/Thrift/Stream.antt =====
-- protos/thrift/thrift.go: `ThriftStream`, `Parse`, `ReceivedFin` and `GapInStream`. Every message
-- takes bytes of the data, so the loop of `Parse` takes as much fuel as the data are long.
use packetbeat.Base.{
  ℕ, zero, suc, ◌-◌, ◌%◌, ◌^◌, ◌++◌, Bool, true, false, not, ◌&&◌, [], Option, none, some, length,
  drop, ltb, ◌==◌, if◌then◌else◌,
}
use packetbeat.Base.Text.{Bytes}
use packetbeat.Protos.{Packet, TcpTuple}
use packetbeat.Redis.Transactions.{Lookups}
use packetbeat.Tcp.{tcp_max_data_in_stream}
use packetbeat.Thrift.{message_parser}
use packetbeat.Thrift.Message.{
  Library, Options, ThriftMessage, new_message, ParseState, start_state, Cursor, next, waits,
  complete, failed, panicked, spent,
}
use packetbeat.Thrift.State.{Thrift}
use packetbeat.Thrift.Transactions.{handle_thrift, finish_connection}

-- `ThriftStream`; a message of `none` is nil.
pub record ThriftStream : Type 0 where
  pub bytes : Bytes  -- `data`
  pub parse_offset : ℕ
  pub parse_state : ParseState
  pub skip_input : Bool
  pub message : Option ThriftMessage

-- `&ThriftStream{data: pkt.Payload, message: &ThriftMessage{Ts: pkt.Ts}}`
abbrev pub new_stream : Packet → ThriftStream
new_stream pkt = record {
  bytes = pkt.payload;
  parse_offset = 0;
  parse_state = start_state;
  skip_input = false;
  message = some (new_message pkt.ts);
}

-- `if stream.message == nil { ... }`
abbrev pub current_message : ℕ → Option ThriftMessage → ThriftMessage
current_message ts none = new_message ts
current_message ts (some m) = m

abbrev pub cursor_of : ℕ → ThriftStream → Cursor
cursor_of ts s = record {
  parse_offset = s.parse_offset;
  parse_state = s.parse_state;
  message = current_message ts s.message;
}

-- `PrepareForNewMessage`, for the offset behind the message.
unfoldable pub prepare_for_new_message : Bool → ℕ → ThriftStream → ThriftStream
prepare_for_new_message flush offset s = record s {
  bytes = if flush then [] else drop offset s.bytes;
  parse_offset = 0;
  parse_state = start_state;
  message = none;
}

-- The streams of `thriftPrivateData`, as the one of the call's direction and the other.
pub record Streams : Type 0 where
  pub this : Option ThriftStream
  pub other : Option ThriftStream

-- What a call does: it leaves the streams, or it panics; `hung` is no result of the code.
pub data StreamResult : Type 0 where
  kept : Streams → Thrift → StreamResult
  recovered hung : Thrift → StreamResult

-- `stream_rev.skipInput = false`
unfoldable pub resumed : Option ThriftStream → Option ThriftStream
resumed none = none
resumed (some s) = some (record s { skip_input = false })

-- A frame that is not told is as long as the message.
unfoldable pub with_frame_size : ℕ → ThriftMessage → ThriftMessage
with_frame_size offset m =
    if m.frame_size == 0 then record m { frame_size = (offset - m.start) % 2 ^ 32 } else m

-- `!IsRequest && !CaptureReply` and `IsRequest && !CaptureReply`
unfoldable pub skips : Options → ThriftMessage → Bool
skips o m = not m.is_request && not o.capture_reply

unfoldable pub resumes : Options → ThriftMessage → Bool
resumes o m = m.is_request && not o.capture_reply

-- The stream behind a complete message. A reply that is not captured suspends it.
unfoldable pub behind : Options → Cursor → ThriftStream → ThriftStream
behind o c s =
    let skip = skips o c.message in
    prepare_for_new_message skip c.parse_offset
      (record s { skip_input = if skip then true else s.skip_input })

-- The stream of the other direction behind a complete message.
unfoldable pub other_behind : Options → ThriftMessage → Option ThriftStream → Option ThriftStream
other_behind o m other = if resumes o m then resumed other else other

-- The stream where its message waits.
unfoldable pub waiting : Cursor → ThriftStream → ThriftStream
waiting c s = record s {
  parse_offset = c.parse_offset;
  parse_state = c.parse_state;
  message = some c.message;
}

module _ (lib : Library) (env : Lookups) (tuple : TcpTuple) (dir : ℕ) where
  -- The loop of `Parse`.
  unfoldable pub stream_loop : ℕ → ℕ → ThriftStream → Option ThriftStream → Thrift → StreamResult
  stream_loop zero ts s other thrift = hung thrift
  stream_loop (suc fuel) ts s other thrift =
      if ltb 0 (length s.bytes)
      then elim (message_parser lib thrift.options s.bytes (cursor_of ts s)) [
        | next c ↦ hung thrift
        | spent ↦ hung thrift
        | failed ↦ kept (record { this = none; other = other }) thrift
        | panicked ↦ recovered thrift
        | waits c ↦ kept (record { this = some (waiting c s); other = other }) thrift
        | complete c ↦
            stream_loop fuel ts (behind thrift.options c s)
              (other_behind thrift.options c.message other)
              (handle_thrift env tuple dir (with_frame_size c.parse_offset c.message) thrift)
      ]
      else kept (record { this = some s; other = other }) thrift

  unfoldable pub parse_data : ℕ → ThriftStream → Option ThriftStream → Thrift → StreamResult
  parse_data ts s other thrift = stream_loop (suc (length s.bytes)) ts s other thrift

  -- `Parse`, on the streams of the connection.
  unfoldable pub parse_streams : Packet → Streams → Thrift → StreamResult
  parse_streams pkt streams thrift = elim streams.this [
    | none ↦ parse_data pkt.ts (new_stream pkt) streams.other thrift
    | some s ↦
        if s.skip_input
        then kept streams thrift
        else let bytes = s.bytes ++ pkt.payload in
          if ltb tcp_max_data_in_stream (length bytes)
          then kept (record streams { this = none }) thrift
          else parse_data pkt.ts (record s { bytes = bytes }) streams.other thrift
  ]

-- `thriftPrivateData`
pub record ThriftPrivateData : Type 0 where
  pub reverse : Option ThriftStream
  pub original : Option ThriftStream

unfoldable pub private_data : Option ThriftPrivateData → ThriftPrivateData
private_data none = record { reverse = none; original = none }
private_data (some priv) = priv

unfoldable pub streams_of : ℕ → ThriftPrivateData → Streams
streams_of dir priv =
    if dir == 0
    then record { this = priv.reverse; other = priv.original }
    else record { this = priv.original; other = priv.reverse }

unfoldable pub of_streams : ℕ → Streams → ThriftPrivateData
of_streams dir streams =
    if dir == 0
    then record { reverse = streams.this; original = streams.other }
    else record { reverse = streams.other; original = streams.this }

-- What a call that has not hung returns, where a panic is recovered with nil.
unfoldable pub call_result : ℕ → StreamResult → Option (Option ThriftPrivateData × Thrift)
call_result dir (kept streams thrift) = some (some (of_streams dir streams), thrift)
call_result dir (recovered thrift) = some (none, thrift)
call_result dir (hung thrift) = none

-- `Parse`
unfoldable pub parse :
    Library
    → Lookups
    → Packet
    → TcpTuple
    → ℕ
    → Option ThriftPrivateData
    → Thrift
    → Option (Option ThriftPrivateData × Thrift)
parse lib env pkt tuple dir private thrift =
    call_result dir
      (parse_streams lib env tuple dir pkt (streams_of dir (private_data private)) thrift)

-- `ReceivedFin`
unfoldable pub received_fin :
    Lookups → TcpTuple → ℕ → Option ThriftPrivateData → Thrift → Option ThriftPrivateData × Thrift
received_fin env tuple dir private thrift = (private, finish_connection env tuple thrift)

-- `GapInStream`
unfoldable pub gap_in_stream : TcpTuple → ℕ → Option ThriftPrivateData → Option ThriftPrivateData
gap_in_stream tuple dir private = private
