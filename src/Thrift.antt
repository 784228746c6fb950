-- ===== src/Thrift.antt =====
-- protos/thrift/thrift.go: `readMessageBegin`, `readField` and `messageParser`. Every round that
-- goes on moves the offset, so the loop takes as much fuel as the data are long.
pub mod Message
pub mod Reading
pub mod Values
pub mod Idl
pub mod State
pub mod Transactions
pub mod Stream
pub mod Bounds
pub mod Progress
pub mod Termination
pub mod Streaming
pub mod Encoding
pub mod Steps
pub mod RoundTrip
pub mod Calls
pub mod Messages
pub mod Correlation
pub mod Timers
pub mod Expiry
pub mod CutStructs
pub mod Prefixes
pub mod Append
pub mod Headers
pub mod Rounds
pub mod Loop
pub mod Resume
pub mod Names
use packetbeat.Base.{
  ℕ, zero, suc, ◌+◌, ◌%◌, ◌/◌, ◌*◌, ◌^◌, ◌++◌, Bool, true, false, not, ◌&&◌, ◌||◌, List, [], ◌∷◌,
  Option, none, some, length, take, drop, get_or, ltb, leb, ◌==◌, if◌then◌else◌,
}
use packetbeat.Base.GoMap.{lookup, bytes_instance}
use packetbeat.Base.Text.{Bytes}
use packetbeat.Thrift.Message.{
  Library, ParserService, ThriftIdlMethod, ThriftIdl, framed_transport, Options, ThriftField,
  ThriftMessage, ParseState, start_state, field_state, Cursor, Read, cut, refused, crashed, whole,
  Round, next, waits, complete, failed, panicked, spent,
}
use packetbeat.Thrift.Reading.{read_string}
use packetbeat.Thrift.Values.{read_struct_field, read_with, format_struct}

-- `ThriftMsgTypeCall` and `ThriftMsgTypeOneway`
unfoldable pub is_call : ℕ → Bool
is_call type = (type == 1) || (type == 4)

-- `FindMethod`, where an IDL is loaded.
unfoldable pub find_method : Option ThriftIdl → Bytes → Option ThriftIdlMethod
find_method none name = none
find_method (some idl) name = lookup name idl

-- What `readMessageBegin` does: it writes into the message and is not complete, or it is not ok,
-- or it leaves the message and the offset behind the header.
pub data Begin : Type 0 where
  begin_waits : ThriftMessage → Begin
  begin_failed : Begin
  begun : ThriftMessage → ℕ → Begin

-- What follows the name of the method: the sequence id, with the type before it in the old header.
unfoldable pub end_strict : Library → Bytes → ℕ → ThriftMessage → Begin
end_strict lib d offset m =
    if ltb (length (drop offset d)) 4
    then begin_waits m
    else begun
        (record m { seq_id = lib.ntohl (take 4 (drop offset d)); is_request = is_call m.type })
        (offset + 4)

unfoldable pub end_old : Library → Bytes → ℕ → ThriftMessage → Begin
end_old lib d offset m =
    if ltb (length (drop offset d)) 5
    then begin_waits m
    else begun
        (record m {
          type = get_or d offset 0;
          seq_id = lib.ntohl (take 4 (drop (suc offset) d));
          is_request = is_call (get_or d offset 0);
        })
        (suc offset + 4)

-- The name of the method at `offset`, and the rest of the header.
unfoldable pub read_method :
    (Bytes → ℕ → ThriftMessage → Begin) → Bytes → ℕ → ThriftMessage → Read Bytes → Begin
read_method rest d offset m (whole method off) =
    rest d (offset + off) (record m { method = method })
read_method rest d offset m cut = begin_waits (record m { method = [] })
read_method rest d offset m _ = begin_failed

-- `readMessageBegin`; the sign of the first number tells the two headers apart.
unfoldable pub read_message_begin : Library → Options → Bytes → ℕ → ThriftMessage → Begin
read_message_begin lib o d offset m =
    if ltb (length (drop offset d)) 9
    then begin_waits m
    else let size = lib.ntohl (take 4 (drop offset d)) in
      if leb (2 ^ 31) size
      then read_method (end_strict lib) d (offset + 4)
          (record m { version = size / 65536 * 65536; type = size % 256 })
          (read_string lib o (drop (offset + 4) d))
      else read_method (end_old lib) d offset m (read_string lib o (drop offset d))

-- The message of a call at its end.
unfoldable pub finish_call : Options → Option ThriftIdlMethod → ThriftMessage → ThriftMessage
finish_call o none m = record m { params = format_struct o m.fields false [] }
finish_call o (some method) m = record m {
  params = format_struct o m.fields true method.params;
  service = method.service.name;
}

unfoldable pub exceptions_text : Options → Option ThriftIdlMethod → List ThriftField → Bytes
exceptions_text o none fields = format_struct o fields false []
exceptions_text o (some method) fields = format_struct o fields true method.exceptions

-- The message of a reply at its end, with its fields: the first of them counts.
unfoldable pub finish_reply :
    Options → Option ThriftIdlMethod → List ThriftField → ThriftMessage → ThriftMessage
finish_reply o method [] m = m
finish_reply o method (field ∷ fields) m =
    if field.id == 0 then record m { return_value = field.value; exceptions = [] } else record m {
      return_value = [];
      exceptions = exceptions_text o method (field ∷ fields);
      has_exception = true;
    }

unfoldable pub finish_message : Options → ThriftMessage → ThriftMessage
finish_message o m =
    let method = find_method o.idl m.method in
    if m.is_request then finish_call o method m else finish_reply o method m.fields m

module _ (lib : Library) (o : Options) (d : Bytes) where
  -- Behind the header.
  unfoldable pub after_begin : Cursor → Begin → Round
  after_begin c (begin_waits m) = waits (record c { message = m })
  after_begin c begin_failed = failed
  after_begin c (begun m offset) =
      if not m.is_request && not o.capture_reply
      then complete (record c {
        parse_offset = offset;
        message = record m { return_value = []; exceptions = [] };
      })
      else next (record c { parse_offset = offset; parse_state = field_state; message = m })

  unfoldable pub begin_at : Cursor → Round
  begin_at c = after_begin c (read_message_begin lib o d c.parse_offset c.message)

  -- `ThriftStartState`
  unfoldable pub round_start : Cursor → Round
  round_start c =
      let m = record (c.message) { start = c.parse_offset } in
      if o.transport_type == framed_transport
      then if ltb (length d) 4
        then waits (record c { message = m })
        else begin_at (record c {
          parse_offset = 4;
          message = record m { frame_size = lib.ntohl (take 4 d) };
        })
      else begin_at (record c { message = m })

  -- What `messageParser` does with the result of `readField`.
  unfoldable pub after_field : Cursor → Read ThriftField → Round
  after_field c cut = waits c
  after_field c refused = failed
  after_field c crashed = panicked
  after_field c Read.spent = spent
  after_field c (whole field off) = next (record c {
    parse_offset = c.parse_offset + off;
    message = record (c.message) { fields = c.message.fields ++ (field ∷ []) };
  })

  -- `ThriftFieldState`, with `readField`.
  unfoldable pub round_field : Cursor → Round
  round_field c = elim (drop c.parse_offset d) [
    | [] ↦ panicked
    | type ∷ rest ↦
        if type == 0
        then complete
            (record c { parse_offset = c.parse_offset + 1; message = finish_message o c.message })
        else after_field c (read_struct_field lib o (read_with lib o) d type rest)
  ]

  unfoldable pub round : ParseState → Cursor → Round
  round start_state c = round_start c
  round field_state c = round_field c

  unfoldable pub parse_loop : ℕ → Cursor → Round
  parse_loop zero c = spent
  parse_loop (suc fuel) c =
      if ltb c.parse_offset (length d)
      then elim (round c.parse_state c) [
        | next c' ↦ parse_loop fuel c'
        | waits c' ↦ waits c'
        | complete c' ↦ complete c'
        | failed ↦ failed
        | panicked ↦ panicked
        | spent ↦ spent
      ]
      else waits c

  -- `messageParser`
  unfoldable pub message_parser : Cursor → Round
  message_parser c = parse_loop (suc (length d)) c
