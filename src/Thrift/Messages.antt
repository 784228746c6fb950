-- ===== src/Thrift/Messages.antt =====
-- protos/thrift/thrift.go, `messageParser` on the bytes of a whole message, by either transport.
use packetbeat.Base.{
  ℕ, ◌+◌, ◌<◌, ◌++◌, ◌≡◌, inl, inr, refl, ap, ◌∙◌, Bool, true, false, not, ◌&&◌, ◌∷◌, length,
  length-append, append_assoc, take, drop, length-drop, ltb, ◌==◌, arith, Bool-cases,
}
use packetbeat.Base.Text.{Bytes}
use packetbeat.Pgsql.Framing.{u32_bytes}
use packetbeat.Thrift.{
  is_call, begun, read_message_begin, finish_message, after_begin, begin_at, round_start, round,
  parse_loop, message_parser,
}
use packetbeat.Thrift.Message.{
  Library, IsLibrary, framed_transport, Options, ThriftMessage, new_message, start_state, Cursor,
  next, complete,
}
use packetbeat.Thrift.Encoding.{encode_fields, show_fields}
use packetbeat.Thrift.Steps.{drop-behind, u32_bytes-ntohl}
use packetbeat.Thrift.Calls.{
  Wire, encode_header, IsWire, headed, among, with_fields, field_loop-Reads, strict-Reads,
  old-Reads,
}

-- The bytes of a message, with the size of its frame before it where the transport is framed.
abbrev pub encode_message : Bool → ℕ → Wire → Bytes
encode_message true frame w = u32_bytes frame ++ (encode_header w ++ encode_fields w.fields)
encode_message false frame w = encode_header w ++ encode_fields w.fields

-- The message when its header begins.
abbrev pub started : Bool → ℕ → ℕ → ThriftMessage
started true frame ts = record (new_message ts) { frame_size = frame }
started false frame ts = new_message ts

abbrev pub at_start : ℕ → ThriftMessage → Cursor
at_start p m = record { parse_offset = p; parse_state = start_state; message = m }

encode_header-long : (w : Wire) → 8 < length (encode_header w)
encode_header-long w = elim (Bool-cases w.strict) [
  | inl s ↦ rw s (omega (arith, length-append w.method (u32_bytes w.seq_id)))
  | inr s ↦ rw s (omega (arith, length-append w.method (w.type ∷ u32_bytes w.seq_id)))
]

begun-eq : (m : ThriftMessage) {p q : ℕ} → p ≡ q → begun m p ≡ begun m q
begun-eq m e = ap (begun m) e

complete_at : (m : ThriftMessage) {p q : ℕ} → p ≡ q → complete (among p m) ≡ complete (among q m)
complete_at m e = ap (λ z. complete (among z m)) e

module _ (lib : Library) (ok : IsLibrary lib) (o : Options) (d rest : Bytes) where
  header-Reads :
      (s : Bool) (p : ℕ) (w : Wire) (m : ThriftMessage)
      → w.strict ≡ s
      → IsWire lib o w
      → drop p d ≡ encode_header w ++ rest
      → read_message_begin lib o d p m ≡ begun (headed o w m) (p + length (encode_header w))
  header-Reads true p w m s i e =
      let e' : drop p d
          ≡ u32_bytes (2147549184 + w.type)
            ++ ((u32_bytes (length w.method) ++ w.method) ++ (u32_bytes w.seq_id ++ rest)) =
        e
        ∙ rw s (
            ap (λ z. u32_bytes (2147549184 + w.type) ++ z)
              (append_assoc (u32_bytes (length w.method) ++ w.method) (u32_bytes w.seq_id) rest)) in
      strict-Reads lib ok o d p w.type w.seq_id w.method rest m i.0 i.1 e'
      ∙ simp s (begun-eq _ (omega (arith, length-append w.method (u32_bytes w.seq_id))))
  header-Reads false p w m s i e =
      let e' : drop p d
          ≡ (u32_bytes (length w.method) ++ w.method) ++ (w.type ∷ (u32_bytes w.seq_id ++ rest)) =
        e
        ∙ rw s (
            append_assoc (u32_bytes (length w.method) ++ w.method) (w.type ∷ u32_bytes w.seq_id)
              rest) in
      old-Reads lib ok o d p w.type w.seq_id w.method rest m i.1 e'
      ∙ simp s (begun-eq _ (omega (arith, length-append w.method (w.type ∷ u32_bytes w.seq_id))))

  begin_at-next :
      (p : ℕ) (w : Wire) (m : ThriftMessage)
      → IsWire lib o w
      → (not (is_call w.type) && not o.capture_reply) ≡ false
      → drop p d ≡ encode_header w ++ rest
      → begin_at lib o d (at_start p m) ≡ next (among (p + length (encode_header w)) (headed o w m))
  unfolding begin_at after_begin
  begin_at-next p w m i k e = simp (begin_at, header-Reads w.strict p w m refl i e, after_begin, k)

  -- The first round, and the fields behind it.
  message-Reads :
      (p : ℕ) (w : Wire) (m m0 : ThriftMessage)
      → IsWire lib o w
      → drop p d ≡ encode_header w ++ (encode_fields w.fields ++ rest)
      → round_start lib o d (at_start 0 m0)
        ≡ next (among (p + length (encode_header w)) (headed o w m))
      → message_parser lib o d (at_start 0 m0)
        ≡ complete (
            among
              (p + length (encode_header w) + length (encode_fields w.fields))
              (finish_message o (with_fields (show_fields lib o w.fields) (headed o w m))))
  unfolding message_parser parse_loop round
  message-Reads p w m m0 i e r =
      let far = encode_header-long w in
      let t : ltb 0 (length d) ≡ true = ground (
        arith,
        ap length e,
        length-drop p d,
        length-append (encode_header w) (encode_fields w.fields ++ rest),
        far,
      ) in
      rw (message_parser, parse_loop, t, r)
        (field_loop-Reads lib ok o d w.fields (length d) _ _ rest i.3
          (drop-behind p d (encode_header w) (encode_fields w.fields ++ rest) e)
          (omega (arith, far)))

-- A message with either header, by either transport, whatever follows it: where it is a call, or
-- replies are captured, it is read as one complete message to its end, with its type, sequence id,
-- fields and, up to the longest string, method.
pub message_parser-encode :
    (lib : Library) (o : Options) (framed : Bool) (w : Wire) (frame ts : ℕ) (rest : Bytes)
    → IsLibrary lib
    → IsWire lib o w
    → (o.transport_type == framed_transport) ≡ framed
    → (not (is_call w.type) && not o.capture_reply) ≡ false
    → message_parser lib o (encode_message framed frame w ++ rest) (at_start 0 (new_message ts))
      ≡ complete (
          among (length (encode_message framed frame w)) (
            finish_message o
              (with_fields (show_fields lib o w.fields) (headed o w (started framed frame ts)))))
unfolding round_start
message_parser-encode lib o false w frame ts rest ok i f k =
    let d = encode_message false frame w ++ rest in
    let e : d ≡ encode_header w ++ (encode_fields w.fields ++ rest) =
      append_assoc (encode_header w) (encode_fields w.fields) rest in
    let r : round_start lib o d (at_start 0 (new_message ts))
        ≡ next (among (0 + length (encode_header w)) (headed o w (new_message ts))) =
      rw (round_start, f) (begin_at-next lib ok o d _ 0 w (new_message ts) i k e) in
    message-Reads lib ok o d rest 0 w (new_message ts) (new_message ts) i e r
    ∙ complete_at _ (omega (arith, length-append (encode_header w) (encode_fields w.fields)))
message_parser-encode lib o true w frame ts rest ok i f k =
    let d = encode_message true frame w ++ rest in
    let e : drop 4 d ≡ encode_header w ++ (encode_fields w.fields ++ rest) =
      append_assoc (encode_header w) (encode_fields w.fields) rest in
    let long : ltb (length d) 4 ≡ false = ground arith in
    let size : lib.ntohl (take 4 d) ≡ frame = u32_bytes-ntohl lib ok o frame in
    let m = record (new_message ts) { frame_size = frame } in
    let r : round_start lib o d (at_start 0 (new_message ts))
        ≡ next (among (4 + length (encode_header w)) (headed o w m)) =
      rw (round_start, f, long, size) (begin_at-next lib ok o d _ 4 w m i k e) in
    message-Reads lib ok o d rest 4 w m (new_message ts) i e r
    ∙ complete_at _ (omega (arith, length-append (encode_header w) (encode_fields w.fields)))
