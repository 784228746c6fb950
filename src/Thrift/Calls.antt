-- ===== src/Thrift/Calls.antt =====
-- protos/thrift/thrift.go, `messageParser` on the bytes of a message with either header.
use packetbeat.Base.{
  ℕ, zero, suc, ◌+◌, ◌*◌, ◌/◌, ◌%◌, ◌^◌, ◌<◌, ◌++◌, ◌≡◌, refl, sym, ap, subst, ◌∙◌, Bool, true,
  false, List, [], ◌∷◌, length, length-append, append_assoc, append-nil, take, drop, length-drop,
  get_or, ltb, leb, if◌then◌else◌, arith,
}
use packetbeat.Base.Text.{Bytes}
use packetbeat.Pgsql.Framing.{u32_bytes}
use packetbeat.Thrift.{
  is_call, begun, end_strict, end_old, read_method, read_message_begin, finish_message, after_field,
  round_field, round, parse_loop,
}
use packetbeat.Thrift.Message.{
  Library, IsLibrary, Options, ThriftField, ThriftMessage, field_state, Cursor, whole, next,
  complete,
}
use packetbeat.Thrift.Reading.{capped, read_string}
use packetbeat.Thrift.Values.{read_with}
use packetbeat.Thrift.Encoding.{
  Value, Fields, stop, field, type_of, kind, u16_bytes, encode, encode_fields, show, show_fields,
  IsValue, AreFields,
}
use packetbeat.Thrift.Steps.{
  drop-behind, u32_bytes-ntohl, string-Reads, read_struct_field-Reads, type_of-no_stop,
}
use packetbeat.Thrift.RoundTrip.{read_with-encode}

-- A message of the binary protocol, with the new or the old header.
pub record Wire : Type 0 where
  pub strict : Bool
  pub type : ℕ
  pub method : Bytes
  pub seq_id : ℕ
  pub fields : Fields

abbrev pub encode_header : Wire → Bytes
encode_header w =
    if w.strict
    then u32_bytes (2147549184 + w.type)
      ++ ((u32_bytes (length w.method) ++ w.method) ++ u32_bytes w.seq_id)
    else (u32_bytes (length w.method) ++ w.method) ++ (w.type ∷ u32_bytes w.seq_id)

abbrev pub IsWire : Library → Options → Wire → Type 0
IsWire lib o w =
    (w.type < 256)
    × (length w.method < 2147483648)
    × (w.seq_id < 4294967296)
    × AreFields lib o w.fields

-- What the header leaves of a message.
abbrev pub headed : Options → Wire → ThriftMessage → ThriftMessage
headed o w m = record m {
  version = if w.strict then 2147549184 else m.version;
  type = w.type;
  method = capped o.string_max_size (length w.method) w.method;
  seq_id = w.seq_id;
  is_request = is_call w.type;
}

-- The cursor of a message between two fields.
abbrev pub among : ℕ → ThriftMessage → Cursor
among p m = record { parse_offset = p; parse_state = field_state; message = m }

abbrev pub with_fields : List ThriftField → ThriftMessage → ThriftMessage
with_fields fields m = record m { fields = m.fields ++ fields }

get_or-drop : (q : ℕ) (d : Bytes) (t : ℕ) (rest : Bytes) → drop q d ≡ t ∷ rest → get_or d q 0 ≡ t
get_or-drop zero [] t rest e = absurd (omega (arith, ap length e))
get_or-drop zero (x ∷ d) t rest e = ap (λ z. get_or z 0 0) e
get_or-drop (suc q) [] t rest e = absurd (omega (arith, ap length e))
get_or-drop (suc q) (x ∷ d) t rest e = get_or-drop q d t rest e

module _ (lib : Library) (ok : IsLibrary lib) (o : Options) (d : Bytes) where
  round_field-stop :
      (p : ℕ) (m : ThriftMessage) (rest : Bytes)
      → drop p d ≡ 0 ∷ rest
      → round_field lib o d (among p m) ≡ complete (among (p + 1) (finish_message o m))
  unfolding round_field
  round_field-stop p m rest e = rw (round_field, e) refl

  round_field-next :
      (p id : ℕ) (v : Value) (m : ThriftMessage) (rest : Bytes)
      → IsValue lib o v
      → drop p d ≡ type_of (kind v) ∷ (u16_bytes id ++ (encode v ++ rest))
      → round_field lib o d (among p m)
        ≡ next (
            among (p + (3 + length (encode v))) (
              with_fields
                (record { type = type_of (kind v); id = id; value = show lib o v } ∷ [])
                m))
  unfolding round_field after_field
  round_field-next p id v m rest i e =
      let reads =
        read_struct_field-Reads lib ok o (read_with lib o) d (kind v) id _ _ _
          (read_with-encode lib o v rest ok i).1 in
      rw (round_field, e, type_of-no_stop (kind v), reads) refl

  module _ (fuel p : ℕ) (m : ThriftMessage) (inside : p < length d) where
    loop-next :
        (c : Cursor)
        → round_field lib o d (among p m) ≡ next c
        → parse_loop lib o d (suc fuel) (among p m) ≡ parse_loop lib o d fuel c
    unfolding parse_loop round
    loop-next c e = let t : ltb p (length d) ≡ true = ground arith in rw (parse_loop, t, e) refl

    loop-complete :
        (c : Cursor)
        → round_field lib o d (among p m) ≡ complete c
        → parse_loop lib o d (suc fuel) (among p m) ≡ complete c
    unfolding parse_loop round
    loop-complete c e = let t : ltb p (length d) ≡ true = ground arith in rw (parse_loop, t, e) refl

  complete-eq :
      {p q : ℕ} {fs gs : List ThriftField} (m : ThriftMessage)
      → p ≡ q
      → fs ≡ gs
      → complete (among p (finish_message o (record m { fields = fs })))
        ≡ complete (among q (finish_message o (record m { fields = gs })))
  complete-eq m a b = cc (a, b)

  -- The loop over the fields of a message.
  pub field_loop-Reads :
      (fs : Fields) (fuel p : ℕ) (m : ThriftMessage) (rest : Bytes)
      → AreFields lib o fs
      → drop p d ≡ encode_fields fs ++ rest
      → length d < fuel + p
      → parse_loop lib o d fuel (among p m)
        ≡ complete (
            among
              (p + length (encode_fields fs))
              (finish_message o (with_fields (show_fields lib o fs) m)))
  unfolding encode show IsValue
  field_loop-Reads stop zero p m rest i e h = absurd (omega (arith, ap length e, length-drop p d))
  field_loop-Reads (field id v fs) zero p m rest i e h =
      absurd (omega (arith, ap length e, length-drop p d))
  field_loop-Reads stop (suc fuel) p m rest i e h =
      loop-complete fuel p m (omega (arith, ap length e, length-drop p d)) _
        (round_field-stop p m rest e)
      ∙ ap (λ z. complete (among (p + 1) (finish_message o (record m { fields = z }))))
          (sym (append-nil m.fields))
  field_loop-Reads (field id v fs) (suc fuel) p m rest i e h =
      let behind = encode_fields fs ++ rest in
      let head = type_of (kind v) ∷ u16_bytes id in
      let e' : drop p d ≡ (head ++ encode v) ++ behind =
        e ∙ ap (λ z. head ++ z) (append_assoc (encode v) (encode_fields fs) rest) in
      let f : ThriftField = record { type = type_of (kind v); id = id; value = show lib o v } in
      loop-next fuel p m (omega (arith, ap length e, length-drop p d)) _
        (round_field-next p id v m behind i.1 e')
      ∙ field_loop-Reads fs fuel (p + (3 + length (encode v))) (with_fields (f ∷ []) m) rest i.2
          (ap (λ z. drop z d) (omega arith) ∙ drop-behind p d (head ++ encode v) behind e')
          (omega arith)
      ∙ complete-eq m (omega (arith, length-append (encode v) (encode_fields fs)))
          (append_assoc m.fields (f ∷ []) (show_fields lib o fs))

  end_strict-Reads :
      (q seq : ℕ) (m : ThriftMessage) (more : Bytes)
      → drop q d ≡ u32_bytes seq ++ more
      → end_strict lib d q m
        ≡ begun (record m { seq_id = seq; is_request = is_call m.type }) (q + 4)
  unfolding end_strict
  end_strict-Reads q seq m more e =
      let long : ltb (length (u32_bytes seq ++ more)) 4 ≡ false = ground arith in
      simp (end_strict, e, long, u32_bytes-ntohl lib ok o seq)

  end_old-Reads :
      (q t seq : ℕ) (m : ThriftMessage) (more : Bytes)
      → drop q d ≡ t ∷ (u32_bytes seq ++ more)
      → end_old lib d q m
        ≡ begun (record m { type = t; seq_id = seq; is_request = is_call t }) (suc q + 4)
  unfolding end_old
  end_old-Reads q t seq m more e =
      let long : ltb (length (t ∷ (u32_bytes seq ++ more))) 5 ≡ false = ground arith in
      let one_more : suc q ≡ q + 1 = omega arith in
      let behind : drop (suc q) d ≡ u32_bytes seq ++ more =
        ap (λ z. drop z d) one_more ∙ drop-behind q d (t ∷ []) _ e in
      simp (end_old, e, long, behind, get_or-drop q d t _ e, u32_bytes-ntohl lib ok o seq)

  pub strict-Reads :
      (p type seq : ℕ) (name more : Bytes) (m : ThriftMessage)
      → type < 256
      → length name < 2147483648
      → drop p d
        ≡ u32_bytes (2147549184 + type)
          ++ ((u32_bytes (length name) ++ name) ++ (u32_bytes seq ++ more))
      → read_message_begin lib o d p m
        ≡ begun
            (record m {
              version = 2147549184;
              type = type;
              method = capped o.string_max_size (length name) name;
              seq_id = seq;
              is_request = is_call type;
            })
            (p + 4 + (4 + length name) + 4)
  unfolding read_message_begin read_method
  strict-Reads p type seq name more m t n e =
      let tail = u32_bytes seq ++ more in
      let string = u32_bytes (length name) ++ name in
      let number = 2147549184 + type in
      let long : ltb (length (drop p d)) 9 ≡ false =
        subst (λ z. ltb (length z) 9 ≡ false) (sym e) (ground (arith, length-append name tail)) in
      let size : lib.ntohl (take 4 (drop p d)) ≡ number =
        ap (λ z. lib.ntohl (take 4 z)) e ∙ u32_bytes-ntohl lib ok o number in
      let sign : leb (2 ^ 31) number ≡ true = ground arith in
      let at_string : drop (p + 4) d ≡ string ++ tail =
        drop-behind p d (u32_bytes number) (string ++ tail) e in
      let reads : read_string lib o (drop (p + 4) d)
          ≡ whole (capped o.string_max_size (length name) name) (4 + length name) =
        ap (read_string lib o) at_string ∙ string-Reads lib ok o name tail n in
      let at_seq : drop (p + 4 + (4 + length name)) d ≡ tail =
        ap (λ z. drop (p + 4 + z) d) (omega arith) ∙ drop-behind (p + 4) d string tail at_string in
      let version : number / 65536 * 65536 ≡ 2147549184 = omega arith in
      let kind_is : number % 256 ≡ type = omega arith in
      simp (read_message_begin, long, size, sign, reads, read_method, version, kind_is)
        (end_strict-Reads _ seq _ more at_seq)

  pub old-Reads :
      (p type seq : ℕ) (name more : Bytes) (m : ThriftMessage)
      → length name < 2147483648
      → drop p d ≡ (u32_bytes (length name) ++ name) ++ (type ∷ (u32_bytes seq ++ more))
      → read_message_begin lib o d p m
        ≡ begun
            (record m {
              type = type;
              method = capped o.string_max_size (length name) name;
              seq_id = seq;
              is_request = is_call type;
            })
            (suc (p + (4 + length name)) + 4)
  unfolding read_message_begin read_method
  old-Reads p type seq name more m n e =
      let tail = type ∷ (u32_bytes seq ++ more) in
      let string = u32_bytes (length name) ++ name in
      let long : ltb (length (drop p d)) 9 ≡ false =
        subst (λ z. ltb (length z) 9 ≡ false) (sym e) (ground (arith, length-append name tail)) in
      let size : lib.ntohl (take 4 (drop p d)) ≡ length name =
        ap (λ z. lib.ntohl (take 4 z)) e ∙ u32_bytes-ntohl lib ok o (length name) in
      let sign : leb (2 ^ 31) (length name) ≡ false = ground arith in
      let reads : read_string lib o (drop p d)
          ≡ whole (capped o.string_max_size (length name) name) (4 + length name) =
        ap (read_string lib o) e ∙ string-Reads lib ok o name tail n in
      let at_type : drop (p + (4 + length name)) d ≡ tail =
        ap (λ z. drop (p + z) d) (omega arith) ∙ drop-behind p d string tail e in
      simp (read_message_begin, long, size, sign, reads, read_method)
        (end_old-Reads _ type seq _ more at_type)
