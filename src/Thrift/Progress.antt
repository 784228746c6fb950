-- ===== src/Thrift/Progress.antt =====
-- protos/thrift/thrift.go, the rounds of `messageParser`: what each leaves, behind where it began.
use packetbeat.Base.{
  ℕ, ◌+◌, ◌-◌, ◌^◌, ◌≤◌, ◌<◌, ◌≡◌, inl, inr, refl, sym, subst, Bool, true, false, not, ◌&&◌, List,
  [], ◌∷◌, Option, none, some, length, take, drop, length-drop, ltb, leb, ◌==◌, if◌then◌else◌,
  arith, Bool-cases,
}
use packetbeat.Base.Text.{Bytes}
use packetbeat.Thrift.Message.{
  ThriftIdlMethod, Library, framed_transport, Options, ThriftField, ThriftMessage, ParseState,
  start_state, field_state, Cursor, Read, cut, refused, crashed, whole, Round, next, waits,
  complete, failed, panicked, spent,
}
use packetbeat.Thrift.Values.{read_struct_field, read_with}
use packetbeat.Thrift.Bounds.{
  EndsIn, read_string-EndsIn, read_struct_field-EndsIn, run_reader-EndsIn,
}
use packetbeat.Thrift.{
  Begin, begin_waits, begin_failed, begun, end_strict, end_old, read_method, read_message_begin,
  after_begin, begin_at, round_start, after_field, round_field, finish_message, finish_call,
  finish_reply, find_method,
}

-- Where a state may stand: a message begins at the start of the data or behind the size of its
-- frame, and a field stands behind the start of the message.
abbrev pub StandsIn : ParseState → Cursor → Type 0
StandsIn start_state c = c.parse_offset ≤ 4
StandsIn field_state c = c.message.start ≤ c.parse_offset

abbrev pub IsStanding : Bytes → Cursor → Type 0
IsStanding d c = (c.parse_offset ≤ length d) × StandsIn c.parse_state c

-- A complete message ends inside the data, behind its start.
abbrev pub IsWhole : Bytes → Cursor → Type 0
IsWhole d c =
    (0 < c.parse_offset) × (c.parse_offset ≤ length d) × (c.message.start ≤ c.parse_offset)

starts : (s : ParseState) (c : Cursor) → s ≡ start_state → c.parse_offset ≤ 4 → StandsIn s c
starts s c e h = subst (λ z. StandsIn z c) (sym e) h

module _ (lib : Library) (o : Options) (d : Bytes) where
  -- A header that is read ends behind its nine bytes, and leaves the start of the message.
  abbrev Headed : ℕ → ThriftMessage → Begin → Type 0
  Headed offset m (begin_waits m') = Unit
  Headed offset m begin_failed = Unit
  Headed offset m (begun m' offset') =
      (offset + 8 ≤ offset') × (offset' ≤ length d) × (m'.start ≡ m.start)

  end_strict-Headed :
      (offset from : ℕ) (m m0 : ThriftMessage)
      → from + 4 ≤ offset
      → m.start ≡ m0.start
      → Headed from m0 (end_strict lib d offset m)
  unfolding end_strict
  end_strict-Headed offset from m m0 h s = elim (Bool-cases (ltb (length (drop offset d)) 4)) [
    | inl e ↦ rw (end_strict, e) tt
    | inr e ↦ rw (end_strict, e) (omega arith, ground (arith, length-drop offset d), s)
  ]

  end_old-Headed :
      (offset from : ℕ) (m m0 : ThriftMessage)
      → from + 4 ≤ offset
      → m.start ≡ m0.start
      → Headed from m0 (end_old lib d offset m)
  unfolding end_old
  end_old-Headed offset from m m0 h s = elim (Bool-cases (ltb (length (drop offset d)) 5)) [
    | inl e ↦ rw (end_old, e) tt
    | inr e ↦ rw (end_old, e) (omega arith, ground (arith, length-drop offset d), s)
  ]

  read_method-Headed :
      (rest : Bytes → ℕ → ThriftMessage → Begin) (offset from : ℕ) (m m0 : ThriftMessage)
      (r : Read Bytes)
      → from ≤ offset
      → EndsIn 4 (length (drop offset d)) r
      → m.start ≡ m0.start
      → ((offset' : ℕ) (m' : ThriftMessage)
          → from + 4 ≤ offset'
          → m'.start ≡ m0.start
          → Headed from m0 (rest d offset' m'))
      → Headed from m0 (read_method rest d offset m r)
  unfolding read_method
  read_method-Headed rest offset from m m0 (whole name off) h i s k =
      k (offset + off) _ (omega (arith, i.0)) s
  read_method-Headed rest offset from m m0 cut h i s k = tt
  read_method-Headed rest offset from m m0 refused h i s k = tt
  read_method-Headed rest offset from m m0 crashed h i s k = tt
  read_method-Headed rest offset from m m0 Read.spent h i s k = tt

  read_message_begin-Headed :
      (offset : ℕ) (m : ThriftMessage) → Headed offset m (read_message_begin lib o d offset m)
  unfolding read_message_begin
  read_message_begin-Headed offset m = elim (Bool-cases (ltb (length (drop offset d)) 9)) [
    | inl e ↦ rw (read_message_begin, e) tt
    | inr e ↦ elim (Bool-cases (leb (2 ^ 31) (lib.ntohl (take 4 (drop offset d))))) [
      | inl f ↦
          rw (read_message_begin, e, f)
            (read_method-Headed (end_strict lib) (offset + 4) offset _ m _ (omega arith)
              (read_string-EndsIn lib o (drop (offset + 4) d)) refl
              λ k m' a s. end_strict-Headed k offset m' m a s)
      | inr f ↦
          rw (read_message_begin, e, f)
            (read_method-Headed (end_old lib) offset offset m m _ (omega arith)
              (read_string-EndsIn lib o (drop offset d)) refl
              λ k m' a s. end_old-Headed k offset m' m a s)
    ]
  ]

  -- What a round leaves, from the offset on.
  abbrev pub Goes : ℕ → Round → Type 0
  Goes from (next c) =
      (from < c.parse_offset)
      × (c.parse_offset ≤ length d)
      × (c.parse_state ≡ field_state)
      × (c.message.start ≤ c.parse_offset)
  Goes from (waits c) = IsStanding d c
  Goes from (complete c) = IsWhole d c
  Goes from failed = Unit
  Goes from panicked = Unit
  Goes from spent = ⊥

  after_begin-Goes :
      (c : Cursor) (b : Begin)
      → c.parse_offset ≤ 4
      → c.parse_offset ≤ length d
      → c.parse_state ≡ start_state
      → c.message.start ≤ 4
      → Headed c.parse_offset c.message b
      → Goes 7 (after_begin lib o d c b)
  unfolding after_begin
  after_begin-Goes c (begin_waits m) p l e s h = (l, starts _ _ e p)
  after_begin-Goes c begin_failed p l e s h = tt
  after_begin-Goes c (begun m k) p l e s h =
      elim (Bool-cases (not m.is_request && not o.capture_reply)) [
        | inl f ↦ rw f (omega (arith, h.0), h.1, omega (arith, h.0, h.2))
        | inr f ↦ rw f (omega (arith, h.0), h.1, refl, omega (arith, h.0, h.2))
      ]

  pub round_start-Goes :
      (c : Cursor)
      → c.parse_offset ≤ 4
      → c.parse_offset ≤ length d
      → c.parse_state ≡ start_state
      → Goes 7 (round_start lib o d c)
  unfolding round_start begin_at
  round_start-Goes c p l e = elim (Bool-cases (o.transport_type == framed_transport)) [
    | inr f ↦
        rw (round_start, f)
          (after_begin-Goes _ _ p l e p (read_message_begin-Headed c.parse_offset _))
    | inl f ↦ elim (Bool-cases (ltb (length d) 4)) [
      | inl g ↦ rw (round_start, f, g) (l, starts _ _ e p)
      | inr g ↦
          rw (round_start, f, g)
            (after_begin-Goes _ _ (omega arith) (ground arith) e p (read_message_begin-Headed 4 _))
    ]
  ]

  finish_message-start : (m : ThriftMessage) → (finish_message o m).start ≡ m.start
  unfolding finish_message finish_call finish_reply
  finish_message-start m =
      of_either m.is_request _ _ (of_call (find_method o.idl m.method))
        (of_reply (find_method o.idl m.method) m.fields)
    where
      of_either :
          (b : Bool) (x y : ThriftMessage)
          → x.start ≡ m.start
          → y.start ≡ m.start
          → (if b then x else y).start ≡ m.start
      of_either true x y p q = p
      of_either false x y p q = q

      of_call : (x : Option ThriftIdlMethod) → (finish_call o x m).start ≡ m.start
      of_call none = refl
      of_call (some x) = refl

      of_reply :
          (x : Option ThriftIdlMethod) (fs : List ThriftField)
          → (finish_reply o x fs m).start ≡ m.start
      of_reply x [] = refl
      of_reply x (f ∷ fs) = ground arith

  pub round_field-Goes :
      (c : Cursor)
      → c.message.start ≤ c.parse_offset
      → c.parse_offset < length d
      → c.parse_state ≡ field_state
      → Goes c.parse_offset (round_field lib o d c)
  unfolding round_field after_field read_with
  round_field-Goes c p l e = at (drop c.parse_offset d) (length-drop c.parse_offset d)
    where
      after :
          (r : Read ThriftField)
          → EndsIn 3 (length d - c.parse_offset) r
          → Goes c.parse_offset (after_field lib o d c r)
      after cut i = (omega arith, subst (λ z. StandsIn z c) (sym e) p)
      after refused i = tt
      after crashed i = tt
      after Read.spent i = i
      after (whole f off) i = (omega (arith, i.0), omega (arith, i.1), e, omega (arith, i.0))

      at :
          (rest : Bytes)
          → length rest ≡ length d - c.parse_offset
          → Goes c.parse_offset (elim rest [
            | [] ↦ panicked
            | type ∷ rest' ↦
                if type == 0
                then complete (record c {
                  parse_offset = c.parse_offset + 1;
                  message = finish_message o c.message;
                })
                else after_field lib o d c (read_struct_field lib o (read_with lib o) d type rest')
          ])
      at [] g = tt
      at (type ∷ rest') g = elim (Bool-cases (type == 0)) [
        | inl f ↦ rw f (omega arith, omega arith, omega (arith, finish_message-start c.message))
        | inr f ↦ rw f (
            after _ (
              subst (λ z. EndsIn 3 z (read_struct_field lib o (read_with lib o) d type rest')) g
                (read_struct_field-EndsIn lib o (read_with lib o) d
                  (λ r x h. run_reader-EndsIn lib o _ r x (omega arith)) type rest' (omega arith))))
      ]
