-- ===== src/Thrift/Rounds.antt =====
-- protos/thrift/thrift.go, `messageParser`: a round of the parser where more data follow.
use packetbeat.Base.{
  ℕ, ◌+◌, ◌-◌, ◌≤◌, ◌++◌, ◌≡◌, inl, inr, refl, sym, ap, subst, ◌∙◌, false, not, ◌&&◌, [], ◌∷◌,
  length, drop, drop-append_le, length-drop, ◌==◌, if◌then◌else◌, arith, Bool-cases,
}
use packetbeat.Base.Text.{Bytes}
use packetbeat.Thrift.Message.{
  Library, framed_transport, Options, ThriftField, ThriftMessage, Cursor, Read, cut, refused,
  crashed, whole, Round, next, waits, complete, failed, panicked,
}
use packetbeat.Thrift.{
  Begin, begin_waits, begin_failed, begun, read_message_begin, after_begin, begin_at, round_start,
  after_field, round_field, round, finish_message,
}
use packetbeat.Thrift.Values.{read_struct_field, read_with}
use packetbeat.Thrift.Prefixes.{Stays}
use packetbeat.Thrift.Append.{read_struct_field-Stays, run_reader-Stays}
use packetbeat.Thrift.Bounds.{run_reader-EndsIn}
use packetbeat.Thrift.Calls.{among}
use packetbeat.Thrift.Headers.{BeginStays, read_message_begin-Stays}
use packetbeat.Thrift.Messages.{at_start}

module _ (lib : Library) (o : Options) (d e : Bytes) where
  -- What a round has found stays, and where it waits, a round on all the data is as before.
  abbrev pub RoundStays : Cursor → Round → Round → Type 0
  RoundStays c (next c') r = r ≡ next c'
  RoundStays c (complete c') r = r ≡ complete c'
  RoundStays c failed r = r ≡ failed
  RoundStays c (waits c') r =
      (c'.parse_offset ≡ c.parse_offset)
      × (c'.parse_state ≡ c.parse_state)
      × (round lib o (d ++ e) c.parse_state c' ≡ r)
  RoundStays c _ r = Unit

  -- The cursor's message is replaced.
  after_begin-message :
      (p : ℕ) (m m' : ThriftMessage) (b : Begin)
      → after_begin lib o (d ++ e) (at_start p m) b ≡ after_begin lib o (d ++ e) (at_start p m') b
  unfolding after_begin
  after_begin-message p m m' (begin_waits x) = refl
  after_begin-message p m m' begin_failed = refl
  after_begin-message p m m' (begun x k) = refl

  begins :
      (x : Bytes) (p : ℕ) (m : ThriftMessage)
      → (o.transport_type == framed_transport) ≡ false
      → round_start lib o x (at_start p m)
        ≡ after_begin lib o x
            (at_start p (record m { start = p }))
            (read_message_begin lib o x p (record m { start = p }))
  unfolding round_start begin_at
  begins x p m f = rw (round_start, f) refl

  of_begin :
      (p : ℕ) (m : ThriftMessage)
      → (o.transport_type == framed_transport) ≡ false
      → (x b : Begin) → BeginStays lib o d e p (record m { start = p }) x b
      → RoundStays
          (at_start p m)
          (after_begin lib o d (at_start p (record m { start = p })) x)
          (after_begin lib o (d ++ e) (at_start p (record m { start = p })) b)
  unfolding after_begin round
  of_begin p m f (begin_waits m') b s = (
    refl,
    refl,
    begins (d ++ e) p m' f
        ∙ ap (after_begin lib o (d ++ e) (at_start p (record m' { start = p }))) s
        ∙ after_begin-message p (record m' { start = p }) (record m { start = p }) b,
  )
  of_begin p m f begin_failed b s = rw s refl
  of_begin p m f (begun m' k) b s = elim (Bool-cases (not m'.is_request && not o.capture_reply)) [
    | inl t ↦ rw (s, t) refl
    | inr t ↦ rw (s, t) refl
  ]

  pub round_start-Stays :
      (p : ℕ) (m : ThriftMessage)
      → (o.transport_type == framed_transport) ≡ false
      → p ≤ length d
      → RoundStays
          (at_start p m)
          (round_start lib o d (at_start p m))
          (round_start lib o (d ++ e) (at_start p m))
  round_start-Stays p m f h =
      let m0 = record m { start = p } in
      subst (λ z. RoundStays (at_start p m) z (round_start lib o (d ++ e) (at_start p m)))
        (sym (begins d p m f))
        (subst
          (RoundStays (at_start p m)
            (after_begin lib o d (at_start p m0) (read_message_begin lib o d p m0)))
          (sym (begins (d ++ e) p m f))
          (of_begin p m f _ _ (read_message_begin-Stays lib o d e p m0 h)))

  -- The round on the bytes from the offset on.
  abbrev field_case : Bytes → ℕ → ThriftMessage → Bytes → Round
  field_case x p m [] = panicked
  field_case x p m (type ∷ rest) =
      if type == 0
      then complete (among (p + 1) (finish_message o m))
      else after_field lib o x (among p m) (read_struct_field lib o (read_with lib o) x type rest)

  round_field-case :
      (x : Bytes) (p : ℕ) (m : ThriftMessage) (rest : Bytes)
      → drop p x ≡ rest
      → round_field lib o x (among p m) ≡ field_case x p m rest
  unfolding round_field
  round_field-case x p m [] q = rw (round_field, q) refl
  round_field-case x p m (type ∷ rest) q = rw (round_field, q) refl

  after_field-Stays :
      (p : ℕ) (m : ThriftMessage) (r r' : Read ThriftField)
      → Stays r r'
      → round_field lib o (d ++ e) (among p m) ≡ after_field lib o (d ++ e) (among p m) r'
      → RoundStays
          (among p m)
          (after_field lib o d (among p m) r)
          (after_field lib o (d ++ e) (among p m) r')
  unfolding after_field round
  after_field-Stays p m cut r' s q = (refl, refl, q)
  after_field-Stays p m refused r' s q = rw s refl
  after_field-Stays p m crashed r' s q = tt
  after_field-Stays p m Read.spent r' s q = tt
  after_field-Stays p m (whole f off) r' s q = rw s refl

  field_case-Stays :
      (p : ℕ) (m : ThriftMessage) (rest : Bytes)
      → length rest ≡ length d - p
      → round_field lib o (d ++ e) (among p m) ≡ field_case (d ++ e) p m (rest ++ e)
      → RoundStays (among p m) (field_case d p m rest) (field_case (d ++ e) p m (rest ++ e))
  unfolding read_with
  field_case-Stays p m [] l q = tt
  field_case-Stays p m (type ∷ rest) l q = elim (Bool-cases (type == 0)) [
    | inl f ↦ rw f refl
    | inr f ↦ rw f (
        after_field-Stays p m _ _
          (read_struct_field-Stays e lib o (read_with lib o) (read_with lib o) d
            (λ r x z. run_reader-EndsIn lib o _ r x (omega arith))
            (λ r x z. run_reader-Stays e lib o _ _ r x (omega arith) (omega arith)) type rest
            (omega arith))
          (rw f at q))
  ]

  pub round_field-Stays :
      (p : ℕ) (m : ThriftMessage)
      → p ≤ length d
      → RoundStays
          (among p m)
          (round_field lib o d (among p m))
          (round_field lib o (d ++ e) (among p m))
  round_field-Stays p m h =
      let on_all = round_field-case (d ++ e) p m (drop p d ++ e) (drop-append_le p d e h) in
      subst (λ z. RoundStays (among p m) z (round_field lib o (d ++ e) (among p m)))
        (sym (round_field-case d p m (drop p d) refl))
        (subst (RoundStays (among p m) (field_case d p m (drop p d))) (sym on_all)
          (field_case-Stays p m (drop p d) (length-drop p d) on_all))
