-- ===== src/Thrift/Headers.antt =====
-- protos/thrift/thrift.go, `readMessageBegin`: a header that comes in several segments.
use packetbeat.Base.{
  ℕ, suc, ◌+◌, ◌*◌, ◌/◌, ◌%◌, ◌^◌, ◌≤◌, ◌++◌, ◌≡◌, inl, inr, refl, sym, ap, subst, ◌∙◌, true, false,
  [], length, take, drop, drop-append_le, length-drop, ltb, leb, arith, Bool-cases,
}
use packetbeat.Base.Text.{Bytes}
use packetbeat.Thrift.Message.{Library, Options, ThriftMessage, Read, cut, refused, crashed, whole}
use packetbeat.Thrift.{
  Begin, begin_waits, begin_failed, begun, end_strict, end_old, read_method, read_message_begin,
}
use packetbeat.Thrift.Reading.{read_string}
use packetbeat.Thrift.Prefixes.{Stays, get_or-append, longer, four_bytes-append, read_string-Stays}
use packetbeat.Thrift.Bounds.{EndsIn, read_string-EndsIn}

module _ (lib : Library) (o : Options) (d e : Bytes) where
  abbrev pub all : Bytes
  all = d ++ e

  -- What has been found of a header stays, and what waits has changed the method only.
  abbrev After : ThriftMessage → Begin → Begin → Type 0
  After m b (begin_waits m') = (name : Bytes) × (m' ≡ record m { method = name })
  After m b begin_failed = b ≡ begin_failed
  After m b (begun m' k) = b ≡ begun m' k

  abbrev IsPlain : Read Bytes → Type 0
  IsPlain crashed = ⊥
  IsPlain _ = Unit

  read_string-IsPlain : (x : Bytes) → IsPlain (read_string lib o x)
  unfolding read_string
  read_string-IsPlain x = elim (Bool-cases (ltb (length x) 4)) [
    | inl f ↦ rw (read_string, f) tt
    | inr f ↦ elim (Bool-cases (leb (2 ^ 31) (lib.ntohl (take 4 x)))) [
      | inl g ↦ rw (read_string, f, g) tt
      | inr g ↦ elim (Bool-cases (ltb (length (drop 4 x)) (lib.ntohl (take 4 x)))) [
        | inl k ↦ rw (read_string, f, g, k) tt
        | inr k ↦ rw (read_string, f, g, k) tt
      ]
    ]
  ]

  read_method-After :
      (rest : Bytes → ℕ → ThriftMessage → Begin) (q : ℕ) (m : ThriftMessage) (r r' : Read Bytes)
      → q ≤ length d
      → EndsIn 4 (length (drop q d)) r
      → IsPlain r
      → Stays r r'
      → ((k : ℕ) (name : Bytes)
          → k ≤ length d
          → After m
              (rest all k (record m { method = name }))
              (rest d k (record m { method = name })))
      → After m (read_method rest all q m r') (read_method rest d q m r)
  unfolding read_method
  read_method-After rest q m cut r' h i p s k = ([], refl)
  read_method-After rest q m refused r' h i p s k = rw s refl
  read_method-After rest q m crashed r' h i p s k = absurd p
  read_method-After rest q m Read.spent r' h i p s k = absurd i
  read_method-After rest q m (whole v off) r' h i p s k =
      rw s (k (q + off) v (omega (arith, i.1, length-drop q d)))

  -- The name of the method is written in any case.
  read_method-method :
      (rest : Bytes → ℕ → ThriftMessage → Begin) (q : ℕ) (m : ThriftMessage) (name : Bytes)
      (r : Read Bytes)
      → read_method rest all q (record m { method = name }) r ≡ read_method rest all q m r
  unfolding read_method
  read_method-method rest q m name cut = refl
  read_method-method rest q m name refused = refl
  read_method-method rest q m name crashed = refl
  read_method-method rest q m name Read.spent = refl
  read_method-method rest q m name (whole v off) = refl

  -- The bytes at a place of the data, where more follow.
  pub tail_longer :
      (n q : ℕ)
      → q ≤ length d
      → ltb (length (drop q d)) n ≡ false
      → ltb (length (drop q all)) n ≡ false
  tail_longer n q h f = rw (drop-append_le q d e h) (longer e n (drop q d) f)

  end_strict-After :
      (m : ThriftMessage) (q : ℕ) (name : Bytes)
      → q ≤ length d
      → After m
          (end_strict lib all q (record m { method = name }))
          (end_strict lib d q (record m { method = name }))
  unfolding end_strict
  end_strict-After m q name h = elim (Bool-cases (ltb (length (drop q d)) 4)) [
    | inl f ↦ rw (end_strict, f) (name, refl)
    | inr f ↦
        let size = four_bytes-append e q d (ground (arith, length-drop q d)) in
        rw (end_strict, f, tail_longer 4 q h f, size) refl
  ]

  end_old-After :
      (m : ThriftMessage) (q : ℕ) (name : Bytes)
      → q ≤ length d
      → After m
          (end_old lib all q (record m { method = name }))
          (end_old lib d q (record m { method = name }))
  unfolding end_old
  end_old-After m q name h = elim (Bool-cases (ltb (length (drop q d)) 5)) [
    | inl f ↦ rw (end_old, f) (name, refl)
    | inr f ↦
        let size = four_bytes-append e (suc q) d (ground (arith, length-drop q d)) in
        let type = get_or-append q d e (ground (arith, length-drop q d)) in
        rw (end_old, f, tail_longer 5 q h f, size, type) refl
  ]

  -- A header that waits is read again as before.
  abbrev pub BeginStays : ℕ → ThriftMessage → Begin → Begin → Type 0
  BeginStays p m (begin_waits m') b =
      read_message_begin lib o all p (record m' { start = m.start }) ≡ b
  BeginStays p m begin_failed b = b ≡ begin_failed
  BeginStays p m (begun m' k) b = b ≡ begun m' k

  of_After :
      (p : ℕ) (m m1 : ThriftMessage) (b x : Begin)
      → ((name : Bytes)
          → read_message_begin lib o all p (record m1 { method = name; start = m.start }) ≡ b)
      → After m1 b x
      → BeginStays p m x b
  of_After p m m1 b (begin_waits m') again (name, same) =
      ap (λ z. read_message_begin lib o all p (record z { start = m.start })) same ∙ again name
  of_After p m m1 b begin_failed again a = a
  of_After p m m1 b (begun m' k) again a = a

  -- The reader of the name at a place of the data, where more follow.
  name-Stays :
      (q : ℕ) → q ≤ length d → Stays (read_string lib o (drop q d)) (read_string lib o (drop q all))
  name-Stays q h =
      subst (λ z. Stays (read_string lib o (drop q d)) (read_string lib o z))
        (sym (drop-append_le q d e h)) (read_string-Stays e lib o (drop q d))

  module _ (p : ℕ) (h : p ≤ length d) (long : ltb (length (drop p d)) 9 ≡ false) where
    abbrev number : ℕ
    number = lib.ntohl (take 4 (drop p d))

    abbrev strict_message : ThriftMessage → ThriftMessage
    strict_message m = record m { version = number / 65536 * 65536; type = number % 256 }

    -- The number is there, so both see the same header.
    strict_begin :
        (m : ThriftMessage)
        → leb (2 ^ 31) number ≡ true
        → (read_message_begin lib o d p m
            ≡ read_method
                (end_strict lib)
                d
                (p + 4)
                (strict_message m)
                (read_string lib o (drop (p + 4) d)))
          × (read_message_begin lib o all p m
              ≡ read_method
                  (end_strict lib)
                  all
                  (p + 4)
                  (strict_message m)
                  (read_string lib o (drop (p + 4) all)))
    unfolding read_message_begin
    strict_begin m g =
        let size = four_bytes-append e p d (ground (arith, length-drop p d)) in
        (
          simp (read_message_begin, long, g),
          simp (read_message_begin, tail_longer 9 p h long, size, g),
        )

    old_begin :
        (m : ThriftMessage)
        → leb (2 ^ 31) number ≡ false
        → (read_message_begin lib o d p m
            ≡ read_method (end_old lib) d p m (read_string lib o (drop p d)))
          × (read_message_begin lib o all p m
              ≡ read_method (end_old lib) all p m (read_string lib o (drop p all)))
    unfolding read_message_begin
    old_begin m g =
        let size = four_bytes-append e p d (ground (arith, length-drop p d)) in
        (
          simp (read_message_begin, long, g),
          simp (read_message_begin, tail_longer 9 p h long, size, g),
        )

    strict-Stays :
        (m : ThriftMessage)
        → leb (2 ^ 31) number ≡ true
        → BeginStays p m (read_message_begin lib o d p m) (read_message_begin lib o all p m)
    strict-Stays m g =
        let q : p + 4 ≤ length d = ground (arith, length-drop p d) in
        let m1 = strict_message m in
        subst (λ z. BeginStays p m z (read_message_begin lib o all p m)) (sym (strict_begin m g).0)
          (of_After p m m1 (read_message_begin lib o all p m) _
            (λ name.
              (strict_begin (record m1 { method = name }) g).1
              ∙ read_method-method (end_strict lib) (p + 4) m1 name _
              ∙ sym (strict_begin m g).1)
            (subst
              (λ z.
                After m1 z
                  (read_method (end_strict lib) d (p + 4) m1 (read_string lib o (drop (p + 4) d))))
              (sym (strict_begin m g).1)
              (read_method-After (end_strict lib) (p + 4) m1 _ _ q
                (read_string-EndsIn lib o (drop (p + 4) d)) (read_string-IsPlain (drop (p + 4) d))
                (name-Stays (p + 4) q) (λ k name l. end_strict-After m1 k name l))))

    old-Stays :
        (m : ThriftMessage)
        → leb (2 ^ 31) number ≡ false
        → BeginStays p m (read_message_begin lib o d p m) (read_message_begin lib o all p m)
    old-Stays m g =
        subst (λ z. BeginStays p m z (read_message_begin lib o all p m)) (sym (old_begin m g).0)
          (of_After p m m (read_message_begin lib o all p m) _
            (λ name.
              (old_begin (record m { method = name }) g).1
              ∙ read_method-method (end_old lib) p m name _
              ∙ sym (old_begin m g).1)
            (subst (λ z. After m z (read_method (end_old lib) d p m (read_string lib o (drop p d))))
              (sym (old_begin m g).1)
              (read_method-After (end_old lib) p m _ _ h (read_string-EndsIn lib o (drop p d))
                (read_string-IsPlain (drop p d)) (name-Stays p h)
                (λ k name l. end_old-After m k name l))))

  short-Stays :
      (p : ℕ) (m : ThriftMessage)
      → ltb (length (drop p d)) 9 ≡ true
      → BeginStays p m (read_message_begin lib o d p m) (read_message_begin lib o all p m)
  short-Stays p m f =
      subst (λ z. BeginStays p m z (read_message_begin lib o all p m)) (sym waits_at) refl
    where
      waits_at : read_message_begin lib o d p m ≡ begin_waits m
      waits_at = unfold read_message_begin in simp (read_message_begin, f)

  pub read_message_begin-Stays :
      (p : ℕ) (m : ThriftMessage)
      → p ≤ length d
      → BeginStays p m (read_message_begin lib o d p m) (read_message_begin lib o all p m)
  read_message_begin-Stays p m h = elim (Bool-cases (ltb (length (drop p d)) 9)) [
    | inl f ↦ short-Stays p m f
    | inr f ↦ elim (Bool-cases (leb (2 ^ 31) (number p h f))) [
      | inl g ↦ strict-Stays p h f m g
      | inr g ↦ old-Stays p h f m g
    ]
  ]
