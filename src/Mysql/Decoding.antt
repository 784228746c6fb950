-- ===== src/Mysql/Decoding.antt =====
-- protos/mysql/mysql.go, `read_linteger` against the protocol's encoding of integers.
use packetbeat.Base.{
  ℕ, zero, suc, ◌+◌, ◌*◌, ◌/◌, ◌%◌, ◌≤◌, ◌<◌, ◌≡◌, ◌≢◌, ◌++◌, sym, ap, subst, [], ◌∷◌, length,
  length-append, ltb, if◌then◌else◌, arith, Bool-cases, inl, inr, ◌∙◌, Option, some, none,
}
use packetbeat.Base.Text.{Bytes}
use packetbeat.Mysql.Integers.{
  LInteger, integer, byte_at, read_u24, read_u64, linteger_at, read_linteger,
}

-- The lowest bytes of a number, the lowest first.
abbrev pub low_bytes : ℕ → ℕ → Bytes
low_bytes zero v = []
low_bytes (suc n) v = v % 256 ∷ low_bytes n (v / 256)

-- The protocol's length encoded integer, for a number below 2 ^ 64.
abbrev pub encode_linteger : ℕ → Bytes
encode_linteger v =
    if ltb v 251
    then v ∷ []
    else if ltb v 65_536
    then 0xfc ∷ low_bytes 2 v
    else if ltb v 16_777_216
    then 0xfd ∷ low_bytes 3 v
    else 0xfe ∷ low_bytes 8 v

byte_at-append :
    (before rest : Bytes) (i n : ℕ)
    → n ≡ length before + i
    → byte_at (before ++ rest) n ≡ byte_at rest i
byte_at-append [] rest i n e = ap (byte_at rest) (omega arith)
byte_at-append (b ∷ before) rest i zero e = absurd (omega arith)
byte_at-append (b ∷ before) rest i (suc n) e = byte_at-append before rest i n (omega arith)

module _ (before rest : Bytes) where
  read_one :
      (c : ℕ)
      → c < 251
      → read_linteger (before ++ c ∷ rest) (length before) ≡ integer c (length before + 1)
  unfolding read_linteger linteger_at
  read_one c h =
      let e = byte_at-append before (c ∷ rest) 0 (length before) (omega arith) in
      ground (arith, e, length-append before (c ∷ rest))

  read_two :
      (a b : ℕ)
      → read_linteger (before ++ 0xfc ∷ a ∷ b ∷ rest) (length before)
        ≡ integer (a + b * 256) (length before + 3)
  unfolding read_linteger linteger_at
  read_two a b =
      let xs = 0xfc ∷ a ∷ b ∷ rest in
      rw
        (
          byte_at-append before xs 0 (length before) (omega arith),
          byte_at-append before xs 1 (length before + 1) (omega arith),
          byte_at-append before xs 2 (length before + 2) (omega arith),
        )
        (ground (arith, length-append before xs))

  read_three :
      (a b c : ℕ)
      → read_linteger (before ++ 0xfd ∷ a ∷ b ∷ c ∷ rest) (length before)
        ≡ integer (a + b * 256 + c * 65536) (length before + 4)
  unfolding read_linteger linteger_at read_u24
  read_three a b c =
      let xs = 0xfd ∷ a ∷ b ∷ c ∷ rest in
      rw
        (
          byte_at-append before xs 0 (length before) (omega arith),
          byte_at-append before xs 1 (length before + 1) (omega arith),
          byte_at-append before xs 2 (length before + 1 + 1) (omega arith),
          byte_at-append before xs 3 (length before + 1 + 2) (omega arith),
        )
        (ground (arith, length-append before xs))

  read_eight :
      (a b c d e f g h : ℕ)
      → read_linteger (before ++ 0xfe ∷ a ∷ b ∷ c ∷ d ∷ e ∷ f ∷ g ∷ h ∷ rest) (length before)
        ≡ integer
            (a
              + b * 256
              + b * 65536
              + c * 16777216
              + d * 4294967296
              + e * 1099511627776
              + f * 281474976710656
              + g * 72057594037927936)
            (length before + 9)
  unfolding read_linteger linteger_at read_u64
  read_eight a b c d e f g h =
      let xs = 0xfe ∷ a ∷ b ∷ c ∷ d ∷ e ∷ f ∷ g ∷ h ∷ rest in
      rw
        (
          byte_at-append before xs 0 (length before) (omega arith),
          byte_at-append before xs 1 (length before + 1) (omega arith),
          byte_at-append before xs 2 (length before + 2) (omega arith),
          byte_at-append before xs 3 (length before + 3) (omega arith),
          byte_at-append before xs 4 (length before + 4) (omega arith),
          byte_at-append before xs 5 (length before + 5) (omega arith),
          byte_at-append before xs 6 (length before + 6) (omega arith),
          byte_at-append before xs 7 (length before + 7) (omega arith),
        )
        (ground (arith, length-append before xs))

-- Behind a prefix, a number below 2 ^ 24 is read as it was encoded, and the offset returned is that
-- behind its bytes.
pub read_linteger_encoded :
    (v : ℕ) (before rest : Bytes)
    → v < 16_777_216
    → read_linteger (before ++ (encode_linteger v ++ rest)) (length before)
      ≡ integer v (length before + length (encode_linteger v))
read_linteger_encoded v before rest h = elim (Bool-cases (ltb v 251)) [
  | inl t ↦ rw t (read_one before rest v (ground arith))
  | inr t ↦ elim (Bool-cases (ltb v 65_536)) [
    | inl t' ↦
        rw (t, t')
          (read_two before rest (v % 256) (v / 256 % 256)
            ∙ ap (λ n. integer n (length before + 3)) (ground arith))
    | inr t' ↦ elim (Bool-cases (ltb v 16_777_216)) [
      | inl t'' ↦
          rw (t, t', t'')
            (read_three before rest (v % 256) (v / 256 % 256) (v / 256 / 256 % 256)
              ∙ ap (λ n. integer n (length before + 4)) (ground arith))
      | inr t'' ↦ absurd (ground arith)
    ]
  ]
]

-- The value of a result.
abbrev pub value_of : LInteger → Option ℕ
value_of (integer n off) = some n
value_of _ = none

some_inj : {a b : ℕ} → some a ≡ some b → a ≡ b
some_inj e = cc

digits_differ :
    (a b c d e f g : ℕ)
    → b < 256
    → c < 256
    → d < 256
    → e < 256
    → f < 256
    → g < 256
    → 0 < c + d + e + f + g
    → a
        + b * 256
        + b * 65536
        + c * 16777216
        + d * 4294967296
        + e * 1099511627776
        + f * 281474976710656
        + g * 72057594037927936
      ≢ a
        + b * 256
        + c * 65536
        + d * 16777216
        + e * 4294967296
        + f * 1099511627776
        + g * 281474976710656
digits_differ a b c d e f g hb hc hd he hf hg p q = omega arith

-- Behind a prefix, a number from 2 ^ 24 on and below 2 ^ 56 is never read as it was encoded.
read_linteger_wide :
    (v : ℕ) (before rest : Bytes)
    → 16_777_216 ≤ v
    → v < 72_057_594_037_927_936
    → value_of (read_linteger (before ++ (encode_linteger v ++ rest)) (length before)) ≢ some v
read_linteger_wide v before rest l h e =
    let b = v / 256 % 256 in
    let c = v / 256 / 256 % 256 in
    let d = v / 256 / 256 / 256 % 256 in
    let f = v / 256 / 256 / 256 / 256 % 256 in
    let g = v / 256 / 256 / 256 / 256 / 256 % 256 in
    let k = v / 256 / 256 / 256 / 256 / 256 / 256 % 256 in
    let encoded : encode_linteger v ≡ 0xfe ∷ low_bytes 8 v = ground arith in
    let last : v / 256 / 256 / 256 / 256 / 256 / 256 / 256 % 256 ≡ 0 = omega arith in
    let read = ap value_of (
      read_eight before rest (v % 256) b c d f g k
        (v / 256 / 256 / 256 / 256 / 256 / 256 / 256 % 256)) in
    let same : some (
          v % 256
          + b * 256
          + b * 65536
          + c * 16777216
          + d * 4294967296
          + f * 1099511627776
          + g * 281474976710656
          + k * 72057594037927936)
        ≡ some v =
      sym read
      ∙ subst (λ xs. value_of (read_linteger (before ++ (xs ++ rest)) (length before)) ≡ some v)
          encoded e in
    digits_differ (v % 256) b c d f g k (omega arith) (omega arith) (omega arith) (omega arith)
      (omega arith) (omega arith) (omega arith) (some_inj same ∙ omega arith)
