-- ===== src/Thrift/Prefixes.antt =====
-- protos/thrift/thrift.go: the readers of simple values where more data follow: a whole value and an
-- error stay.
use packetbeat.Base.{
  ℕ, zero, suc, ◌+◌, ◌^◌, ◌≤◌, ◌<◌, ◌++◌, ◌≡◌, inl, inr, refl, ap, ◌∙◌, false, [], ◌∷◌, length,
  length-append, take, drop, take-append_le, drop-append_le, length-drop, get_or, ltb, leb, arith,
  Bool-cases,
}
use packetbeat.Base.Text.{Bytes}
use packetbeat.Thrift.Message.{
  Library, Options, Read, cut, refused, crashed, spent, whole, map_read, bind_read,
}
use packetbeat.Thrift.Reading.{capped, read_fixed, read_string}
use packetbeat.Thrift.Bounds.{EndsIn}

module _ {A : Type 0} where
  -- What a reader has found stays found.
  abbrev pub Stays : Read A → Read A → Type 0
  Stays (whole a off) r = r ≡ whole a off
  Stays refused r = r ≡ refused
  Stays _ r = Unit

module _ {A B : Type 0} where
  pub map_read-Stays :
      (f : A → B) (r r' : Read A) → Stays r r' → Stays (map_read f r) (map_read f r')
  map_read-Stays f cut r' h = tt
  map_read-Stays f refused r' h = ap (map_read f) h
  map_read-Stays f crashed r' h = tt
  map_read-Stays f spent r' h = tt
  map_read-Stays f (whole a off) r' h = ap (map_read f) h

  pub bind_read-Stays :
      (lo hi : ℕ) (f f' : A → ℕ → Read B) (r r' : Read A)
      → EndsIn lo hi r
      → Stays r r'
      → ((a : A) (off : ℕ) → lo ≤ off → off ≤ hi → Stays (f a off) (f' a off))
      → Stays (bind_read r f) (bind_read r' f')
  bind_read-Stays lo hi f f' cut r' i h k = tt
  bind_read-Stays lo hi f f' refused r' i h k = ap (λ z. bind_read z f') h
  bind_read-Stays lo hi f f' crashed r' i h k = tt
  bind_read-Stays lo hi f f' spent r' i h k = tt
  bind_read-Stays lo hi f f' (whole a off) r' i h k = rw h (k a off i.0 i.1)

pub get_or-append : (i : ℕ) (d e : Bytes) → i < length d → get_or (d ++ e) i 0 ≡ get_or d i 0
get_or-append i [] e h = absurd (omega arith)
get_or-append zero (x ∷ d) e h = refl
get_or-append (suc i) (x ∷ d) e h = get_or-append i d e (omega arith)

module _ (e : Bytes) where
  pub longer : (n : ℕ) (d : Bytes) → ltb (length d) n ≡ false → ltb (length (d ++ e)) n ≡ false
  longer n d h = ground (arith, length-append d e)

  pub read_fixed-Stays :
      (n : ℕ) (show : Bytes → Bytes) (d : Bytes)
      → Stays (read_fixed n show d) (read_fixed n show (d ++ e))
  unfolding read_fixed
  read_fixed-Stays n show d = elim (Bool-cases (ltb (length d) n)) [
    | inl f ↦ rw (read_fixed, f) tt
    | inr f ↦ rw (read_fixed, f, longer n d f, take-append_le n d e (ground arith)) refl
  ]

  pub four_bytes-append :
      (k : ℕ) (d : Bytes) → k + 4 ≤ length d → take 4 (drop k (d ++ e)) ≡ take 4 (drop k d)
  four_bytes-append k d h =
      ap (take 4) (drop-append_le k d e (omega arith))
      ∙ take-append_le 4 (drop k d) e (omega (arith, length-drop k d))

  capped-append :
      (max size : ℕ) (x : Bytes) → size ≤ length x → capped max size (x ++ e) ≡ capped max size x
  unfolding capped
  capped-append max size x h = elim (Bool-cases (ltb max size)) [
    | inl f ↦ rw (capped, f, take-append_le max x e (ground arith)) refl
    | inr f ↦ rw (capped, f, take-append_le size x e h) refl
  ]

  module _ (lib : Library) (o : Options) where
    pub read_string-Stays : (d : Bytes) → Stays (read_string lib o d) (read_string lib o (d ++ e))
    unfolding read_string
    read_string-Stays d = elim (Bool-cases (ltb (length d) 4)) [
      | inl f ↦ rw (read_string, f) tt
      | inr f ↦
          let size = lib.ntohl (take 4 d) in
          let same : take 4 (d ++ e) ≡ take 4 d = take-append_le 4 d e (ground arith) in
          let tail : drop 4 (d ++ e) ≡ drop 4 d ++ e = drop-append_le 4 d e (ground arith) in
          elim (Bool-cases (leb (2 ^ 31) size)) [
            | inl g ↦ rw (read_string, f, longer 4 d f, same, g) refl
            | inr g ↦ elim (Bool-cases (ltb (length (drop 4 d)) size)) [
              | inl k ↦ rw (read_string, f, g, k) tt
              | inr k ↦
                  rw
                    (
                      read_string,
                      f,
                      longer 4 d f,
                      same,
                      g,
                      tail,
                      k,
                      longer size (drop 4 d) k,
                      capped-append o.string_max_size size (drop 4 d) (ground arith),
                    )
                    refl
            ]
          ]
    ]
