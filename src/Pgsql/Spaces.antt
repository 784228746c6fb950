-- ===== src/Pgsql/Spaces.antt =====
-- protos/pgsql/pgsql.go, `strings.TrimSpace` in `pgsqlQueryParser`: a text with white space around it.
use packetbeat.Base.{
  ℕ, zero, ◌<◌, ◌++◌, ◌≡◌, ◌⊎◌, inl, inr, refl, ap, ◌∙◌, true, false, List, [], ◌∷◌, append_assoc,
  length, take, leb, arith,
}
use packetbeat.Base.Text.{Bytes}
use packetbeat.Base.Scan.{is_space}
use packetbeat.Base.Space.{
  latin_space, wide_space, is_white, blank_size, trim_start, trim_end, trim_space,
}

abbrev pub AllBlank : List Bytes → Type 0
AllBlank [] = Unit
AllBlank (b ∷ bs) = (is_white b ≡ true) × AllBlank bs

abbrev pub text_of_all : List Bytes → Bytes
text_of_all [] = []
text_of_all (b ∷ bs) = b ++ text_of_all bs

-- No white space begins a text.
abbrev pub StartsVisible : Bytes → Type 0
StartsVisible s =
    (is_white (take 1 s) ≡ false) × (is_white (take 2 s) ≡ false) × (is_white (take 3 s) ≡ false)

-- No white space ends a text: no tail of it is white space.
abbrev pub EndsVisible : Bytes → Type 0
EndsVisible [] = Unit
EndsVisible (c ∷ s) = (is_white (c ∷ s) ≡ false) × EndsVisible s

-- The bytes of white space do not begin in the middle of a rune.
abbrev Begins : Bytes → Type 0
Begins [] = Unit
Begins (c ∷ s) = (leb 0x80 c ≡ false) ⊎ (leb 0xc0 c ≡ true)

latin_space-Begins : (a b : ℕ) → latin_space a b ≡ true → is_space a ≡ false
latin_space-Begins a b h = ground arith

wide_space-Begins : (a b c : ℕ) → wide_space a b c ≡ true → is_space a ≡ false
wide_space-Begins a b c h = ground arith

wide_space-latin : (a b c : ℕ) → wide_space a b c ≡ true → latin_space a b ≡ false
wide_space-latin a b c h = ground arith

trim_start-blank : (b s : Bytes) → is_white b ≡ true → trim_start zero (b ++ s) ≡ trim_start zero s
unfolding is_white blank_size trim_start
trim_start-blank [] s h = absurd (cc h)
trim_start-blank (a ∷ []) s h = rw (trim_start, blank_size, is_white, h) refl
trim_start-blank (a ∷ b ∷ []) s h =
    rw (trim_start, blank_size, is_white, latin_space-Begins a b h, h) refl
trim_start-blank (a ∷ b ∷ c ∷ []) s h =
    rw (trim_start, blank_size, is_white, wide_space-Begins a b c h, wide_space-latin a b c h, h)
      refl
trim_start-blank (a ∷ b ∷ c ∷ d ∷ r) s h = absurd (cc h)

latin_space-second : (a b : ℕ) (s : Bytes) → Begins (b ∷ s) → latin_space a b ≡ false
latin_space-second a b s (inl h) = ground arith
latin_space-second a b s (inr h) = ground arith

wide_space-second : (a b c : ℕ) (s : Bytes) → Begins (b ∷ s) → wide_space a b c ≡ false
wide_space-second a b c s (inl h) = ground arith
wide_space-second a b c s (inr h) = ground arith

wide_space-third : (a b c : ℕ) (s : Bytes) → Begins (c ∷ s) → wide_space a b c ≡ false
wide_space-third a b c s (inl h) = ground arith
wide_space-third a b c s (inr h) = ground arith

blank_size-visible :
    (q s : Bytes) → 0 < length q → StartsVisible q → Begins s → blank_size (q ++ s) ≡ 0
unfolding blank_size is_white
blank_size-visible [] s p h k = absurd (omega arith)
blank_size-visible (a ∷ []) [] p h k = rw (blank_size, is_white, h.0) refl
blank_size-visible (a ∷ []) (b ∷ []) p h k =
    rw (blank_size, is_white, h.0, latin_space-second a b [] k) refl
blank_size-visible (a ∷ []) (b ∷ c ∷ s) p h k =
    rw (blank_size, is_white, h.0, latin_space-second a b [] k, wide_space-second a b c [] k) refl
blank_size-visible (a ∷ b ∷ []) [] p h k = rw (blank_size, is_white, h.0, h.1) refl
blank_size-visible (a ∷ b ∷ []) (c ∷ s) p h k =
    rw (blank_size, is_white, h.0, h.1, wide_space-third a b c [] k) refl
blank_size-visible (a ∷ b ∷ c ∷ q) s p h k = rw (blank_size, is_white, h.0, h.1, h.2) refl

trim_start-visible :
    (q s : Bytes) → 0 < length q → StartsVisible q → Begins s → trim_start zero (q ++ s) ≡ q ++ s
unfolding trim_start
trim_start-visible [] s p h k = absurd (omega arith)
trim_start-visible (c ∷ q) s p h k = rw (trim_start, blank_size-visible (c ∷ q) s p h k) refl

trim_start-blanks :
    (bs : List Bytes) (s : Bytes)
    → AllBlank bs
    → trim_start zero (text_of_all bs ++ s) ≡ trim_start zero s
trim_start-blanks [] s h = refl
trim_start-blanks (b ∷ bs) s h =
    ap (trim_start zero) (append_assoc b (text_of_all bs) s)
    ∙ trim_start-blank b (text_of_all bs ++ s) h.0
    ∙ trim_start-blanks bs s h.1

blank-Begins : (b s : Bytes) → is_white b ≡ true → Begins (b ++ s)
unfolding is_white
blank-Begins [] s h = absurd (cc h)
blank-Begins (a ∷ []) s h = inl (ground arith)
blank-Begins (a ∷ b ∷ []) s h = inr (ground arith)
blank-Begins (a ∷ b ∷ c ∷ []) s h = inr (ground arith)
blank-Begins (a ∷ b ∷ c ∷ d ∷ r) s h = absurd (cc h)

blanks-Begins : (bs : List Bytes) → AllBlank bs → Begins (text_of_all bs)
blanks-Begins [] h = tt
blanks-Begins (b ∷ bs) h = blank-Begins b (text_of_all bs) h.0

trim_end-after : (x y : Bytes) → trim_end y ≡ [] → trim_end (x ++ y) ≡ trim_end x
unfolding trim_end
trim_end-after [] y h = h
trim_end-after (c ∷ x) y h = rw (trim_end, trim_end-after x y h) refl

latin_space-end : (a b : ℕ) → latin_space a b ≡ true → is_space b ≡ false
latin_space-end a b h = ground arith

wide_space-end : (a b c : ℕ) → wide_space a b c ≡ true → is_space c ≡ false
wide_space-end a b c h = ground arith

wide_space-latin_end : (a b c : ℕ) → wide_space a b c ≡ true → latin_space b c ≡ false
wide_space-latin_end a b c h = ground arith

trim_end-blank : (b : Bytes) → is_white b ≡ true → trim_end b ≡ []
unfolding is_white trim_end
trim_end-blank [] h = absurd (cc h)
trim_end-blank (a ∷ []) h = rw (trim_end, is_white, h) refl
trim_end-blank (a ∷ b ∷ []) h = rw (trim_end, is_white, latin_space-end a b h, h) refl
trim_end-blank (a ∷ b ∷ c ∷ []) h =
    rw (trim_end, is_white, wide_space-end a b c h, wide_space-latin_end a b c h, h) refl
trim_end-blank (a ∷ b ∷ c ∷ d ∷ r) h = absurd (cc h)

trim_end-blanks : (bs : List Bytes) → AllBlank bs → trim_end (text_of_all bs) ≡ []
unfolding trim_end
trim_end-blanks [] h = refl
trim_end-blanks (b ∷ bs) h =
    trim_end-after b (text_of_all bs) (trim_end-blanks bs h.1) ∙ trim_end-blank b h.0

trim_end-visible : (q : Bytes) → EndsVisible q → trim_end q ≡ q
unfolding trim_end
trim_end-visible [] h = refl
trim_end-visible (c ∷ q) h = rw (trim_end, trim_end-visible q h.1, h.0) refl

pub trim_space-visible :
    (before after : List Bytes) (q : Bytes)
    → AllBlank before
    → AllBlank after
    → 0 < length q
    → StartsVisible q
    → EndsVisible q
    → trim_space (text_of_all before ++ (q ++ text_of_all after)) ≡ q
unfolding trim_space
trim_space-visible before after q b a p s e =
    ap trim_end (
      trim_start-blanks before (q ++ text_of_all after) b
      ∙ trim_start-visible q (text_of_all after) p s (blanks-Begins after a))
    ∙ trim_end-after q (text_of_all after) (trim_end-blanks after a)
    ∙ trim_end-visible q e
