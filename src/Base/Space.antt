-- ===== src/Base/Space.antt =====
-- White space of Unicode in texts of UTF-8: `unicode.IsSpace`, with `strings.TrimSpace` and
-- `bytes.Fields`. A byte that begins no rune is none of them.
use packetbeat.Base.Tests.{leb, ◌==◌, if◌then◌else◌}
use packetbeat.Base.Lists.{take}
use packetbeat.Base.Text.{Bytes}
use packetbeat.Base.Scan.{is_space, fields_from}
use Prim.Native.Nat.{ℕ, zero, suc}
use mathlib.Core.Bool.{Bool, false, ◌&&◌, ◌||◌}
use mathlib.Core.List.{List, [], ◌∷◌}

-- U+0085 and U+00A0.
abbrev pub latin_space : ℕ → ℕ → Bool
latin_space a b = a == 0xc2 && (b == 0x85 || b == 0xa0)

-- U+1680, U+2000 to U+200A, U+2028, U+2029, U+202F, U+205F and U+3000.
abbrev pub wide_space : ℕ → ℕ → ℕ → Bool
wide_space a b c =
    (a == 0xe1 && (b == 0x9a && c == 0x80))
    || ((a == 0xe2
          && ((b == 0x80 && ((leb 0x80 c && leb c 0x8a) || (c == 0xa8 || (c == 0xa9 || c == 0xaf))))
              || (b == 0x81 && c == 0x9f)))
        || (a == 0xe3 && (b == 0x80 && c == 0x80)))

-- The bytes are those of one rune that is white space.
unfoldable pub is_white : Bytes → Bool
is_white (a ∷ []) = is_space a
is_white (a ∷ b ∷ []) = latin_space a b
is_white (a ∷ b ∷ c ∷ []) = wide_space a b c
is_white _ = false

-- The length of the white space that a text begins with, or 0.
unfoldable pub blank_size : Bytes → ℕ
blank_size s =
    if is_white (take 1 s)
    then 1
    else if is_white (take 2 s)
    then 2
    else if is_white (take 3 s)
    then 3
    else 0

-- `strings.TrimLeftFunc(s, unicode.IsSpace)`, behind a number of bytes.
unfoldable pub trim_start : ℕ → Bytes → Bytes
trim_start k [] = []
trim_start (suc k) (c ∷ s) = trim_start k s
trim_start zero (c ∷ s) = elim (blank_size (c ∷ s)) [ zero ↦ c ∷ s | suc k ↦ trim_start k s ]

-- `strings.TrimRightFunc(s, unicode.IsSpace)`
unfoldable pub trim_end : Bytes → Bytes
trim_end [] = []
trim_end (c ∷ s) = let rest = c ∷ trim_end s in if is_white rest then [] else rest

unfoldable pub trim_space : Bytes → Bytes
trim_space s = trim_end (trim_start zero s)

-- The text, behind a number of bytes, with one space for each white space.
unfoldable pub with_spaces : ℕ → Bytes → Bytes
with_spaces k [] = []
with_spaces (suc k) (c ∷ s) = with_spaces k s
with_spaces zero (c ∷ s) = elim (blank_size (c ∷ s)) [
  | zero ↦ c ∷ with_spaces zero s
  | suc k ↦ 32 ∷ with_spaces k s
]

-- `bytes.Fields`
unfoldable pub fields : Bytes → List Bytes
fields s = fields_from [] (with_spaces zero s)
