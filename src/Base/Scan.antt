-- ===== src/Base/Scan.antt =====
-- More of the standard library on texts: case, fields, and the numbers that scanners read.
use packetbeat.Base.Tests.{ltb, leb, ◌==◌, if◌then◌else◌}
use packetbeat.Base.Int.{ℤ, pos, negsuc}
use packetbeat.Base.Text.{Bytes, parse_digits}
use Prim.Native.Nat.{ℕ, zero, suc, ◌+◌, ◌-◌, ◌*◌, ◌^◌}
use mathlib.Core.Bool.{Bool, true, false, ◌&&◌, ◌||◌}
use mathlib.Core.Option.{Option, none, some}
use mathlib.Core.List.{List, [], ◌∷◌, ◌++◌}

lower_byte : ℕ → ℕ
lower_byte c = if leb b'A' c && leb c b'Z' then c + 32 else c

-- The lower case of a rune, with the number of its bytes behind the first: of an ASCII letter, and
-- of the two other runes whose lower case is in ASCII, U+0130 and U+212A. Any other byte stays.
lower_rune : ℕ → Bytes → ℕ × ℕ
unfolding lower_byte
lower_rune a (b ∷ c ∷ s) =
    if a == 0xc4 && b == 0xb0
    then (b'i', 1)
    else if a == 0xe2 && (b == 0x84 && c == 0xaa)
    then (b'k', 2)
    else (lower_byte a, 0)
lower_rune a (b ∷ []) = if a == 0xc4 && b == 0xb0 then (b'i', 1) else (lower_byte a, 0)
lower_rune a [] = (lower_byte a, 0)

lower_from : ℕ → Bytes → Bytes
unfolding lower_rune
lower_from k [] = []
lower_from (suc k) (c ∷ s) = lower_from k s
lower_from zero (c ∷ s) = let (d, k) = lower_rune c s in d ∷ lower_from k s

-- `strings.ToLower`: equal to a text of ASCII exactly where Go's result is.
unfoldable pub to_lower : Bytes → Bytes
unfolding lower_byte lower_rune lower_from
to_lower s = lower_from zero s

-- The ASCII white space of `unicode.IsSpace`.
abbrev pub is_space : ℕ → Bool
is_space c = c == 32 || leb 9 c && leb c 13

abbrev close_field : Bytes → List Bytes → List Bytes
close_field [] fs = fs
close_field (c ∷ f) fs = (c ∷ f) ∷ fs

-- The loop of `bytes.Fields`, on ASCII white space, with the field that is being read.
unfoldable pub fields_from : Bytes → Bytes → List Bytes
fields_from field [] = close_field field []
fields_from field (c ∷ s) =
    let closed = close_field field (fields_from [] s) in
    let longer = fields_from (field ++ (c ∷ [])) s in if is_space c then closed else longer

-- `bytes.LastIndex(s, sep)`, for one byte; `none` is -1.
unfoldable pub last_index : ℕ → Bytes → Option ℕ
last_index sep [] = none
last_index sep (c ∷ s) = elim (last_index sep s) [
  | some i ↦ some (suc i)
  | none ↦ if c == sep then some 0 else none
]

-- The number that `strconv.Atoi` returns: on a syntax error 0, and out of range the nearest one.
unfoldable pub clamped : Bool → Option ℕ → ℤ
clamped negative none = pos 0
clamped false (some n) = if ltb n (2 ^ 63) then pos n else pos (2 ^ 63 - 1)
clamped true (some zero) = pos 0
clamped true (some (suc n)) = if ltb n (2 ^ 63) then negsuc n else negsuc (2 ^ 63 - 1)

unfoldable pub atoi : Bytes → ℤ
unfolding clamped
atoi [] = pos 0
atoi (c ∷ s) =
    if c == b'-'
    then clamped true (parse_digits s)
    else if c == b'+'
    then clamped false (parse_digits s)
    else clamped false (parse_digits (c ∷ s))

-- The value of a hexadecimal digit.
unfoldable pub hex_digit : ℕ → Option ℕ
hex_digit c =
    if leb b'0' c && leb c b'9'
    then some (c - 48)
    else if leb b'a' c && leb c b'f'
    then some (c - 87)
    else if leb b'A' c && leb c b'F'
    then some (c - 55)
    else none

-- The hexadecimal digits that a text begins with, behind some others.
unfoldable pub hex_value : ℕ → Bytes → ℕ
unfolding hex_digit
hex_value acc [] = acc
hex_value acc (c ∷ s) = elim (hex_digit c) [ none ↦ acc | some v ↦ hex_value (acc * 16 + v) s ]

unfoldable pub hex_number : Bytes → Option ℕ
unfolding hex_value
hex_number [] = none
hex_number (c ∷ s) = elim (hex_digit c) [ none ↦ none | some v ↦ some (hex_value v s) ]

-- The number with its sign, where it fits in 64 bits.
unfoldable pub in_range : Bool → Option ℕ → Option ℤ
in_range negative none = none
in_range false (some n) = if ltb n (2 ^ 63) then some (pos n) else none
in_range true (some zero) = some (pos 0)
in_range true (some (suc n)) = if ltb n (2 ^ 63) then some (negsuc n) else none

-- White space before a number; a line feed is an error.
unfoldable pub skip_blank : Bytes → Bytes
skip_blank [] = []
skip_blank (c ∷ s) =
    let rest = skip_blank s in if is_space c && not_line_feed c then rest else c ∷ s
  where
    not_line_feed : ℕ → Bool
    not_line_feed c = if c == 10 then false else true

unfoldable pub signed_hex : Bytes → Option ℤ
unfolding in_range hex_number
signed_hex [] = none
signed_hex (c ∷ s) =
    if c == b'-'
    then in_range true (hex_number s)
    else if c == b'+'
    then in_range false (hex_number s)
    else in_range false (hex_number (c ∷ s))

-- `fmt.Sscanf(s, "%x", &n)`, for an `int`; `none` is an error.
unfoldable pub scan_hex : Bytes → Option ℤ
unfolding skip_blank signed_hex
scan_hex s = signed_hex (skip_blank s)
