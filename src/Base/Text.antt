-- ===== src/Base/Text.antt =====
-- Go strings and byte slices as lists of bytes, with the standard library's functions on them.
use packetbeat.Base.Tests.{ltb, leb, ◌==◌, if◌then◌else◌}
use packetbeat.Base.Int.{ℤ, pos, negsuc}
use Prim.Native.Nat.{ℕ, zero, suc, ◌+◌, ◌-◌, ◌*◌, ◌/◌, ◌%◌, ◌^◌}
use Prim.Native.Char.{code}
use Prim.Native.String.{String}
use mathlib.Core.Bool.{Bool, true, false, ◌&&◌}
use mathlib.Core.Option.{Option, none, some}
use mathlib.Core.List.{List, [], ◌∷◌, ◌++◌}

abbrev pub Bytes : Type 0
Bytes = List ℕ

-- The bytes of a text literal (every literal of this development is ASCII).
abbrev pub codes : String → Bytes
codes String.[] = []
codes (String.◌∷◌ c s) = code c ∷ codes s

upper_byte : ℕ → ℕ
upper_byte c = if leb b'a' c && leb c b'z' then c - 32 else c

-- The upper case of a rune, with the number of its bytes behind the first: of an ASCII letter, and
-- of the two other runes whose upper case is in ASCII, U+0131 and U+017F. Any other byte stays.
upper_rune : ℕ → Bytes → ℕ × ℕ
unfolding upper_byte
upper_rune a (b ∷ s) =
    if a == 0xc4 && b == 0xb1
    then (b'I', 1)
    else if a == 0xc5 && b == 0xbf
    then (b'S', 1)
    else (upper_byte a, 0)
upper_rune a [] = (upper_byte a, 0)

upper_from : ℕ → Bytes → Bytes
unfolding upper_rune
upper_from k [] = []
upper_from (suc k) (c ∷ s) = upper_from k s
upper_from zero (c ∷ s) = let (d, k) = upper_rune c s in d ∷ upper_from k s

-- `strings.ToUpper`: equal to a text of ASCII exactly where Go's result is.
unfoldable pub to_upper : Bytes → Bytes
unfolding upper_byte upper_rune upper_from
to_upper s = upper_from zero s

-- `strings.Join`
unfoldable pub join : List Bytes → Bytes → Bytes
join [] sep = []
join (x ∷ []) sep = x
join (x ∷ y ∷ rest) sep = x ++ (sep ++ join (y ∷ rest) sep)

-- `strings.TrimLeft` and `strings.TrimRight`, for a set of bytes.
unfoldable pub trim_left : (ℕ → Bool) → Bytes → Bytes
trim_left p [] = []
trim_left p (c ∷ s) = let rest = trim_left p s in if p c then rest else c ∷ s

abbrev pub cons_trimmed : (ℕ → Bool) → ℕ → Bytes → Bytes
cons_trimmed p c [] = if p c then [] else c ∷ []
cons_trimmed p c (d ∷ s) = c ∷ d ∷ s

unfoldable pub trim_right : (ℕ → Bool) → Bytes → Bytes
trim_right p [] = []
trim_right p (c ∷ s) = cons_trimmed p c (trim_right p s)

-- `strings.TrimFunc`
unfoldable pub trim_by : (ℕ → Bool) → Bytes → Bytes
unfolding trim_left trim_right
trim_by p s = trim_right p (trim_left p s)

abbrev pub cons_first : ℕ → List Bytes → List Bytes
cons_first c [] = (c ∷ []) ∷ []
cons_first c (p ∷ ps) = (c ∷ p) ∷ ps

-- `strings.Split`, for a separator of one byte.
unfoldable pub split : Bytes → ℕ → List Bytes
split [] sep = [] ∷ []
split (c ∷ s) sep = let rest = split s sep in if c == sep then [] ∷ rest else cons_first c rest

-- The decimal digits of a number, behind `strconv.Itoa`; `fuel` bounds their count.
unfoldable pub digits_of : ℕ → ℕ → Bytes
digits_of zero n = []
digits_of (suc fuel) n =
    let more = digits_of fuel (n / 10) ++ ((48 + n % 10) ∷ []) in
    if ltb n 10 then (48 + n) ∷ [] else more

-- `strconv.Itoa`; an `int` of 64 bits has 19 digits at most.
unfoldable pub itoa : ℤ → Bytes
unfolding digits_of
itoa (pos n) = digits_of 20 n
itoa (negsuc n) = b'-' ∷ digits_of 20 (suc n)

is_digit : ℕ → Bool
is_digit c = leb b'0' c && leb c b'9'

-- The value of a run of decimal digits behind `acc`; `none` at any other byte.
unfoldable pub digits_value : ℕ → Bytes → Option ℕ
unfolding is_digit
digits_value acc [] = some acc
digits_value acc (c ∷ cs) =
    let rest = digits_value (acc * 10 + (c - 48)) cs in if is_digit c then rest else none

-- `strconv.ParseUint(s, 10, 64)` with the range check left to the caller: at least one digit.
unfoldable pub parse_digits : Bytes → Option ℕ
unfolding digits_value
parse_digits [] = none
parse_digits (c ∷ cs) = digits_value 0 (c ∷ cs)

-- The value with its sign, where it fits in 64 bits.
unfoldable pub signed_value : Bool → Option ℕ → Option ℤ
signed_value negative none = none
signed_value false (some n) = if ltb n (2 ^ 63) then some (pos n) else none
signed_value true (some zero) = some (pos 0)
signed_value true (some (suc n)) = if ltb n (2 ^ 63) then some (negsuc n) else none

-- `strconv.ParseInt(s, 10, 64)`; `none` is a syntax or a range error.
unfoldable pub parse_int : Bytes → Option ℤ
unfolding parse_digits signed_value
parse_int [] = none
parse_int (c ∷ cs) =
    if c == b'-'
    then signed_value true (parse_digits cs)
    else if c == b'+'
    then signed_value false (parse_digits cs)
    else signed_value false (parse_digits (c ∷ cs))
