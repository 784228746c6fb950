-- ===== src/Base/Int.antt =====
-- Go's signed integers as integers over the native numbers, under the library's names.
use packetbeat.Base.Tests.{ltb, leb, if◌then◌else◌}
use Prim.Native.Nat.{ℕ, zero, suc, ◌+◌, ◌-◌, ◌^◌}
use mathlib.Core.Bool.{Bool}

-- `negsuc n` is -(n + 1).
pub data ℤ : Type 0 where
  pos : ℕ → ℤ
  negsuc : ℕ → ℤ

abbrev pub pos_part : ℤ → ℕ
pos_part (pos n) = n
pos_part (negsuc n) = 0

abbrev pub neg_part : ℤ → ℕ
neg_part (pos n) = 0
neg_part (negsuc n) = suc n

-- a - b, as an integer.
abbrev pub sub_ℕ : ℕ → ℕ → ℤ
sub_ℕ a b = if leb b a then pos (a - b) else negsuc (b - a - 1)

-- -n
abbrev pub neg : ℕ → ℤ
neg zero = pos 0
neg (suc n) = negsuc n

infixl 60 ◌+ℤ◌
abbrev pub ◌+ℤ◌ : ℤ → ℤ → ℤ
pos a +ℤ pos b = pos (a + b)
pos a +ℤ negsuc b = sub_ℕ a (suc b)
negsuc a +ℤ pos b = sub_ℕ b (suc a)
negsuc a +ℤ negsuc b = negsuc (suc (a + b))

-- `0 < a`
abbrev pub is_positive : ℤ → Bool
is_positive a = ltb 0 (pos_part a)

-- The sum of two values of 64 bits, as an `int64`.
unfoldable pub int64 : ℤ → ℤ
int64 (pos n) = if ltb n (2 ^ 63) then pos n else neg (2 ^ 64 - n)
int64 (negsuc n) = if ltb n (2 ^ 63) then negsuc n else pos (2 ^ 64 - suc n)
