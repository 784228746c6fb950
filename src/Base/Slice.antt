-- ===== src/Base/Slice.antt =====
-- Go's slices of bytes with the array behind them, and their slice expressions.
use packetbeat.Base.Tests.{ltb, if◌then◌else◌}
use packetbeat.Base.Lists.{
  length, take, drop, length-append, take-append_length, drop-append_length,
}
use packetbeat.Base.Text.{Bytes}
use Prim.Native.Nat.{ℕ, ◌+◌, ◌-◌, ◌≤◌}
use mathlib.Core.Path.{◌≡◌, refl, ap, ◌∙◌}
use mathlib.Core.List.{◌++◌, append_assoc}
use mathlib.Core.Option.{Option, none, some}
use mathlib.Core.Bool.{false}
use native.Mathlib.Omega.{arith}

-- A slice of bytes, as the `data` of a stream: its bytes, and those of its array behind them, up to its capacity. A slice
-- expression with an upper bound may read them.
pub record Buffer : Type 0 where
  pub bytes : Bytes
  pub spare : Bytes

-- `d[from:to]`, or a panic.
unfoldable pub slice? : Buffer → ℕ → ℕ → Option Bytes
slice? d from to =
    if ltb to from
    then none
    else if ltb (length d.bytes + length d.spare) to
    then none
    else some (take (to - from) (drop from (d.bytes ++ d.spare)))

-- `d[from:]`, or a panic.
unfoldable pub rest? : Buffer → ℕ → Option Bytes
rest? d from = if ltb (length d.bytes) from then none else some (drop from d.bytes)

pub slice?-order : (d : Buffer) (from to : ℕ) (b : Bytes) → slice? d from to ≡ some b → from ≤ to
unfolding slice?
slice?-order d from to b e = ground arith

-- The middle of three texts.
pub slice?-middle :
    (a b c spare : Bytes)
    → slice? (record { bytes = a ++ (b ++ c); spare = spare }) (length a) (length a + length b)
      ≡ some b
unfolding slice?
slice?-middle a b c spare =
    let order : ltb (length a + length b) (length a) ≡ false = ground arith in
    let inside : ltb (length (a ++ (b ++ c)) + length spare) (length a + length b) ≡ false =
      ground (arith, length-append a (b ++ c), length-append b c) in
    let size : length a + length b - length a ≡ length b = omega arith in
    let behind : drop (length a) ((a ++ (b ++ c)) ++ spare) ≡ b ++ (c ++ spare) =
      ap (drop (length a)) (append_assoc a (b ++ c) spare)
      ∙ drop-append_length a ((b ++ c) ++ spare)
      ∙ append_assoc b c spare in
    rw (slice?, order, inside, size, behind) (ap some (take-append_length b (c ++ spare)))

pub slice?-head :
    (d : Buffer) (to : ℕ)
    → to ≤ length d.bytes
    → slice? d 0 to ≡ some (take to (d.bytes ++ d.spare))
unfolding slice?
slice?-head d to h =
    let inside : ltb (length d.bytes + length d.spare) to ≡ false = ground arith in
    let order : ltb to 0 ≡ false = ground arith in
    let size : to - 0 ≡ to = omega arith in rw (slice?, order, inside, size) refl

pub rest?-inside :
    (d : Buffer) (from : ℕ) → from ≤ length d.bytes → rest? d from ≡ some (drop from d.bytes)
unfolding rest?
rest?-inside d from h = ground arith
