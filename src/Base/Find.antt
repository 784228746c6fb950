-- ===== src/Base/Find.antt =====
-- `bytes.Index` and `strings.Index`: the first place where a text holds another.
use packetbeat.Base.Tests.{◌==◌, if◌then◌else◌, Option-cases}
use packetbeat.Base.Lists.{length}
use packetbeat.Base.Text.{Bytes}
use Prim.Native.Nat.{ℕ, suc, ◌+◌, ◌≤◌}
use mathlib.Core.Path.{◌≡◌, refl}
use mathlib.Core.Logic.{inl, inr}
use mathlib.Core.Bool.{Bool, true, false, ◌&&◌}
use mathlib.Core.Option.{Option, none, some}
use mathlib.Core.List.{[], ◌∷◌, ◌++◌}
use native.Mathlib.Omega.{arith}

-- `bytes.HasPrefix(xs, sep)`
abbrev pub has_prefix : Bytes → Bytes → Bool
has_prefix [] xs = true
has_prefix (s ∷ sep) [] = false
has_prefix (s ∷ sep) (x ∷ xs) = (s == x) && has_prefix sep xs

abbrev next : Option ℕ → Option ℕ
next none = none
next (some q) = some (suc q)

-- `bytes.Index(xs, sep)`; `none` is -1.
unfoldable pub index : Bytes → Bytes → Option ℕ
index sep [] = if has_prefix sep [] then some 0 else none
index sep (x ∷ xs) =
    let rest = next (index sep xs) in if has_prefix sep (x ∷ xs) then some 0 else rest

has_prefix-append :
    (sep xs more : Bytes) → has_prefix sep xs ≡ true → has_prefix sep (xs ++ more) ≡ true
has_prefix-append [] xs more h = refl
has_prefix-append (s ∷ sep) [] more h = cc
has_prefix-append (s ∷ sep) (x ∷ xs) more h = ground (arith, has_prefix-append sep xs more)

has_prefix-le : (sep xs : Bytes) → has_prefix sep xs ≡ true → length sep ≤ length xs
has_prefix-le [] xs h = omega arith
has_prefix-le (s ∷ sep) [] h = cc
has_prefix-le (s ∷ sep) (x ∷ xs) h = ground (arith, has_prefix-le sep xs)

-- What is found lies in the text.
pub index-le : (sep xs : Bytes) (q : ℕ) → index sep xs ≡ some q → q + length sep ≤ length xs
unfolding index
index-le sep [] q h = ground (arith, has_prefix-le sep [])
index-le sep (x ∷ xs) q h = elim (Option-cases (index sep xs)) [
  | inl e ↦ ground (arith, has_prefix-le sep (x ∷ xs))
  | inr (r, e) ↦ ground (arith, has_prefix-le sep (x ∷ xs), index-le sep xs r e)
]

has_prefix-false :
    (sep xs more : Bytes)
    → length sep ≤ length xs
    → has_prefix sep xs ≡ false
    → has_prefix sep (xs ++ more) ≡ false
has_prefix-false [] xs more l h = h
has_prefix-false (s ∷ sep) [] more l h = absurd (omega arith)
has_prefix-false (s ∷ sep) (x ∷ xs) more l h = ground (arith, has_prefix-false sep xs more)

-- What is found is found at the same place when more text follows.
pub index-append :
    (sep xs more : Bytes) (q : ℕ) → index sep xs ≡ some q → index sep (xs ++ more) ≡ some q
unfolding index
index-append [] [] [] q h = h
index-append [] [] (y ∷ more) q h = h
index-append (s ∷ sep) [] more q h = cc
index-append sep (x ∷ xs) more q h = elim (Option-cases (index sep xs)) [
  | inl e ↦ ground (arith, has_prefix-append sep (x ∷ xs) more)
  | inr (r, e) ↦ ground (
    arith,
    has_prefix-append sep (x ∷ xs) more,
    index-append sep xs more r e,
    index-le sep xs r e,
    has_prefix-false sep (x ∷ xs) more,
  )
]
