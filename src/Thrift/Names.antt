-- ===== src/Thrift/Names.antt =====
-- protos/thrift/thrift_idl.go, `fieldsToArrayById`: the name that each id gets.
use packetbeat.Base.{
  ℕ, zero, suc, ◌+◌, ◌≤◌, ◌<◌, ◌≡◌, inl, inr, refl, sym, ap, subst, ◌∙◌, Bool, true, false, ◌&&◌,
  List, [], ◌∷◌, Option, none, some, length, set, length-set, get_or, ltb, ◌==◌, if◌then◌else◌,
  arith, Bool-cases,
}
use packetbeat.Base.Int.{pos, pos_part}
use packetbeat.Base.Text.{Bytes}
use packetbeat.Thrift.Message.{ParserField}
use packetbeat.Thrift.Idl.{max_id, nils, set_name, fill_names, fields_to_array_by_id}

-- The ids are not negative.
abbrev pub AreIds : List ParserField → Type 0
AreIds [] = Unit
AreIds (f ∷ fs) = (f.id ≡ pos (pos_part f.id)) × AreIds fs

-- The last of the fields with the id that has a name, or else `old`.
abbrev pub name_of : ℕ → List ParserField → Option Bytes → Option Bytes
name_of i [] old = old
name_of i (f ∷ fs) old =
    name_of i fs (if (pos_part f.id == i) && ltb 0 (length f.name) then some f.name else old)

-- Each id is below the bound.
abbrev AreBelow : ℕ → List ParserField → Type 0
AreBelow n [] = Unit
AreBelow n (f ∷ fs) = (pos_part f.id < n) × AreBelow n fs

max_id-ge : (max : ℕ) (fs : List ParserField) → max ≤ max_id max fs
unfolding max_id
max_id-ge max [] = omega arith
max_id-ge max (f ∷ fs) = elim (Bool-cases (ltb max (pos_part f.id))) [
  | inl e ↦ rw e (ground (arith, max_id-ge (pos_part f.id) fs))
  | inr e ↦ rw e (max_id-ge max fs)
]

max_id-below : (max : ℕ) (fs : List ParserField) (n : ℕ) → max_id max fs < n → AreBelow n fs
unfolding max_id
max_id-below max [] n h = tt
max_id-below max (f ∷ fs) n h =
    let next = if ltb max (pos_part f.id) then pos_part f.id else max in
    let above : pos_part f.id ≤ next = ground arith in
    (omega (arith, above, max_id-ge next fs), max_id-below next fs n h)

get_or-set :
    (xs : List (Option Bytes)) (i j : ℕ) (v : Option Bytes)
    → i < length xs
    → get_or (set xs i v) j none ≡ (if i == j then v else get_or xs j none)
get_or-set [] i j v h = absurd (omega arith)
get_or-set (x ∷ xs) zero zero v h = refl
get_or-set (x ∷ xs) zero (suc j) v h = ground arith
get_or-set (x ∷ xs) (suc i) zero v h = ground arith
get_or-set (x ∷ xs) (suc i) (suc j) v h = get_or-set xs i j v (omega arith) ∙ ground arith

-- One field, and what its id gets.
abbrev Put : ParserField → List (Option Bytes) → List (Option Bytes) → Type 0
Put f out out' =
    (length out' ≡ length out)
    × ((i : ℕ)
        → get_or out' i none ≡ (
            if (pos_part f.id == i) && ltb 0 (length f.name)
            then some f.name
            else get_or out i none))

set_name-Put :
    (f : ParserField) (out : List (Option Bytes))
    → f.id ≡ pos (pos_part f.id)
    → pos_part f.id < length out
    → (out' : List (Option Bytes)) × ((if ltb 0 (length f.name)
          then set_name f.id f.name out
          else some out)
        ≡ some out')
      × Put f out out'
unfolding set_name
set_name-Put f out p b = elim (Bool-cases (ltb 0 (length f.name))) [
  | inr e ↦ (out, rw e refl, (refl, λ i. unnamed (pos_part f.id == i) i e))
  | inl e ↦ (
    set out (pos_part f.id) (some f.name),
    rw e (ap (λ z. set_name z f.name out) p ∙ written),
    (
      length-set out (pos_part f.id) (some f.name),
      λ i. get_or-set out (pos_part f.id) i (some f.name) b ∙ named (pos_part f.id == i) i e,
    ),
  )
]
  where
    written :
        set_name (pos (pos_part f.id)) f.name out ≡ some (set out (pos_part f.id) (some f.name))
    written = let inside : ltb (pos_part f.id) (length out) ≡ true = ground arith in rw inside refl

    unnamed :
        (c : Bool) (i : ℕ)
        → ltb 0 (length f.name) ≡ false
        → get_or out i none
          ≡ (if c && ltb 0 (length f.name) then some f.name else get_or out i none)
    unnamed true i e = rw e refl
    unnamed false i e = refl

    named :
        (c : Bool) (i : ℕ)
        → ltb 0 (length f.name) ≡ true
        → (if c then some f.name else get_or out i none)
          ≡ (if c && ltb 0 (length f.name) then some f.name else get_or out i none)
    named true i e = rw e refl
    named false i e = refl

nils-length : (n : ℕ) → length (nils n) ≡ n
unfolding nils
nils-length zero = refl
nils-length (suc n) = ap suc (nils-length n)

nils-none : (n i : ℕ) → get_or (nils n) i none ≡ none
unfolding nils
nils-none zero i = ground arith
nils-none (suc n) zero = refl
nils-none (suc n) (suc i) = nils-none n i

fill_names-Puts :
    (fs : List ParserField) (out : List (Option Bytes))
    → AreIds fs
    → AreBelow (length out) fs
    → (out' : List (Option Bytes)) × (fill_names fs out ≡ some out')
      × (length out' ≡ length out)
      × ((i : ℕ) → get_or out' i none ≡ name_of i fs (get_or out i none))
unfolding fill_names
fill_names-Puts [] out p b = (out, refl, refl, λ i. refl)
fill_names-Puts (f ∷ fs) out p b =
    let (out1, e1, (size1, get1)) = set_name-Put f out p.0 b.0 in
    let (out2, e2, size2, get2) =
      fill_names-Puts fs out1 p.1 (subst (λ z. AreBelow z fs) (sym size1) b.1) in
    (out2, rw (fill_names, e1) e2, size2 ∙ size1, λ i. get2 i ∙ ap (name_of i fs) (get1 i))

-- The array of the names of a method's fields: where no id is negative, there is no panic, and each
-- id gets the name of the last field with that id that has one, and no other id gets a name; the
-- array ends behind the largest id.
pub fields_to_array_by_id-names :
    (f : ParserField) (fs : List ParserField)
    → AreIds (f ∷ fs)
    → (output : List (Option Bytes)) × (fields_to_array_by_id (f ∷ fs) ≡ some output)
      × (length output ≡ max_id 0 (f ∷ fs) + 1)
      × ((i : ℕ) → get_or output i none ≡ name_of i (f ∷ fs) none)
unfolding fields_to_array_by_id
fields_to_array_by_id-names f fs p =
    let n = max_id 0 (f ∷ fs) + 1 in
    let below = max_id-below 0 (f ∷ fs) n (omega arith) in
    let (out, e, size, get) =
      fill_names-Puts (f ∷ fs) (nils n) p
        (subst (λ z. AreBelow z (f ∷ fs)) (sym (nils-length n)) below) in
    (out, e, size ∙ nils-length n, λ i. get i ∙ ap (name_of i (f ∷ fs)) (nils-none n i))
