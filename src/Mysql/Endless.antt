-- ===== src/Mysql/Endless.antt =====
-- protos/mysql/mysql.go, `parseMysqlResponse`: the loop over the cells of a row may not end.
use packetbeat.Base.{
  ℕ, zero, suc, ◌+◌, ◌<◌, ◌≡◌, refl, List, [], ◌∷◌, Option, none, some, get_elem?, lt→ltb, ◌==◌,
  ==_iff, arith, Bool, true, false, ◌||◌, Bool-cases, Option-cases, inl, inr, subst, sym,
}
use packetbeat.Base.Text.{Bytes, codes}
use packetbeat.Mysql.Integers.{LString, past_end, incomplete, malformed, string, read_lstring}
use packetbeat.Mysql.Response.{Part, ends, breaks, stuck, read_cells, add_cell, add_length}

-- Where the loop goes on from a cell: behind it, or at 0 where the cell is incomplete.
abbrev pub next_of : Bytes → ℕ → Option ℕ → Option ℕ
next_of bytes off o = elim o [
  | none ↦ none
  | some b ↦ elim (b == 0xfb) [
    | true ↦ some (off + 1)
    | false ↦ elim (read_lstring bytes off) [
      | past_end ↦ none
      | malformed ↦ none
      | incomplete ↦ some 0
      | string text off' ↦ some off'
    ]
  ]
]

abbrev pub next_offset : Bytes → ℕ → Option ℕ
next_offset bytes off = next_of bytes off (get_elem? bytes off)

abbrev pub is_in : ℕ → List ℕ → Bool
is_in n [] = false
is_in n (m ∷ ms) = (n == m) || is_in n ms

-- From each offset of the list, which lies before the row's end, the loop goes on at one of `offsets`.
abbrev pub StaysIn : Bytes → ℕ → List ℕ → List ℕ → Type 0
StaysIn bytes stop offsets [] = Unit
StaysIn bytes stop offsets (o ∷ os) =
    (o < stop)
    × ((o' : ℕ) × (next_offset bytes o ≡ some o') × (is_in o' offsets ≡ true))
    × StaysIn bytes stop offsets os

some_inj : {a b : ℕ} → some a ≡ some b → a ≡ b
some_inj e = cc

-- What one round does with the cell, where `goes` is the rest of the loop.
module _ (off off' : ℕ) (goes : Bytes → ℕ → Part (List Bytes))
    (k : (text : Bytes) → goes text off' ≡ stuck) where
  goes_on : (text : Bytes) (o : ℕ) → some o ≡ some off' → goes text o ≡ stuck
  goes_on text o e = subst (λ x. goes text x ≡ stuck) (sym (some_inj e)) (k text)

  cell_goes_on :
      (is_null : Bool) (l : LString)
      → (elim is_null [
        | true ↦ some (off + 1)
        | false ↦ elim l [
          | past_end ↦ none
          | malformed ↦ none
          | incomplete ↦ some 0
          | string text o ↦ some o
        ]
      ])
        ≡ some off'
      → (elim is_null [
        | true ↦ goes (codes "NULL") (off + 1)
        | false ↦ elim l [
          | past_end ↦ breaks
          | malformed ↦ ends
          | incomplete ↦ goes [] 0
          | string text o ↦ goes text o
        ]
      ])
        ≡ stuck
  cell_goes_on true l e = goes_on _ _ e
  cell_goes_on false past_end e = absurd cc
  cell_goes_on false malformed e = absurd cc
  cell_goes_on false incomplete e = goes_on _ _ e
  cell_goes_on false (string text o) e = goes_on _ _ e

module _ (bytes : Bytes) (stop : ℕ) (offsets : List ℕ) where
  stays :
      (os : List ℕ) (off : ℕ)
      → StaysIn bytes stop offsets os
      → is_in off os ≡ true
      → (off < stop) × ((o' : ℕ) × (next_offset bytes off ≡ some o') × (is_in o' offsets ≡ true))
  stays [] off all p = absurd (ground arith)
  stays (o ∷ os) off (lt, next, all) p = elim (Bool-cases (off == o)) [
    | inl e ↦
        subst
          (λ x.
            (x < stop) × ((o' : ℕ) × (next_offset bytes x ≡ some o') × (is_in o' offsets ≡ true)))
          (sym ((==_iff off o).0 e)) (lt, next)
    | inr e ↦ stays os off all (subst (λ b. (b || is_in off os) ≡ true) e p)
  ]

  step :
      (fuel max off off' row_len : ℕ) (row : List Bytes)
      → next_offset bytes off ≡ some off'
      → off < stop
      → ((n : ℕ) (r : List Bytes) → read_cells fuel bytes max stop off' n r ≡ stuck)
      → read_cells (suc fuel) bytes max stop off row_len row ≡ stuck
  unfolding read_cells
  step fuel max off off' row_len row e lt k =
      rw (lt→ltb off stop lt, read_cells)
        (elim (Option-cases (get_elem? bytes off)) [
          | inl g ↦ absurd (ground (arith, g, e))
          | inr (b, g) ↦
              rw (g, read_cells)
                (cell_goes_on off off'
                  (λ text o.
                    read_cells fuel bytes max stop o (add_length max row_len text)
                      (add_cell max row_len row text))
                  (λ text. k _ _) (b == 0xfb) (read_lstring bytes off)
                  (subst (λ o. next_of bytes off o ≡ some off') g e))
        ])

  -- Where the offsets of cells lead to one another, each before the end of the row, the loop over the
  -- cells of the row does not end from any of them: it runs out of any number of rounds.
  pub read_cells_endless :
      (fuel max off row_len : ℕ) (row : List Bytes)
      → StaysIn bytes stop offsets offsets
      → is_in off offsets ≡ true
      → read_cells fuel bytes max stop off row_len row ≡ stuck
  unfolding read_cells
  read_cells_endless zero max off row_len row all p = refl
  read_cells_endless (suc fuel) max off row_len row all p =
      let (lt, (off', e, p')) = stays offsets off all p in
      step fuel max off off' row_len row e lt (λ n r. read_cells_endless fuel max off' n r all p')
