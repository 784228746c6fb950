-- ===== src/Pgsql/Progress.antt =====
-- protos/pgsql/pgsql.go: the readers of fields, rows and errors move the offset forward.
use packetbeat.Base.{
  ℕ, zero, suc, ◌+◌, ◌*◌, ◌%◌, ◌≤◌, ◌<◌, ◌++◌, ◌≡◌, inl, inr, refl, true, false, List, [], ◌∷◌,
  Option, none, some, length, ltb, drop, length-drop, arith, Option-cases, Bool-cases, ◌==◌, ap,
}
use packetbeat.Base.Text.{Bytes}
use packetbeat.Base.Slice.{Buffer, rest?}
use packetbeat.Pgsql.Message.{
  Common, ParseState, start_state, get_data_state, PgsqlMessage, Cursor, Round, next, waits,
  complete, panicked, spent,
}
use packetbeat.Pgsql.Reading.{
  FieldsRead, RowRead, set_error_field, read_u16, text_at, read_field, fields_loop, fields_parser,
  read_column, columns_loop, rows_parser, error_loop,
}

-- 1 where the packets are commands, and not rows.
abbrev pub outside_rows : ParseState → ℕ
outside_rows start_state = 1
outside_rows get_data_state = 0

-- A measure that grows in each round.
abbrev pub place : Cursor → ℕ
place c = 2 * c.parse_offset + outside_rows c.parse_state

-- A complete message lies inside the data, ends at the offset, and is not empty.
abbrev pub IsCut : Buffer → Cursor → Type 0
IsCut d c =
    (c.message.start < c.message.end)
    × (c.message.end ≡ c.parse_offset)
    × (c.message.end ≤ length d.bytes)

-- The message starts at or before the offset.
abbrev pub IsBehind : Cursor → Type 0
IsBehind c = c.message.start ≤ c.parse_offset

abbrev pub Goes : Buffer → ℕ → Round → Type 0
Goes d p (next c) = IsBehind c × (p < place c)
Goes d p (waits c) = IsBehind c
Goes d p (complete c) = IsCut d c
Goes d p panicked = Unit
Goes d p spent = ⊥

module _ (lib : Common) (d : Buffer) where
  -- The loops over fields and columns only move forward.
  fields_loop-le :
      (n : ℕ) (r r' : FieldsRead) → fields_loop lib d n r ≡ some r' → r.offset ≤ r'.offset
  unfolding fields_loop read_field
  fields_loop-le zero r r' e = ground arith
  fields_loop-le (suc n) r r' e = elim (Option-cases (text_at lib d r.offset)) [
    | inl t ↦ ground (arith, t)
    | inr (name, t) ↦ elim (Option-cases (read_u16 lib d (r.offset + length name + 17))) [
      | inl u ↦ ground (arith, t, u)
      | inr (f, u) ↦ ground (
        arith,
        t,
        u,
        fields_loop-le n
            (record {
              offset = r.offset + length name + 19;
              names = r.names ++ (name ∷ []);
              formats = r.formats ++ (f % 256 ∷ []);
            })
            r',
      )
    ]
  ]

  pub fields_parser-le :
      (c c' : Cursor)
      → fields_parser lib d c ≡ some c'
      → (c.parse_offset + 2 ≤ c'.parse_offset) × (c'.message.start ≡ c.message.start)
  unfolding fields_parser
  fields_parser-le c c' e = elim (Option-cases (read_u16 lib d c.parse_offset)) [
    | inl t ↦ ground (arith, t)
    | inr (n, t) ↦
        let r : FieldsRead = record { offset = c.parse_offset + 2; names = []; formats = [] } in
        elim (Option-cases (fields_loop lib d n r)) [
          | inl u ↦ ground (arith, t, u)
          | inr (r', u) ↦ ground (arith, t, u, fields_loop-le n r r' u)
        ]
  ]

  columns_loop-le :
      (max : ℕ) (formats : List ℕ) (n i : ℕ) (r r' : RowRead)
      → columns_loop lib d max formats n i r ≡ some r'
      → r.offset ≤ r'.offset
  unfolding columns_loop
  columns_loop-le max formats zero i r r' e = ground arith
  columns_loop-le max formats (suc n) i r r' e =
      elim (Option-cases (read_column lib d max formats i r)) [
        | inl t ↦ ground (arith, t)
        | inr (s, t) ↦ ground (
          arith,
          t,
          columns_loop-le max formats n (i + 1) s r',
          read_column-le max formats i r s t,
        )
      ]
    where
      read_column-le :
          (max : ℕ) (formats : List ℕ) (i : ℕ) (r s : RowRead)
          → read_column lib d max formats i r ≡ some s
          → r.offset ≤ s.offset
      read_column-le max formats i r s e = unfold read_column in ground arith

  pub rows_parser-le :
      (max max_rows : ℕ) (c c' : Cursor)
      → rows_parser lib d max max_rows c ≡ some c'
      → (c.parse_offset + 2 ≤ c'.parse_offset)
        × (c'.message.start ≡ c.message.start)
        × (c'.parse_state ≡ c.parse_state)
  unfolding rows_parser
  rows_parser-le max max_rows c c' e = elim (Option-cases (read_u16 lib d c.parse_offset)) [
    | inl t ↦ ground (arith, t)
    | inr (n, t) ↦
        let r : RowRead = record { offset = c.parse_offset + 2; row = []; row_len = 0 } in
        elim (Option-cases (columns_loop lib d max c.message.fields_format n 0 r)) [
          | inl u ↦ ground (arith, t, u)
          | inr (r', u) ↦
              ground (arith, t, u, columns_loop-le max c.message.fields_format n 0 r r' u)
        ]
  ]

  -- The errors end inside the data.
  abbrev pub EndsInside : Cursor → Round → Type 0
  EndsInside c (next c') =
      (c.parse_offset ≤ c'.parse_offset)
      × (c'.parse_offset ≤ length d.bytes)
      × (c'.message.start ≡ c.message.start)
  EndsInside c (waits c') = ⊥
  EndsInside c (complete c') = ⊥
  EndsInside c panicked = Unit
  EndsInside c spent = ⊥

  EndsInside-mono :
      (a b : Cursor) (r : Round)
      → a.parse_offset ≤ b.parse_offset
      → b.message.start ≡ a.message.start
      → EndsInside b r
      → EndsInside a r
  EndsInside-mono a b (next c) h k e = ground arith
  EndsInside-mono a b (waits c) h k e = e
  EndsInside-mono a b (complete c) h k e = e
  EndsInside-mono a b panicked h k e = tt
  EndsInside-mono a b spent h k e = e

  rest-length : (from : ℕ) (b : Bytes) → rest? d from ≡ some b → from + length b ≡ length d.bytes
  unfolding rest?
  rest-length from b e = elim (Bool-cases (ltb (length d.bytes) from)) [
    | inl t ↦ ground (arith, t)
    | inr t ↦
        let is : drop from d.bytes ≡ b = ground (arith, t) in
        ground (arith, t, length-drop from d.bytes, ap length is)
  ]

  set_error_field-start :
      (typ : ℕ) (v : Bytes) (m : PgsqlMessage) → (set_error_field typ v m).start ≡ m.start
  unfolding set_error_field
  set_error_field-start typ v m = ground arith

  pub error_loop-EndsInside :
      (fuel : ℕ) (c : Cursor)
      → 0 < fuel
      → length d.bytes < fuel + c.parse_offset
      → EndsInside c (error_loop lib d fuel c)
  unfolding error_loop
  error_loop-EndsInside zero c z f = absurd (omega arith)
  error_loop-EndsInside (suc fuel) c z f =
      go (rest? d c.parse_offset) (rest-length c.parse_offset)
        (λ c' l. error_loop-EndsInside fuel c' (omega arith) (omega arith))
    where
      go :
          (o : Option Bytes)
          → ((b : Bytes) → o ≡ some b → c.parse_offset + length b ≡ length d.bytes)
          → ((c' : Cursor)
              → (c.parse_offset + 2 ≤ c'.parse_offset) × (c.parse_offset < length d.bytes)
              → EndsInside c' (error_loop lib d fuel c'))
          → EndsInside c (elim o [
            | none ↦ panicked
            | some [] ↦ next c
            | some (typ ∷ _) ↦ elim (typ == 0) [
              | true ↦ next (record c { parse_offset = c.parse_offset + 1 })
              | false ↦ elim (text_at lib d (c.parse_offset + 1)) [
                | none ↦ panicked
                | some v ↦ error_loop lib d fuel (record c {
                  parse_offset = c.parse_offset + 1 + length v + 1;
                  message = set_error_field typ v c.message;
                })
              ]
            ]
          ])
      go none l k = tt
      go (some []) l k = omega (arith, l [] refl)
      go (some (typ ∷ b)) l k = elim (Bool-cases (typ == 0)) [
        | inl t ↦ rw t (omega (arith, l (typ ∷ b) refl))
        | inr t ↦ rw t (elim (Option-cases (text_at lib d (c.parse_offset + 1))) [
          | inl u ↦ rw u tt
          | inr (v, u) ↦
              let c' : Cursor = record c {
                parse_offset = c.parse_offset + 1 + length v + 1;
                message = set_error_field typ v c.message;
              } in
              rw u (
                EndsInside-mono c c' _ (omega arith) (set_error_field-start typ v c.message)
                  (k c' (omega arith, omega (arith, l (typ ∷ b) refl))))
        ])
      ]
