-- ===== src/Thrift/Bounds.antt =====
-- protos/thrift/thrift.go: how far the readers read. Each value takes a byte at least and ends
-- inside its data, so the fuel of the readers is enough.
use packetbeat.Base.{
  ℕ, zero, suc, ◌+◌, ◌-◌, ◌^◌, ◌≤◌, ◌<◌, ◌++◌, ◌≡◌, inl, inr, List, [], ◌∷◌, length, take, drop,
  get_or, length-drop, ltb, leb, ◌==◌, arith, Bool-cases, Option-cases, if◌then◌else◌,
}
use packetbeat.Base.Text.{Bytes}
use packetbeat.Thrift.Message.{
  Library, Options, ThriftField, Read, cut, refused, crashed, spent, whole, map_read, bind_read,
  ThriftFieldReader, bool_reader, byte_reader, double_reader, i16_reader, i32_reader, i64_reader,
  string_reader, list_reader, set_reader, map_reader, struct_reader,
}
use packetbeat.Thrift.Reading.{read_fixed, read_string, read_and_quote_string}
use packetbeat.Thrift.Values.{
  func_readers_by_type, list_loop, read_list_or_set, read_entry, map_loop, read_map,
  read_struct_field, struct_loop, read_struct, run_reader,
}

module _ {A : Type 0} where
  -- A whole value ends between the two places, and the fuel was enough.
  abbrev pub EndsIn : ℕ → ℕ → Read A → Type 0
  EndsIn lo hi (whole a off) = (lo ≤ off) × (off ≤ hi)
  EndsIn lo hi spent = ⊥
  EndsIn lo hi _ = Unit

module _ {A B : Type 0} where
  pub map_read-EndsIn :
      (f : A → B) (lo hi : ℕ) (r : Read A) → EndsIn lo hi r → EndsIn lo hi (map_read f r)
  map_read-EndsIn f lo hi cut h = tt
  map_read-EndsIn f lo hi refused h = tt
  map_read-EndsIn f lo hi crashed h = tt
  map_read-EndsIn f lo hi spent h = h
  map_read-EndsIn f lo hi (whole a off) h = h

  pub bind_read-EndsIn :
      (lo hi lo' hi' : ℕ) (f : A → ℕ → Read B) (r : Read A)
      → EndsIn lo hi r
      → ((a : A) (off : ℕ) → lo ≤ off → off ≤ hi → EndsIn lo' hi' (f a off))
      → EndsIn lo' hi' (bind_read r f)
  bind_read-EndsIn lo hi lo' hi' f cut h k = tt
  bind_read-EndsIn lo hi lo' hi' f refused h k = tt
  bind_read-EndsIn lo hi lo' hi' f crashed h k = tt
  bind_read-EndsIn lo hi lo' hi' f spent h k = h
  bind_read-EndsIn lo hi lo' hi' f (whole a off) h k = k a off h.0 h.1

weaker : {A : Type 0} (lo hi : ℕ) (r : Read A) → 1 ≤ lo → EndsIn lo hi r → EndsIn 1 hi r
weaker lo hi cut p h = tt
weaker lo hi refused p h = tt
weaker lo hi crashed p h = tt
weaker lo hi spent p h = h
weaker lo hi (whole a off) p h = (omega (arith, h.0), h.1)

read_fixed-EndsIn :
    (n : ℕ) (show : Bytes → Bytes) (d : Bytes) → EndsIn n (length d) (read_fixed n show d)
unfolding read_fixed
read_fixed-EndsIn n show d = elim (Bool-cases (ltb (length d) n)) [
  | inl e ↦ rw e tt
  | inr e ↦ rw e (omega arith, ground arith)
]

module _ (lib : Library) (o : Options) where
  pub read_string-EndsIn : (d : Bytes) → EndsIn 4 (length d) (read_string lib o d)
  unfolding read_string
  read_string-EndsIn d = elim (Bool-cases (ltb (length d) 4)) [
    | inl e ↦ rw (read_string, e) tt
    | inr e ↦
        let size = lib.ntohl (take 4 d) in
        elim (Bool-cases (leb (2 ^ 31) size)) [
          | inl f ↦ rw (read_string, e, f) tt
          | inr f ↦ elim (Bool-cases (ltb (length (drop 4 d)) size)) [
            | inl g ↦ rw (read_string, e, f, g) tt
            | inr g ↦ rw (read_string, e, f, g) (omega arith, ground (arith, length-drop 4 d))
          ]
        ]
  ]

  module _ (run : ThriftFieldReader → Bytes → Read Bytes) (d : Bytes)
      (run-EndsIn : (reader : ThriftFieldReader) (e : Bytes)
        → length e < length d
        → EndsIn 1 (length e) (run reader e)) where
    -- A reader at work behind the start of the data.
    pub run-behind :
        (reader : ThriftFieldReader) (offset : ℕ)
        → 0 < offset
        → offset ≤ length d
        → EndsIn 1 (length (drop offset d)) (run reader (drop offset d))
    run-behind reader offset p h = run-EndsIn reader _ (omega (arith, length-drop offset d))

    list_loop-EndsIn :
        (reader : ThriftFieldReader) (n i offset : ℕ) (fields : List Bytes)
        → 0 < offset
        → offset ≤ length d
        → EndsIn 1 (length d) (list_loop lib o run d reader n i offset fields)
    unfolding list_loop
    list_loop-EndsIn reader zero i offset fields p h = (omega arith, h)
    list_loop-EndsIn reader (suc n) i offset fields p h =
        bind_read-EndsIn _ _ _ _ _ _ (run-behind reader offset p h) λ v off a b.
          list_loop-EndsIn reader n (suc i) (offset + off) _ (omega arith)
            (omega (arith, length-drop offset d))

    pub read_list_or_set-EndsIn : EndsIn 1 (length d) (read_list_or_set lib o run d)
    unfolding read_list_or_set
    read_list_or_set-EndsIn = elim (Bool-cases (ltb (length d) 5)) [
      | inl e ↦ rw (read_list_or_set, e) tt
      | inr e ↦ elim (Option-cases (func_readers_by_type (get_or d 0 0))) [
        | inl f ↦ rw (read_list_or_set, e, f) tt
        | inr (reader, f) ↦
            rw (read_list_or_set, e, f)
              (map_read-EndsIn _ _ _ _
                (list_loop-EndsIn reader _ 0 5 [] (omega arith) (ground arith)))
      ]
    ]

    pub read_entry-EndsIn :
        (of_key of_value : ThriftFieldReader) (offset : ℕ)
        → 0 < offset
        → offset ≤ length d
        → EndsIn 1 (length (drop offset d)) (read_entry lib o run d of_key of_value offset)
    unfolding read_entry
    read_entry-EndsIn of_key of_value offset p h =
        bind_read-EndsIn _ _ _ _ _ _ (run-behind of_key offset p h) λ key off a b.
          bind_read-EndsIn _ _ _ _ _ _
            (run-behind of_value (offset + off) (omega arith) (omega (arith, length-drop offset d)))
            λ v off' a' b'.
              (omega arith, omega (arith, length-drop offset d, length-drop (offset + off) d))

    map_loop-EndsIn :
        (of_key of_value : ThriftFieldReader) (n i offset : ℕ) (fields : List Bytes)
        → 0 < offset
        → offset ≤ length d
        → EndsIn 1 (length d) (map_loop lib o run d of_key of_value n i offset fields)
    unfolding map_loop
    map_loop-EndsIn of_key of_value zero i offset fields p h = (omega arith, h)
    map_loop-EndsIn of_key of_value (suc n) i offset fields p h =
        bind_read-EndsIn _ _ _ _ _ _ (read_entry-EndsIn of_key of_value offset p h) λ v off a b.
          map_loop-EndsIn of_key of_value n (suc i) (offset + off) _ (omega arith)
            (omega (arith, length-drop offset d))

    pub read_map-EndsIn : EndsIn 1 (length d) (read_map lib o run d)
    unfolding read_map
    read_map-EndsIn = elim (Bool-cases (ltb (length d) 6)) [
      | inl e ↦ rw (read_map, e) tt
      | inr e ↦ elim (Option-cases (func_readers_by_type (get_or d 0 0))) [
        | inl f ↦ rw (read_map, e, f) tt
        | inr (of_key, f) ↦ elim (Option-cases (func_readers_by_type (get_or d 1 0))) [
          | inl g ↦ rw (read_map, e, f, g) tt
          | inr (of_value, g) ↦
              rw (read_map, e, f, g)
                (map_read-EndsIn _ _ _ _
                  (map_loop-EndsIn of_key of_value _ 0 6 [] (omega arith) (ground arith)))
        ]
      ]
    ]

    -- A field from its type on, which is the byte before `rest`.
    pub read_struct_field-EndsIn :
        (type : ℕ) (rest : Bytes)
        → length rest < length d
        → EndsIn 3 (suc (length rest)) (read_struct_field lib o run d type rest)
    unfolding read_struct_field
    read_struct_field-EndsIn type rest h = elim (Bool-cases (ltb (length rest) 2)) [
      | inl e ↦ rw (read_struct_field, e) tt
      | inr e ↦ elim (Option-cases (func_readers_by_type type)) [
        | inl f ↦ rw (read_struct_field, e, f) tt
        | inr (reader, f) ↦
            rw (read_struct_field, e, f)
              (bind_read-EndsIn _ _ _ _ _ _
                (run-EndsIn reader (drop 2 rest) (omega (arith, length-drop 2 rest)))
                λ v off a b. (omega arith, ground (arith, length-drop 2 rest)))
      ]
    ]

    struct_loop-EndsIn :
        (left offset : ℕ) (fields : List ThriftField)
        → offset ≤ length d
        → EndsIn 1 (length d) (struct_loop lib o run d left offset fields)
    unfolding struct_loop
    struct_loop-EndsIn zero offset fields h = tt
    struct_loop-EndsIn (suc left) offset fields h = elim (Bool-cases (ltb (length d) 1)) [
      | inl e ↦ rw (struct_loop, e) tt
      | inr e ↦
          rw (struct_loop, e)
            (at (drop offset d) (length-drop offset d) λ k fs l. struct_loop-EndsIn left k fs l)
    ]
      where
        at :
            (rest : Bytes)
            → length rest ≡ length d - offset
            → ((k : ℕ) (fs : List ThriftField)
                → k ≤ length d
                → EndsIn 1 (length d) (struct_loop lib o run d left k fs))
            → EndsIn 1 (length d) (elim rest [
              | [] ↦ crashed
              | type ∷ rest' ↦
                  if type == 0
                  then whole fields (offset + 1)
                  else bind_read (read_struct_field lib o run d type rest') λ field off.
                    struct_loop lib o run d left (offset + off) (fields ++ (field ∷ []))
            ])
        at [] l k = tt
        at (type ∷ rest') l k = elim (Bool-cases (type == 0)) [
          | inl e ↦ rw e (omega arith, omega arith)
          | inr e ↦ rw e (
              bind_read-EndsIn _ _ _ _ _ _ (read_struct_field-EndsIn type rest' (omega arith))
                λ field off a b. k (offset + off) _ (omega arith))
        ]

    pub read_struct-EndsIn : EndsIn 1 (length d) (read_struct lib o run d)
    unfolding read_struct
    read_struct-EndsIn = map_read-EndsIn _ _ _ _ (struct_loop-EndsIn _ 0 [] (omega arith))

  -- A reader with more fuel than its data are long: it comes to an end, and a whole value takes a
  -- byte at least and ends inside the data.
  pub run_reader-EndsIn :
      (fuel : ℕ) (reader : ThriftFieldReader) (d : Bytes)
      → length d < fuel
      → EndsIn 1 (length d) (run_reader lib o fuel reader d)
  unfolding run_reader read_and_quote_string
  run_reader-EndsIn zero reader d h = absurd (omega arith)
  run_reader-EndsIn (suc fuel) bool_reader d h = read_fixed-EndsIn 1 _ d
  run_reader-EndsIn (suc fuel) byte_reader d h = read_fixed-EndsIn 1 _ d
  run_reader-EndsIn (suc fuel) double_reader d h =
      weaker 8 _ _ (omega arith) (read_fixed-EndsIn 8 _ d)
  run_reader-EndsIn (suc fuel) i16_reader d h = weaker 2 _ _ (omega arith) (read_fixed-EndsIn 2 _ d)
  run_reader-EndsIn (suc fuel) i32_reader d h = weaker 4 _ _ (omega arith) (read_fixed-EndsIn 4 _ d)
  run_reader-EndsIn (suc fuel) i64_reader d h = weaker 8 _ _ (omega arith) (read_fixed-EndsIn 8 _ d)
  run_reader-EndsIn (suc fuel) string_reader d h =
      weaker 4 _ _ (omega arith) (map_read-EndsIn _ 4 _ _ (read_string-EndsIn d))
  run_reader-EndsIn (suc fuel) list_reader d h = map_read-EndsIn _ _ _ _ (
      read_list_or_set-EndsIn (run_reader lib o fuel) d
        (λ r e l. run_reader-EndsIn fuel r e (omega arith)))
  run_reader-EndsIn (suc fuel) set_reader d h = map_read-EndsIn _ _ _ _ (
      read_list_or_set-EndsIn (run_reader lib o fuel) d
        (λ r e l. run_reader-EndsIn fuel r e (omega arith)))
  run_reader-EndsIn (suc fuel) map_reader d h =
      read_map-EndsIn (run_reader lib o fuel) d (λ r e l. run_reader-EndsIn fuel r e (omega arith))
  run_reader-EndsIn (suc fuel) struct_reader d h =
      read_struct-EndsIn (run_reader lib o fuel) d
        (λ r e l. run_reader-EndsIn fuel r e (omega arith))
