-- ===== src/Thrift/Append.antt =====
-- protos/thrift/thrift.go: the readers of collections and structs where more data follow: a whole
-- value and an error stay.
use packetbeat.Base.{
  ℕ, zero, suc, ◌+◌, ◌-◌, ◌≤◌, ◌<◌, ◌++◌, ◌≡◌, inl, inr, refl, sym, subst, List, [], ◌∷◌, length,
  length-append, take, drop, take-append_le, drop-append_le, length-drop, get_or, ltb, ◌==◌,
  if◌then◌else◌, arith, Bool-cases, Option-cases,
}
use packetbeat.Base.Text.{Bytes}
use packetbeat.Thrift.Message.{
  Library, Options, ThriftField, Read, crashed, whole, bind_read, ThriftFieldReader, bool_reader,
  byte_reader, double_reader, i16_reader, i32_reader, i64_reader, string_reader, list_reader,
  set_reader, map_reader, struct_reader,
}
use packetbeat.Thrift.Reading.{read_and_quote_string}
use packetbeat.Thrift.Values.{
  func_readers_by_type, list_loop, read_list_or_set, read_entry, map_loop, read_map,
  read_struct_field, struct_loop, read_struct, run_reader,
}
use packetbeat.Thrift.Bounds.{
  EndsIn, run-behind, read_entry-EndsIn, read_struct_field-EndsIn, run_reader-EndsIn,
}
use packetbeat.Thrift.Prefixes.{
  Stays, map_read-Stays, bind_read-Stays, get_or-append, longer, read_fixed-Stays,
  four_bytes-append, read_string-Stays,
}

module _ (e : Bytes) where
  module _ (lib : Library) (o : Options) where
    module _ (run run' : ThriftFieldReader → Bytes → Read Bytes) (d : Bytes)
        (run-EndsIn : (reader : ThriftFieldReader) (x : Bytes)
          → length x < length d
          → EndsIn 1 (length x) (run reader x))
        (run-Stays : (reader : ThriftFieldReader) (x : Bytes)
          → length x < length d
          → Stays (run reader x) (run' reader (x ++ e))) where
      behind-Stays :
          (reader : ThriftFieldReader) (offset : ℕ)
          → 0 < offset
          → offset ≤ length d
          → Stays (run reader (drop offset d)) (run' reader (drop offset (d ++ e)))
      behind-Stays reader offset p h =
          subst (λ z. Stays (run reader (drop offset d)) (run' reader z))
            (sym (drop-append_le offset d e h))
            (run-Stays reader (drop offset d) (omega (arith, length-drop offset d)))

      list_loop-Stays :
          (reader : ThriftFieldReader) (n i offset : ℕ) (fields : List Bytes)
          → 0 < offset
          → offset ≤ length d
          → Stays
              (list_loop lib o run d reader n i offset fields)
              (list_loop lib o run' (d ++ e) reader n i offset fields)
      unfolding list_loop
      list_loop-Stays reader zero i offset fields p h = refl
      list_loop-Stays reader (suc n) i offset fields p h =
          bind_read-Stays _ _ _ _ _ _ (run-behind lib o run d run-EndsIn reader offset p h)
            (behind-Stays reader offset p h)
            λ v off a b.
              list_loop-Stays reader n (suc i) (offset + off) _ (omega arith)
                (omega (arith, length-drop offset d))

      read_list_or_set-Stays :
          Stays (read_list_or_set lib o run d) (read_list_or_set lib o run' (d ++ e))
      unfolding read_list_or_set
      read_list_or_set-Stays = elim (Bool-cases (ltb (length d) 5)) [
        | inl f ↦ rw (read_list_or_set, f) tt
        | inr f ↦
            let type : get_or (d ++ e) 0 0 ≡ get_or d 0 0 = get_or-append 0 d e (ground arith) in
            let size = four_bytes-append e 1 d (ground arith) in
            elim (Option-cases (func_readers_by_type (get_or d 0 0))) [
              | inl g ↦ rw (read_list_or_set, f, longer e 5 d f, type, g) refl
              | inr (reader, g) ↦
                  rw (read_list_or_set, f, longer e 5 d f, type, g, size)
                    (map_read-Stays _ _ _
                      (list_loop-Stays reader _ 0 5 [] (omega arith) (ground arith)))
            ]
      ]

      read_entry-Stays :
          (of_key of_value : ThriftFieldReader) (offset : ℕ)
          → 0 < offset
          → offset ≤ length d
          → Stays
              (read_entry lib o run d of_key of_value offset)
              (read_entry lib o run' (d ++ e) of_key of_value offset)
      unfolding read_entry
      read_entry-Stays of_key of_value offset p h =
          bind_read-Stays _ _ _ _ _ _ (run-behind lib o run d run-EndsIn of_key offset p h)
            (behind-Stays of_key offset p h)
            λ k off a b.
              let inside : offset + off ≤ length d = omega (arith, length-drop offset d) in
              bind_read-Stays _ _ _ _ _ _
                (run-behind lib o run d run-EndsIn of_value (offset + off) (omega arith) inside)
                (behind-Stays of_value (offset + off) (omega arith) inside) λ v off' a' b'. refl

      map_loop-Stays :
          (of_key of_value : ThriftFieldReader) (n i offset : ℕ) (fields : List Bytes)
          → 0 < offset
          → offset ≤ length d
          → Stays
              (map_loop lib o run d of_key of_value n i offset fields)
              (map_loop lib o run' (d ++ e) of_key of_value n i offset fields)
      unfolding map_loop
      map_loop-Stays of_key of_value zero i offset fields p h = refl
      map_loop-Stays of_key of_value (suc n) i offset fields p h =
          bind_read-Stays _ _ _ _ _ _
            (read_entry-EndsIn lib o run d run-EndsIn of_key of_value offset p h)
            (read_entry-Stays of_key of_value offset p h)
            λ v off a b.
              map_loop-Stays of_key of_value n (suc i) (offset + off) _ (omega arith)
                (omega (arith, length-drop offset d))

      read_map-Stays : Stays (read_map lib o run d) (read_map lib o run' (d ++ e))
      unfolding read_map
      read_map-Stays = elim (Bool-cases (ltb (length d) 6)) [
        | inl f ↦ rw (read_map, f) tt
        | inr f ↦
            let key : get_or (d ++ e) 0 0 ≡ get_or d 0 0 = get_or-append 0 d e (ground arith) in
            let val : get_or (d ++ e) 1 0 ≡ get_or d 1 0 = get_or-append 1 d e (ground arith) in
            let size = four_bytes-append e 2 d (ground arith) in
            elim (Option-cases (func_readers_by_type (get_or d 0 0))) [
              | inl g ↦ rw (read_map, f, longer e 6 d f, key, g) refl
              | inr (of_key, g) ↦ elim (Option-cases (func_readers_by_type (get_or d 1 0))) [
                | inl k ↦ rw (read_map, f, longer e 6 d f, key, g, val, k) refl
                | inr (of_value, k) ↦
                    rw (read_map, f, longer e 6 d f, key, g, val, k, size)
                      (map_read-Stays _ _ _
                        (map_loop-Stays of_key of_value _ 0 6 [] (omega arith) (ground arith)))
              ]
            ]
      ]

      pub read_struct_field-Stays :
          (type : ℕ) (rest : Bytes)
          → length rest < length d
          → Stays
              (read_struct_field lib o run d type rest)
              (read_struct_field lib o run' (d ++ e) type (rest ++ e))
      unfolding read_struct_field
      read_struct_field-Stays type rest h = elim (Bool-cases (ltb (length rest) 2)) [
        | inl f ↦ rw (read_struct_field, f) tt
        | inr f ↦ elim (Option-cases (func_readers_by_type type)) [
          | inl g ↦ rw (read_struct_field, f, longer e 2 rest f, g) refl
          | inr (reader, g) ↦
              let tail : drop 2 (rest ++ e) ≡ drop 2 rest ++ e =
                drop-append_le 2 rest e (ground arith) in
              let id : take 2 (rest ++ e) ≡ take 2 rest = take-append_le 2 rest e (ground arith) in
              rw (read_struct_field, f, longer e 2 rest f, g, tail, id)
                (bind_read-Stays _ _ _ _ _ _
                  (run-EndsIn reader (drop 2 rest) (omega (arith, length-drop 2 rest)))
                  (run-Stays reader (drop 2 rest) (omega (arith, length-drop 2 rest)))
                  λ v off a b. refl)
        ]
      ]

      struct_loop-Stays :
          (left offset : ℕ) (fields : List ThriftField)
          → offset ≤ length d
          → Stays
              (struct_loop lib o run d left offset fields)
              (struct_loop lib o run' (d ++ e) left offset fields)
      unfolding struct_loop
      struct_loop-Stays zero offset fields h = refl
      struct_loop-Stays (suc left) offset fields h = elim (Bool-cases (ltb (length d) 1)) [
        | inl f ↦ rw (struct_loop, f) tt
        | inr f ↦
            rw (struct_loop, f, longer e 1 d f, drop-append_le offset d e h)
              (at (drop offset d) (length-drop offset d) λ k fs l. struct_loop-Stays left k fs l)
      ]
        where
          at :
              (rest : Bytes)
              → length rest ≡ length d - offset
              → ((k : ℕ) (fs : List ThriftField)
                  → k ≤ length d
                  → Stays
                      (struct_loop lib o run d left k fs)
                      (struct_loop lib o run' (d ++ e) left k fs))
              → Stays
                  (elim rest [
                    | [] ↦ crashed
                    | type ∷ rest' ↦
                        if type == 0
                        then whole fields (offset + 1)
                        else bind_read (read_struct_field lib o run d type rest') λ field off.
                          struct_loop lib o run d left (offset + off) (fields ++ (field ∷ []))
                  ])
                  (elim (rest ++ e) [
                    | [] ↦ crashed
                    | type ∷ rest' ↦
                        if type == 0
                        then whole fields (offset + 1)
                        else bind_read
                            (read_struct_field lib o run' (d ++ e) type rest')
                            λ field off.
                              struct_loop lib o run'
                                (d ++ e)
                                left
                                (offset + off)
                                (fields ++ (field ∷ []))
                  ])
          at [] l k = tt
          at (type ∷ rest') l k = elim (Bool-cases (type == 0)) [
            | inl f ↦ rw f refl
            | inr f ↦ rw f (
                bind_read-Stays _ _ _ _ _ _
                  (read_struct_field-EndsIn lib o run d run-EndsIn type rest' (omega arith))
                  (read_struct_field-Stays type rest' (omega arith))
                  λ field off a b. k (offset + off) _ (omega arith))
          ]

    -- A whole value and an error of a reader stay where more data follow, for any fuel that is
    -- enough.
    pub run_reader-Stays :
        (fuel fuel' : ℕ) (reader : ThriftFieldReader) (d : Bytes)
        → length d < fuel
        → length (d ++ e) < fuel'
        → Stays (run_reader lib o fuel reader d) (run_reader lib o fuel' reader (d ++ e))
    unfolding run_reader read_and_quote_string read_struct
    run_reader-Stays zero fuel' reader d h h' = absurd (omega arith)
    run_reader-Stays (suc fuel) zero reader d h h' = absurd (omega arith)
    run_reader-Stays (suc fuel) (suc fuel') bool_reader d h h' = read_fixed-Stays e 1 _ d
    run_reader-Stays (suc fuel) (suc fuel') byte_reader d h h' = read_fixed-Stays e 1 _ d
    run_reader-Stays (suc fuel) (suc fuel') double_reader d h h' = read_fixed-Stays e 8 _ d
    run_reader-Stays (suc fuel) (suc fuel') i16_reader d h h' = read_fixed-Stays e 2 _ d
    run_reader-Stays (suc fuel) (suc fuel') i32_reader d h h' = read_fixed-Stays e 4 _ d
    run_reader-Stays (suc fuel) (suc fuel') i64_reader d h h' = read_fixed-Stays e 8 _ d
    run_reader-Stays (suc fuel) (suc fuel') string_reader d h h' =
        map_read-Stays _ _ _ (read_string-Stays e lib o d)
    run_reader-Stays (suc fuel) (suc fuel') list_reader d h h' = map_read-Stays _ _ _ (
        read_list_or_set-Stays (run_reader lib o fuel) (run_reader lib o fuel') d
          (λ r x l. run_reader-EndsIn lib o fuel r x (omega arith))
          (λ r x l.
            run_reader-Stays fuel fuel' r x (omega arith)
              (omega (arith, length-append x e, length-append d e))))
    run_reader-Stays (suc fuel) (suc fuel') set_reader d h h' = map_read-Stays _ _ _ (
        read_list_or_set-Stays (run_reader lib o fuel) (run_reader lib o fuel') d
          (λ r x l. run_reader-EndsIn lib o fuel r x (omega arith))
          (λ r x l.
            run_reader-Stays fuel fuel' r x (omega arith)
              (omega (arith, length-append x e, length-append d e))))
    run_reader-Stays (suc fuel) (suc fuel') map_reader d h h' =
        read_map-Stays (run_reader lib o fuel) (run_reader lib o fuel') d
          (λ r x l. run_reader-EndsIn lib o fuel r x (omega arith))
          (λ r x l.
            run_reader-Stays fuel fuel' r x (omega arith)
              (omega (arith, length-append x e, length-append d e)))
    run_reader-Stays (suc fuel) (suc fuel') struct_reader d h h' = map_read-Stays _ _ _ (
        struct_loop-Stays (run_reader lib o fuel) (run_reader lib o fuel') d
          (λ r x l. run_reader-EndsIn lib o fuel r x (omega arith))
          (λ r x l.
            run_reader-Stays fuel fuel' r x (omega arith)
              (omega (arith, length-append x e, length-append d e)))
          _ 0 [] (omega arith))
