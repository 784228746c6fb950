-- ===== src/Thrift/RoundTrip.antt =====
-- protos/thrift/thrift.go: the readers on the bytes of a value.
use packetbeat.Base.{
  ℕ, zero, suc, ◌+◌, ◌-◌, ◌<◌, ◌++◌, ◌≡◌, refl, sym, ap, subst, ◌∙◌, true, false, some, List, [],
  ◌∷◌, length, length-append, length-drop, append_assoc, append-nil, drop, arith,
}
use packetbeat.Base.Int.{pos}
use packetbeat.Base.Text.{Bytes, codes, itoa}
use packetbeat.Pgsql.Framing.{u32_bytes}
use packetbeat.Thrift.Message.{
  Library, IsLibrary, Options, ThriftField, Read, whole, map_read, ThriftFieldReader,
}
use packetbeat.Thrift.Reading.{
  to_int64, show_bool, show_byte, show_double, show_i16, show_i32, show_i64, quoted,
  read_and_quote_string,
}
use packetbeat.Thrift.Values.{
  in_braces, in_brackets, joined, list_loop, map_loop, in_map, in_struct, struct_loop, read_struct,
  run_reader, func_readers_by_type, read_with,
}
use packetbeat.Thrift.Encoding.{
  Value, bool, byte, double, i16, i32, i64, string, list, set, map, struct, Items, nil, cons,
  Entries, end, entry, Fields, stop, field, type_of, kind, count, count_entries, count_fields,
  u16_bytes, u64_bytes, encode, encode_items, encode_entries, encode_fields, at_most, show,
  show_items, show_entries, show_fields, IsValue, AreItems, AreEntries, AreFields,
}
use packetbeat.Thrift.Steps.{
  drop-behind, u16_bytes-ntohs, u32_bytes-ntohl, u64_bytes-big_endian, u64_bytes-ntohll,
  read_fixed-Reads, string-Reads, list_loop-step, map_loop-step, struct_loop-step, struct_loop-stop,
  read_list_or_set-loop, read_map-loop, func_readers_by_type-type_of,
}

module _ (lib : Library) (ok : IsLibrary lib) (o : Options) where
  abbrev run : ℕ → ThriftFieldReader → Bytes → Read Bytes
  run fuel = run_reader lib o fuel

  -- The end of a loop, with what it has collected.
  whole-eq : {A : Type 0} {a b : A} {m n : ℕ} → a ≡ b → m ≡ n → whole a m ≡ whole b n
  whole-eq p q = cc (p, q)

  -- A reader at the bytes of a value of its type.
  at_value :
      (r : ThriftFieldReader) (v : Value) (fuel : ℕ) (x behind : Bytes)
      → kind v ≡ r
      → x ≡ encode v ++ behind
      → run fuel (kind v) (encode v ++ behind) ≡ whole (show lib o v) (length (encode v))
      → run fuel r x ≡ whole (show lib o v) (length (encode v))
  at_value r v fuel x behind k e reads =
      ap (run fuel r) e ∙ ap (λ z. run fuel z (encode v ++ behind)) (sym k) ∙ reads

  mutual
    unfolding encode show run_reader IsValue show_bool show_byte show_double show_i16 show_i32
        show_i64 read_and_quote_string list_loop map_loop read_struct

    pub value-Reads :
        (v : Value) (fuel : ℕ) (rest : Bytes)
        → IsValue lib o v
        → length (encode v ++ rest) < fuel
        → run_reader lib o fuel (kind v) (encode v ++ rest)
          ≡ whole (show lib o v) (length (encode v))
    value-Reads v zero rest i h = absurd (omega arith)
    value-Reads (bool true) (suc fuel) rest i h = read_fixed-Reads show_bool (1 ∷ []) rest ∙ refl
    value-Reads (bool false) (suc fuel) rest i h = read_fixed-Reads show_bool (0 ∷ []) rest ∙ refl
    value-Reads (byte n) (suc fuel) rest i h = read_fixed-Reads show_byte (n ∷ []) rest ∙ refl
    value-Reads (double n) (suc fuel) rest i h =
        read_fixed-Reads (show_double lib) (u64_bytes n) rest
        ∙ ap (λ z. whole z 8) (ap lib.format_float (u64_bytes-big_endian lib ok o n))
    value-Reads (i16 n) (suc fuel) rest i h =
        read_fixed-Reads (show_i16 lib) (u16_bytes n) rest
        ∙ ap (λ z. whole z 2) (ap (λ z. itoa (pos z)) (u16_bytes-ntohs lib ok o n))
    value-Reads (i32 n) (suc fuel) rest i h =
        read_fixed-Reads (show_i32 lib) (u32_bytes n) rest
        ∙ ap (λ z. whole z 4) (ap (λ z. itoa (pos z)) (u32_bytes-ntohl lib ok o n))
    value-Reads (i64 n) (suc fuel) rest i h =
        read_fixed-Reads (show_i64 lib) (u64_bytes n) rest
        ∙ ap (λ z. whole z 8) (ap (λ z. itoa (to_int64 z)) (u64_bytes-ntohll lib ok o n))
    value-Reads (string s) (suc fuel) rest i h =
        ap (map_read (quoted lib o)) (string-Reads lib ok o s rest i) ∙ whole-eq refl (omega arith)
    value-Reads (list r xs) (suc fuel) rest i h =
        let l : length (encode_items xs ++ rest) < fuel = omega arith in
        ap (map_read in_brackets) (
          read_list_or_set-loop lib ok o (run fuel) r (count xs) (encode_items xs ++ rest)
          ∙ ap (map_read joined) (items-Reads xs fuel r _ rest 5 [] i.1 refl l))
        ∙ whole-eq refl (omega arith)
    value-Reads (set r xs) (suc fuel) rest i h =
        let l : length (encode_items xs ++ rest) < fuel = omega arith in
        ap (map_read in_braces) (
          read_list_or_set-loop lib ok o (run fuel) r (count xs) (encode_items xs ++ rest)
          ∙ ap (map_read joined) (items-Reads xs fuel r _ rest 5 [] i.1 refl l))
        ∙ whole-eq refl (omega arith)
    value-Reads (map k v es) (suc fuel) rest i h =
        let l : length (encode_entries es ++ rest) < fuel = omega arith in
        read_map-loop lib ok o (run fuel) k v (count_entries es) (encode_entries es ++ rest)
        ∙ ap (map_read in_map) (entries-Reads es fuel k v _ rest 6 [] i.1 refl l)
        ∙ whole-eq refl (omega arith)
    value-Reads (struct fs) (suc fuel) rest i h =
        ap (map_read (in_struct o))
          (fields-Reads fs fuel (encode_fields fs ++ rest) rest 0 [] _ i.0 i.1 refl (omega arith))
        ∙ whole-eq refl (omega arith)

    items-Reads :
        (xs : Items) (fuel : ℕ) (r : ThriftFieldReader) (d rest : Bytes) (offset : ℕ)
        (before : List Bytes)
        → AreItems lib o r xs
        → drop offset d ≡ encode_items xs ++ rest
        → length (encode_items xs ++ rest) < fuel
        → list_loop lib o
            (run fuel)
            d
            r
            (count xs)
            (length before)
            offset
            (at_most o.collection_max_size before)
          ≡ whole
              (at_most o.collection_max_size (before ++ show_items lib o xs))
              (offset + length (encode_items xs))
    items-Reads nil fuel r d rest offset before i e h =
        whole-eq (ap (at_most o.collection_max_size) (sym (append-nil before))) (omega arith)
    items-Reads (cons v xs) fuel r d rest offset before i e h =
        let behind = encode_items xs ++ rest in
        let e' : drop offset d ≡ encode v ++ behind =
          e ∙ append_assoc (encode v) (encode_items xs) rest in
        let size : length (encode v ++ behind) < fuel =
          subst (λ z. length z < fuel) (append_assoc (encode v) (encode_items xs) rest) h in
        let reads : run fuel r (drop offset d) ≡ whole (show lib o v) (length (encode v)) =
          at_value r v fuel _ behind i.0 e' (value-Reads v fuel behind i.1 size) in
        list_loop-step lib ok o (run fuel) d r (count xs) offset _ (show lib o v) before reads
        ∙ items-Reads xs fuel r d rest (offset + length (encode v)) (before ++ (show lib o v ∷ []))
            i.2 (drop-behind offset d (encode v) behind e')
            (omega (arith, size, length-append (encode v) behind))
        ∙ whole-eq
            (ap (at_most o.collection_max_size)
              (append_assoc before (show lib o v ∷ []) (show_items lib o xs)))
            (omega (arith, length-append (encode v) (encode_items xs)))

    entries-Reads :
        (es : Entries) (fuel : ℕ) (rk rv : ThriftFieldReader) (d rest : Bytes) (offset : ℕ)
        (before : List Bytes)
        → AreEntries lib o rk rv es
        → drop offset d ≡ encode_entries es ++ rest
        → length (encode_entries es ++ rest) < fuel
        → map_loop lib o
            (run fuel)
            d
            rk
            rv
            (count_entries es)
            (length before)
            offset
            (at_most o.collection_max_size before)
          ≡ whole
              (at_most o.collection_max_size (before ++ show_entries lib o es))
              (offset + length (encode_entries es))
    entries-Reads end fuel rk rv d rest offset before i e h =
        whole-eq (ap (at_most o.collection_max_size) (sym (append-nil before))) (omega arith)
    entries-Reads (entry k v es) fuel rk rv d rest offset before i e h =
        let behind = encode_entries es ++ rest in
        let behind_key = encode v ++ behind in
        let a : (encode v ++ encode_entries es) ++ rest ≡ behind_key =
          append_assoc (encode v) (encode_entries es) rest in
        let b : (encode k ++ (encode v ++ encode_entries es)) ++ rest ≡ encode k ++ behind_key =
          append_assoc (encode k) (encode v ++ encode_entries es) rest
          ∙ ap (λ z. encode k ++ z) a in
        let at_key : drop offset d ≡ encode k ++ behind_key = e ∙ b in
        let at_val : drop (offset + length (encode k)) d ≡ behind_key =
          drop-behind offset d (encode k) behind_key at_key in
        let size : length (encode k ++ behind_key) < fuel = subst (λ z. length z < fuel) b h in
        let shorter : length behind_key < fuel =
          omega (arith, size, length-append (encode k) behind_key) in
        let t = show lib o k ++ (codes ": " ++ show lib o v) in
        map_loop-step lib ok o (run fuel) d rk rv (count_entries es) offset _ _ (show lib o k)
          (show lib o v) before
          (at_value rk k fuel _ behind_key i.0 at_key (value-Reads k fuel behind_key i.2 size))
          (at_value rv v fuel _ behind i.1 at_val (value-Reads v fuel behind i.3 shorter))
        ∙ entries-Reads es fuel rk rv d rest (offset + (length (encode k) + length (encode v)))
            (before ++ (t ∷ [])) i.4
            (ap (λ z. drop z d) (omega arith)
              ∙ drop-behind (offset + length (encode k)) d (encode v) behind at_val)
            (omega (arith, shorter, length-append (encode v) behind))
        ∙ whole-eq
            (ap (at_most o.collection_max_size)
              (append_assoc before (t ∷ []) (show_entries lib o es)))
            (omega (
              arith,
              length-append (encode k) (encode v ++ encode_entries es),
              length-append (encode v) (encode_entries es),
            ))

    fields-Reads :
        (fs : Fields) (fuel : ℕ) (d rest : Bytes) (offset : ℕ) (before : List ThriftField)
        (left : ℕ)
        → count_fields fs < left
        → AreFields lib o fs
        → drop offset d ≡ encode_fields fs ++ rest
        → length d < suc fuel
        → struct_loop lib o (run fuel) d left offset before
          ≡ whole (before ++ show_fields lib o fs) (offset + length (encode_fields fs))
    fields-Reads fs fuel d rest offset before zero n i e h = absurd (omega arith)
    fields-Reads stop fuel d rest offset before (suc left) n i e h =
        let some_data : 0 < length d = omega (arith, ap length e, length-drop offset d) in
        struct_loop-stop lib ok o (run fuel) d left offset rest before some_data e
        ∙ whole-eq (sym (append-nil before)) (omega arith)
    fields-Reads (field id v fs) fuel d rest offset before (suc left) n i e h =
        let behind = encode_fields fs ++ rest in
        let f : ThriftField = record { type = type_of (kind v); id = id; value = show lib o v } in
        let a : (encode v ++ encode_fields fs) ++ rest ≡ encode v ++ behind =
          append_assoc (encode v) (encode_fields fs) rest in
        let head = type_of (kind v) ∷ u16_bytes id in
        let e' : drop offset d ≡ (head ++ encode v) ++ behind = e ∙ ap (λ z. head ++ z) a in
        let sizes : length d - offset ≡ suc (suc (suc (length (encode v ++ behind)))) =
          sym (length-drop offset d) ∙ ap length e' in
        let reads : run fuel (kind v) ((encode v ++ encode_fields fs) ++ rest)
            ≡ whole (show lib o v) (length (encode v)) =
          at_value (kind v) v fuel _ behind refl a
            (value-Reads v fuel behind i.1 (omega (arith, sizes))) in
        struct_loop-step lib ok o (run fuel) d (kind v) id left offset _ (show lib o v) _ before
          (omega (arith, sizes)) e reads
        ∙ fields-Reads fs fuel d rest (offset + (3 + length (encode v))) (before ++ (f ∷ [])) left
            (omega arith) i.2
            (ap (λ z. drop z d) (omega arith) ∙ drop-behind offset d (head ++ encode v) behind e') h
        ∙ whole-eq (append_assoc before (f ∷ []) (show_fields lib o fs))
            (omega (arith, length-append (encode v) (encode_fields fs)))

-- A value of any type, whatever follows it, is read as its text, to its end: that of a number, and
-- what is shown of a string, of as many elements of a collection as the options allow with a mark
-- where there are more, and of the fields of a struct.
pub read_with-encode :
    (lib : Library) (o : Options) (v : Value) (rest : Bytes)
    → IsLibrary lib
    → IsValue lib o v
    → (func_readers_by_type (type_of (kind v)) ≡ some (kind v))
      × (read_with lib o (kind v) (encode v ++ rest) ≡ whole (show lib o v) (length (encode v)))
unfolding read_with
read_with-encode lib o v rest ok i =
    (func_readers_by_type-type_of (kind v), value-Reads lib ok o v _ rest i (omega arith))
