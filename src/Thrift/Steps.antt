-- ===== src/Thrift/Steps.antt =====
-- protos/thrift/thrift.go: one round of each loop of the readers, on bytes that are those of a value.
use packetbeat.Base.{
  ℕ, zero, suc, ◌+◌, ◌/◌, ◌%◌, ◌^◌, ◌≤◌, ◌<◌, ◌++◌, ◌≡◌, inl, inr, refl, sym, ap, subst, ◌∙◌, true,
  false, List, [], ◌∷◌, some, length, length-append, take, drop, take-append_length, take-append_le,
  drop-append_length, drop-drop, ltb, leb, ◌==◌, arith, Bool-cases,
}
use packetbeat.Base.Text.{Bytes, codes}
use packetbeat.Pgsql.Framing.{u32_bytes}
use packetbeat.Thrift.Message.{
  Library, IsLibrary, big_endian, Options, ThriftField, Read, whole, map_read, ThriftFieldReader,
  bool_reader, byte_reader, double_reader, i16_reader, i32_reader, i64_reader, string_reader,
  list_reader, set_reader, map_reader, struct_reader,
}
use packetbeat.Thrift.Reading.{read_fixed, capped, read_string}
use packetbeat.Thrift.Values.{
  func_readers_by_type, add_shown, joined, list_loop, read_list_or_set, read_entry, map_loop,
  read_map, in_map, read_struct_field, struct_loop,
}
use packetbeat.Thrift.Encoding.{type_of, u16_bytes, u64_bytes, at_most}

pub func_readers_by_type-type_of :
    (r : ThriftFieldReader) → func_readers_by_type (type_of r) ≡ some r
unfolding func_readers_by_type
func_readers_by_type-type_of bool_reader = refl
func_readers_by_type-type_of byte_reader = refl
func_readers_by_type-type_of double_reader = refl
func_readers_by_type-type_of i16_reader = refl
func_readers_by_type-type_of i32_reader = refl
func_readers_by_type-type_of i64_reader = refl
func_readers_by_type-type_of string_reader = refl
func_readers_by_type-type_of list_reader = refl
func_readers_by_type-type_of set_reader = refl
func_readers_by_type-type_of map_reader = refl
func_readers_by_type-type_of struct_reader = refl

-- No type is the mark of the end of a struct.
pub type_of-no_stop : (r : ThriftFieldReader) → (type_of r == 0) ≡ false
type_of-no_stop bool_reader = refl
type_of-no_stop byte_reader = refl
type_of-no_stop double_reader = refl
type_of-no_stop i16_reader = refl
type_of-no_stop i32_reader = refl
type_of-no_stop i64_reader = refl
type_of-no_stop string_reader = refl
type_of-no_stop list_reader = refl
type_of-no_stop set_reader = refl
type_of-no_stop map_reader = refl
type_of-no_stop struct_reader = refl

pub take_all : (n : ℕ) (xs : Bytes) → length xs ≤ n → take n xs ≡ xs
take_all zero [] h = refl
take_all zero (x ∷ xs) h = absurd (omega arith)
take_all (suc n) [] h = refl
take_all (suc n) (x ∷ xs) h = ap (λ z. x ∷ z) (take_all n xs (omega arith))

-- What the loops collect is what is shown of the elements so far.
add_shown-at_most :
    (max : ℕ) (v : Bytes) (before : List Bytes)
    → add_shown max (length before) v (at_most max before) ≡ at_most max (before ++ (v ∷ []))
unfolding add_shown
add_shown-at_most max v before = elim (Bool-cases (ltb (length before) max)) [
  | inl e ↦
      let a : leb (length before) max ≡ true = ground arith in
      let b : leb (length (before ++ (v ∷ []))) max ≡ true =
        ground (arith, length-append before (v ∷ [])) in
      rw (add_shown, e, a, b) refl
  | inr e ↦
      let b : leb (length (before ++ (v ∷ []))) max ≡ false =
        ground (arith, length-append before (v ∷ [])) in
      elim (Bool-cases (length before == max)) [
        | inl f ↦
            let a : leb (length before) max ≡ true = ground arith in
            let c : take max (before ++ (v ∷ [])) ≡ before =
              subst (λ z. take z (before ++ (v ∷ [])) ≡ before) (ground arith)
                (take-append_length before (v ∷ [])) in
            rw (add_shown, e, f, a, b, c) refl
        | inr f ↦
            let a : leb (length before) max ≡ false = ground arith in
            let c : take max (before ++ (v ∷ [])) ≡ take max before =
              take-append_le max before (v ∷ []) (ground arith) in
            rw (add_shown, e, f, a, b, c) refl
      ]
]

at_most_none : (max : ℕ) → at_most max [] ≡ []
at_most_none max = ground arith

pub read_fixed-Reads :
    (show' : Bytes → Bytes) (b rest : Bytes)
    → read_fixed (length b) show' (b ++ rest) ≡ whole (show' b) (length b)
unfolding read_fixed
read_fixed-Reads show' b rest =
    let long : ltb (length (b ++ rest)) (length b) ≡ false = ground (arith, length-append b rest) in
    rw (read_fixed, long, take-append_length b rest) refl

-- The text behind a part of the data.
pub drop-behind :
    (offset : ℕ) (d part rest : Bytes)
    → drop offset d ≡ part ++ rest
    → drop (offset + length part) d ≡ rest
drop-behind offset d part rest e =
    sym (drop-drop (offset + length part) (length part) offset d refl)
    ∙ ap (drop (length part)) e
    ∙ drop-append_length part rest

module _ (lib : Library) (ok : IsLibrary lib) (o : Options) where
  pub u16_bytes-ntohs : (n : ℕ) → lib.ntohs (u16_bytes n) ≡ n
  u16_bytes-ntohs n = ok.ntohs_is (n / 256) (n % 256) ∙ omega arith

  pub u32_bytes-ntohl : (n : ℕ) → lib.ntohl (u32_bytes n) ≡ n
  u32_bytes-ntohl n =
      ok.ntohl_is (n / 16777216) (n / 65536 % 256) (n / 256 % 256) (n % 256) ∙ omega arith

  pub u64_bytes-big_endian : (n : ℕ) → big_endian 0 (u64_bytes n) ≡ n
  u64_bytes-big_endian n = omega arith

  pub u64_bytes-ntohll : (n : ℕ) → lib.ntohll (u64_bytes n) ≡ n
  u64_bytes-ntohll n = ok.ntohll_is _ _ _ _ _ _ _ _ ∙ u64_bytes-big_endian n

  pub string-Reads :
      (s rest : Bytes)
      → length s < 2147483648
      → read_string lib o (u32_bytes (length s) ++ (s ++ rest))
        ≡ whole (capped o.string_max_size (length s) s) (4 + length s)
  unfolding read_string capped
  string-Reads s rest h =
      let size = u32_bytes-ntohl (length s) in
      let small : leb (2 ^ 31) (length s) ≡ false = ground arith in
      let long : ltb (length (u32_bytes (length s) ++ (s ++ rest))) 4 ≡ false = ground arith in
      let enough : ltb (length (s ++ rest)) (length s) ≡ false =
        ground (arith, length-append s rest) in
      elim (Bool-cases (ltb o.string_max_size (length s))) [
        | inl e ↦
            rw
              (
                read_string,
                long,
                size,
                small,
                enough,
                capped,
                e,
                take-append_le o.string_max_size s rest (ground arith),
              )
              refl
        | inr e ↦
            rw
              (
                read_string,
                long,
                size,
                small,
                enough,
                capped,
                e,
                take-append_length s rest,
                take_all (length s) s (omega arith),
              )
              refl
      ]

  -- One round of each loop, on an element that is read.
  module _ (run : ThriftFieldReader → Bytes → Read Bytes) (d : Bytes) where
    pub list_loop-step :
        (r : ThriftFieldReader) (n offset off : ℕ) (v : Bytes) (before : List Bytes)
        → run r (drop offset d) ≡ whole v off
        → list_loop lib o run d r
            (suc n)
            (length before)
            offset
            (at_most o.collection_max_size before)
          ≡ list_loop lib o run d r n
              (length (before ++ (v ∷ [])))
              (offset + off)
              (at_most o.collection_max_size (before ++ (v ∷ [])))
    unfolding list_loop
    list_loop-step r n offset off v before e =
        let next : length (before ++ (v ∷ [])) ≡ suc (length before) =
          length-append before (v ∷ []) ∙ omega arith in
        rw (list_loop, e, add_shown-at_most o.collection_max_size v before, next) refl

    pub map_loop-step :
        (rk rv : ThriftFieldReader) (n offset off off' : ℕ) (k v : Bytes) (before : List Bytes)
        → run rk (drop offset d) ≡ whole k off
        → run rv (drop (offset + off) d) ≡ whole v off'
        → map_loop lib o run d rk rv
            (suc n)
            (length before)
            offset
            (at_most o.collection_max_size before)
          ≡ map_loop lib o run d rk rv n
              (length (before ++ ((k ++ (codes ": " ++ v)) ∷ [])))
              (offset + (off + off'))
              (at_most o.collection_max_size (before ++ ((k ++ (codes ": " ++ v)) ∷ [])))
    unfolding map_loop read_entry
    map_loop-step rk rv n offset off off' k v before e e' =
        let t = k ++ (codes ": " ++ v) in
        let next : length (before ++ (t ∷ [])) ≡ suc (length before) =
          length-append before (t ∷ []) ∙ omega arith in
        rw (map_loop, read_entry, e, e', add_shown-at_most o.collection_max_size t before, next)
          refl

    pub read_struct_field-Reads :
        (r : ThriftFieldReader) (id off : ℕ) (v rest : Bytes)
        → run r rest ≡ whole v off
        → read_struct_field lib o run d (type_of r) (u16_bytes id ++ rest)
          ≡ whole (record { type = type_of r; id = id; value = v }) (3 + off)
    unfolding read_struct_field
    read_struct_field-Reads r id off v rest f =
        let long : ltb (length (u16_bytes id ++ rest)) 2 ≡ false = ground arith in
        rw (read_struct_field, long, func_readers_by_type-type_of r, f, u16_bytes-ntohs id) refl

    pub struct_loop-step :
        (r : ThriftFieldReader) (id left offset off : ℕ) (v rest : Bytes)
        (before : List ThriftField)
        → 0 < length d
        → drop offset d ≡ type_of r ∷ (u16_bytes id ++ rest)
        → run r rest ≡ whole v off
        → struct_loop lib o run d (suc left) offset before
          ≡ struct_loop lib o run d left
              (offset + (3 + off))
              (before ++ (record { type = type_of r; id = id; value = v } ∷ []))
    unfolding struct_loop
    struct_loop-step r id left offset off v rest before h e f =
        let some_data : ltb (length d) 1 ≡ false = ground arith in
        let reads = read_struct_field-Reads r id off v rest f in
        rw (struct_loop, some_data, e, type_of-no_stop r, reads) refl

    pub struct_loop-stop :
        (left offset : ℕ) (rest : Bytes) (before : List ThriftField)
        → 0 < length d
        → drop offset d ≡ 0 ∷ rest
        → struct_loop lib o run d (suc left) offset before ≡ whole before (offset + 1)
    unfolding struct_loop
    struct_loop-stop left offset rest before h e =
        let some_data : ltb (length d) 1 ≡ false = ground arith in
        rw (struct_loop, some_data, e) refl

  pub read_list_or_set-loop :
      (run : ThriftFieldReader → Bytes → Read Bytes) (r : ThriftFieldReader) (n : ℕ) (rest : Bytes)
      → read_list_or_set lib o run (type_of r ∷ (u32_bytes n ++ rest))
        ≡ map_read joined (
            list_loop lib o run
              (type_of r ∷ (u32_bytes n ++ rest))
              r
              n
              0
              5
              (at_most o.collection_max_size []))
  unfolding read_list_or_set
  read_list_or_set-loop run r n rest =
      let long : ltb (length (type_of r ∷ (u32_bytes n ++ rest))) 5 ≡ false = ground arith in
      rw
        (
          read_list_or_set,
          long,
          at_most_none o.collection_max_size,
          func_readers_by_type-type_of r,
          u32_bytes-ntohl n,
        )
        refl

  pub read_map-loop :
      (run : ThriftFieldReader → Bytes → Read Bytes) (rk rv : ThriftFieldReader) (n : ℕ)
      (rest : Bytes)
      → read_map lib o run (type_of rk ∷ type_of rv ∷ (u32_bytes n ++ rest))
        ≡ map_read in_map (
            map_loop lib o run
              (type_of rk ∷ type_of rv ∷ (u32_bytes n ++ rest))
              rk
              rv
              n
              0
              6
              (at_most o.collection_max_size []))
  unfolding read_map
  read_map-loop run rk rv n rest =
      let long : ltb (length (type_of rk ∷ type_of rv ∷ (u32_bytes n ++ rest))) 6 ≡ false =
        ground arith in
      rw
        (
          read_map,
          long,
          at_most_none o.collection_max_size,
          func_readers_by_type-type_of rk,
          func_readers_by_type-type_of rv,
          u32_bytes-ntohl n,
        )
        refl
