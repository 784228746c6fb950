-- ===== src/Thrift/Values.antt =====
-- protos/thrift/thrift.go: the readers of collections and structs, which call the readers of what
-- they hold. Go's recursion takes fuel here; `Thrift.Bounds` shows that the length of the data and
-- one more are enough. A list is read in any case to its end, which is that of the data at the
-- latest.
use packetbeat.Base.{
  ℕ, zero, suc, ◌+◌, ◌++◌, Bool, false, List, [], ◌∷◌, Option, none, some, length, take, drop,
  get_elem?, get_or, ltb, ◌==◌, if◌then◌else◌,
}
use packetbeat.Base.Int.{pos}
use packetbeat.Base.Text.{Bytes, codes, join, itoa}
use packetbeat.Thrift.Message.{
  Library, Options, ThriftField, Read, cut, refused, crashed, spent, whole, map_read, bind_read,
  ThriftFieldReader, bool_reader, byte_reader, double_reader, i16_reader, i32_reader, i64_reader,
  string_reader, list_reader, set_reader, map_reader, struct_reader,
}
use packetbeat.Thrift.Reading.{
  read_fixed, show_bool, show_byte, show_double, show_i16, show_i32, show_i64,
  read_and_quote_string,
}

-- `funcReadersByType`
unfoldable pub func_readers_by_type : ℕ → Option ThriftFieldReader
func_readers_by_type type =
    if type == 2
    then some bool_reader
    else if type == 3
    then some byte_reader
    else if type == 4
    then some double_reader
    else if type == 6
    then some i16_reader
    else if type == 8
    then some i32_reader
    else if type == 10
    then some i64_reader
    else if type == 11
    then some string_reader
    else if type == 15
    then some list_reader
    else if type == 14
    then some set_reader
    else if type == 13
    then some map_reader
    else if type == 12
    then some struct_reader
    else none

-- The name of a field: the one at its id, if there is one, or else the id.
unfoldable pub field_name : Bool → List (Option Bytes) → ℕ → Bytes
field_name resolve_names fieldnames id =
    elim (if resolve_names then get_elem? fieldnames id else none) [
      | none ↦ itoa (pos id)
      | some none ↦ itoa (pos id)
      | some (some name) ↦ name
    ]

-- The texts that `formatStruct` joins, from the field at `i` on.
unfoldable pub format_fields : ℕ → Bool → List (Option Bytes) → ℕ → List ThriftField → List Bytes
format_fields max resolve_names fieldnames i [] = []
format_fields max resolve_names fieldnames i (f ∷ fs) =
    let more = format_fields max resolve_names fieldnames (suc i) fs in
    if i == max
    then codes "..." ∷ []
    else (field_name resolve_names fieldnames f.id ++ (codes ": " ++ f.value)) ∷ more

-- `formatStruct`
unfoldable pub format_struct : Options → List ThriftField → Bool → List (Option Bytes) → Bytes
format_struct o fields resolve_names fieldnames =
    codes "("
    ++ (join (format_fields o.collection_max_size resolve_names fieldnames 0 fields) (codes ", ")
        ++ codes ")")

-- What is shown of the element at `i`: itself, one mark, or nothing.
unfoldable pub add_shown : ℕ → ℕ → Bytes → List Bytes → List Bytes
add_shown max i value fields =
    if ltb i max
    then fields ++ (value ∷ [])
    else if i == max
    then fields ++ (codes "..." ∷ [])
    else fields

-- The texts of `readSet` and `readList`, for what `readListOrSet` returns.
unfoldable pub in_braces : Bytes → Bytes
in_braces value = if length value == 0 then value else codes "{" ++ (value ++ codes "}")

unfoldable pub in_brackets : Bytes → Bytes
in_brackets value = if length value == 0 then value else codes "[" ++ (value ++ codes "]")

unfoldable pub joined : List Bytes → Bytes
joined fields = join fields (codes ", ")

-- The text of `readMap` for its entries, and of `readStruct` for its fields.
unfoldable pub in_map : List Bytes → Bytes
in_map fields = codes "{" ++ (joined fields ++ codes "}")

unfoldable pub in_struct : Options → List ThriftField → Bytes
in_struct o fields = format_struct o fields false []

module _ (lib : Library) (o : Options) (run : ThriftFieldReader → Bytes → Read Bytes)
    (d : Bytes) where
  -- The loop of `readListOrSet`, over the `n` elements from the one at `i` on.
  unfoldable pub list_loop : ThriftFieldReader → ℕ → ℕ → ℕ → List Bytes → Read (List Bytes)
  list_loop reader zero i offset fields = whole fields offset
  list_loop reader (suc n) i offset fields = bind_read (run reader (drop offset d)) λ value off.
      list_loop reader n (suc i) (offset + off) (add_shown o.collection_max_size i value fields)

  -- `readListOrSet`
  unfoldable pub read_list_or_set : Read Bytes
  read_list_or_set = if ltb (length d) 5 then cut else elim (func_readers_by_type (get_or d 0 0)) [
    | none ↦ refused
    | some reader ↦ map_read joined (list_loop reader (lib.ntohl (take 4 (drop 1 d))) 0 5 [])
  ]

  -- The loop of `readMap`, in two steps: a value, and a key with its value.
  unfoldable pub read_entry : ThriftFieldReader → ThriftFieldReader → ℕ → Read Bytes
  read_entry of_key of_value offset = bind_read (run of_key (drop offset d)) λ key off.
      bind_read (run of_value (drop (offset + off) d))
        λ value off'. whole (key ++ (codes ": " ++ value)) (off + off')

  unfoldable pub map_loop :
      ThriftFieldReader → ThriftFieldReader → ℕ → ℕ → ℕ → List Bytes → Read (List Bytes)
  map_loop of_key of_value zero i offset fields = whole fields offset
  map_loop of_key of_value (suc n) i offset fields =
      bind_read (read_entry of_key of_value offset) λ entry off.
        map_loop of_key of_value n (suc i) (offset + off)
          (add_shown o.collection_max_size i entry fields)

  -- `readMap`
  unfoldable pub read_map : Read Bytes
  read_map = if ltb (length d) 6 then cut else elim (func_readers_by_type (get_or d 0 0)) [
    | none ↦ refused
    | some of_key ↦ elim (func_readers_by_type (get_or d 1 0)) [
      | none ↦ refused
      | some of_value ↦
          map_read in_map (map_loop of_key of_value (lib.ntohl (take 4 (drop 2 d))) 0 6 [])
    ]
  ]

  -- One field of a struct from its type on, with what is behind the type.
  unfoldable pub read_struct_field : ℕ → Bytes → Read ThriftField
  read_struct_field type rest =
      if ltb (length rest) 2 then cut else elim (func_readers_by_type type) [
        | none ↦ refused
        | some reader ↦ bind_read (run reader (drop 2 rest)) λ value off.
            whole (record { type = type; id = lib.ntohs (take 2 rest); value = value }) (3 + off)
      ]

  -- The loop of `readStruct`, where `left` fields may still come. It looks for data in the whole
  -- slice, so it reads behind its end where a field ends with the data.
  unfoldable pub struct_loop : ℕ → ℕ → List ThriftField → Read (List ThriftField)
  struct_loop zero offset fields = refused
  struct_loop (suc left) offset fields = if ltb (length d) 1 then cut else elim (drop offset d) [
    | [] ↦ crashed
    | type ∷ rest ↦
        if type == 0
        then whole fields (offset + 1)
        else bind_read (read_struct_field type rest)
            λ field off. struct_loop left (offset + off) (fields ++ (field ∷ []))
  ]

  -- `readStruct`
  unfoldable pub read_struct : Read Bytes
  read_struct = map_read (in_struct o) (struct_loop o.drop_after_n_struct_fields 0 [])

module _ (lib : Library) (o : Options) where
  -- A reader at work.
  unfoldable pub run_reader : ℕ → ThriftFieldReader → Bytes → Read Bytes
  run_reader zero reader d = spent
  run_reader (suc fuel) bool_reader d = read_fixed 1 show_bool d
  run_reader (suc fuel) byte_reader d = read_fixed 1 show_byte d
  run_reader (suc fuel) double_reader d = read_fixed 8 (show_double lib) d
  run_reader (suc fuel) i16_reader d = read_fixed 2 (show_i16 lib) d
  run_reader (suc fuel) i32_reader d = read_fixed 4 (show_i32 lib) d
  run_reader (suc fuel) i64_reader d = read_fixed 8 (show_i64 lib) d
  run_reader (suc fuel) string_reader d = read_and_quote_string lib o d
  run_reader (suc fuel) list_reader d =
      map_read in_brackets (read_list_or_set lib o (run_reader fuel) d)
  run_reader (suc fuel) set_reader d =
      map_read in_braces (read_list_or_set lib o (run_reader fuel) d)
  run_reader (suc fuel) map_reader d = read_map lib o (run_reader fuel) d
  run_reader (suc fuel) struct_reader d = read_struct lib o (run_reader fuel) d

  -- A reader on data of any length.
  unfoldable pub read_with : ThriftFieldReader → Bytes → Read Bytes
  read_with reader d = run_reader (suc (length d)) reader d
