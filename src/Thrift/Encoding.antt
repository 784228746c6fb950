-- ===== src/Thrift/Encoding.antt =====
-- The values of Thrift's binary protocol, their bytes, and the texts that protos/thrift/thrift.go is
-- meant to show for them.
use packetbeat.Base.{
  ℕ, suc, ◌/◌, ◌%◌, ◌<◌, ◌++◌, ◌≡◌, Bool, true, false, List, [], ◌∷◌, length, take, leb,
  if◌then◌else◌,
}
use packetbeat.Base.Int.{pos}
use packetbeat.Base.Text.{Bytes, codes, itoa}
use packetbeat.Pgsql.Framing.{u32_bytes}
use packetbeat.Thrift.Message.{
  Library, Options, ThriftField, ThriftFieldReader, bool_reader, byte_reader, double_reader,
  i16_reader, i32_reader, i64_reader, string_reader, list_reader, set_reader, map_reader,
  struct_reader,
}
use packetbeat.Thrift.Reading.{capped, to_int64, quoted}
use packetbeat.Thrift.Values.{joined, in_brackets, in_braces, in_map, in_struct}

-- Numbers are the bits of the integers and doubles. The elements of a collection have one type each.
mutual
  pub data Value : Type 0 where
    bool : Bool → Value
    byte double i16 i32 i64 : ℕ → Value
    string : Bytes → Value
    list set : ThriftFieldReader → Items → Value
    map : ThriftFieldReader → ThriftFieldReader → Entries → Value
    struct : Fields → Value

  pub data Items : Type 0 where
    nil : Items
    cons : Value → Items → Items

  pub data Entries : Type 0 where
    end : Entries
    entry : Value → Value → Entries → Entries

  pub data Fields : Type 0 where
    stop : Fields
    field : ℕ → Value → Fields → Fields

-- The byte of a type.
abbrev pub type_of : ThriftFieldReader → ℕ
type_of bool_reader = 2
type_of byte_reader = 3
type_of double_reader = 4
type_of i16_reader = 6
type_of i32_reader = 8
type_of i64_reader = 10
type_of string_reader = 11
type_of struct_reader = 12
type_of map_reader = 13
type_of set_reader = 14
type_of list_reader = 15

abbrev pub kind : Value → ThriftFieldReader
kind (bool b) = bool_reader
kind (byte n) = byte_reader
kind (double n) = double_reader
kind (i16 n) = i16_reader
kind (i32 n) = i32_reader
kind (i64 n) = i64_reader
kind (string s) = string_reader
kind (list r xs) = list_reader
kind (set r xs) = set_reader
kind (map k v es) = map_reader
kind (struct fs) = struct_reader

abbrev pub count : Items → ℕ
count nil = 0
count (cons v xs) = suc (count xs)

abbrev pub count_entries : Entries → ℕ
count_entries end = 0
count_entries (entry k v es) = suc (count_entries es)

abbrev pub count_fields : Fields → ℕ
count_fields stop = 0
count_fields (field id v fs) = suc (count_fields fs)

abbrev pub u16_bytes : ℕ → Bytes
u16_bytes n = n / 256 ∷ n % 256 ∷ []

abbrev pub u64_bytes : ℕ → Bytes
u64_bytes n = u32_bytes (n / 4294967296) ++ u32_bytes (n % 4294967296)

abbrev pub bool_byte : Bool → ℕ
bool_byte true = 1
bool_byte false = 0

unfoldable mutual
  pub encode : Value → Bytes
  encode (bool b) = bool_byte b ∷ []
  encode (byte n) = n ∷ []
  encode (double n) = u64_bytes n
  encode (i16 n) = u16_bytes n
  encode (i32 n) = u32_bytes n
  encode (i64 n) = u64_bytes n
  encode (string s) = u32_bytes (length s) ++ s
  encode (list r xs) = type_of r ∷ (u32_bytes (count xs) ++ encode_items xs)
  encode (set r xs) = type_of r ∷ (u32_bytes (count xs) ++ encode_items xs)
  encode (map k v es) = type_of k ∷ type_of v ∷ (u32_bytes (count_entries es) ++ encode_entries es)
  encode (struct fs) = encode_fields fs

  pub encode_items : Items → Bytes
  encode_items nil = []
  encode_items (cons v xs) = encode v ++ encode_items xs

  pub encode_entries : Entries → Bytes
  encode_entries end = []
  encode_entries (entry k v es) = encode k ++ (encode v ++ encode_entries es)

  pub encode_fields : Fields → Bytes
  encode_fields stop = 0 ∷ []
  encode_fields (field id v fs) =
      type_of (kind v) ∷ (u16_bytes id ++ (encode v ++ encode_fields fs))

-- At most `max` of the texts, with a mark where there are more.
abbrev pub at_most : ℕ → List Bytes → List Bytes
at_most max texts = if leb (length texts) max then texts else take max texts ++ (codes "..." ∷ [])

module _ (lib : Library) (o : Options) where
  unfoldable mutual
    -- The text of a value.
    pub show : Value → Bytes
    show (bool true) = codes "true"
    show (bool false) = codes "false"
    show (byte n) = itoa (pos n)
    show (double n) = lib.format_float n
    show (i16 n) = itoa (pos n)
    show (i32 n) = itoa (pos n)
    show (i64 n) = itoa (to_int64 n)
    show (string s) = quoted lib o (capped o.string_max_size (length s) s)
    show (list r xs) = in_brackets (joined (at_most o.collection_max_size (show_items xs)))
    show (set r xs) = in_braces (joined (at_most o.collection_max_size (show_items xs)))
    show (map k v es) = in_map (at_most o.collection_max_size (show_entries es))
    show (struct fs) = in_struct o (show_fields fs)

    pub show_items : Items → List Bytes
    show_items nil = []
    show_items (cons v xs) = show v ∷ show_items xs

    pub show_entries : Entries → List Bytes
    show_entries end = []
    show_entries (entry k v es) = (show k ++ (codes ": " ++ show v)) ∷ show_entries es

    pub show_fields : Fields → List ThriftField
    show_fields stop = []
    show_fields (field id v fs) =
        record { type = type_of (kind v); id = id; value = show v } ∷ show_fields fs

  -- The value fits the protocol, and its structs have fewer fields than the parser drops them at.
  unfoldable mutual
    pub IsValue : Value → Type 0
    IsValue (bool b) = Unit
    IsValue (byte n) = n < 256
    IsValue (double n) = n < 18446744073709551616
    IsValue (i16 n) = n < 65536
    IsValue (i32 n) = n < 4294967296
    IsValue (i64 n) = n < 18446744073709551616
    IsValue (string s) = length s < 2147483648
    IsValue (list r xs) = (count xs < 4294967296) × AreItems r xs
    IsValue (set r xs) = (count xs < 4294967296) × AreItems r xs
    IsValue (map k v es) = (count_entries es < 4294967296) × AreEntries k v es
    IsValue (struct fs) = (count_fields fs < o.drop_after_n_struct_fields) × AreFields fs

    pub AreItems : ThriftFieldReader → Items → Type 0
    AreItems r nil = Unit
    AreItems r (cons v xs) = (kind v ≡ r) × IsValue v × AreItems r xs

    pub AreEntries : ThriftFieldReader → ThriftFieldReader → Entries → Type 0
    AreEntries rk rv end = Unit
    AreEntries rk rv (entry k v es) =
        (kind k ≡ rk) × (kind v ≡ rv) × IsValue k × IsValue v × AreEntries rk rv es

    pub AreFields : Fields → Type 0
    AreFields stop = Unit
    AreFields (field id v fs) = (id < 65536) × IsValue v × AreFields fs
