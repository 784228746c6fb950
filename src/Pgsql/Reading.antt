-- ===== src/Pgsql/Reading.antt =====
-- protos/pgsql/pgsql.go: `pgsqlFieldsParser`, `pgsqlRowsParser` and `pgsqlErrorParser`. A result of
-- `none` is a panic.
use packetbeat.Base.{
  ℕ, zero, suc, ◌+◌, ◌%◌, ◌^◌, ◌++◌, Bool, true, false, ◌&&◌, List, [], ◌∷◌, Option, none, some,
  length, get_elem?, ltb, ◌==◌, if◌then◌else◌,
}
use packetbeat.Base.Text.{Bytes}
use packetbeat.Mysql.Response.{add_cell, add_length}
use packetbeat.Base.Slice.{Buffer, slice?, rest?}
use packetbeat.Pgsql.Message.{Common, PgsqlMessage, Cursor, Round, next, panicked, spent}

-- What the loop over the descriptions of the fields has read.
pub record FieldsRead : Type 0 where
  pub offset : ℕ
  pub names : List Bytes
  pub formats : List ℕ

-- What the loop over the columns of a row has read.
pub record RowRead : Type 0 where
  pub offset : ℕ
  pub row : List Bytes
  pub row_len : ℕ

-- `column_length > 0`, for the int32 of the given bits.
abbrev pub is_positive : ℕ → Bool
is_positive n = ltb 0 n && ltb n (2 ^ 31)

-- The field of an error that its type names.
unfoldable pub set_error_field : ℕ → Bytes → PgsqlMessage → PgsqlMessage
set_error_field typ v m =
    if typ == b'M'
    then record m { error_info = v }
    else if typ == b'C'
    then record m { error_code = v }
    else if typ == b'S'
    then record m { error_severity = v }
    else m

module _ (lib : Common) (d : Buffer) where
  -- `common.Bytes_Ntohs(s.data[offset : offset+2])`
  unfoldable pub read_u16 : ℕ → Option ℕ
  read_u16 offset = elim (slice? d offset (offset + 2)) [
    | none ↦ none
    | some b ↦ some (lib.ntohs b)
  ]

  -- `common.Bytes_Ntohl(s.data[offset : offset+4])`
  unfoldable pub read_u32 : ℕ → Option ℕ
  read_u32 offset = elim (slice? d offset (offset + 4)) [
    | none ↦ none
    | some b ↦ some (lib.ntohl b)
  ]

  -- The text that `common.ReadString` finds at the offset, empty on its error.
  unfoldable pub text_at : ℕ → Option Bytes
  text_at offset = elim (rest? d offset) [
    | none ↦ none
    | some b ↦ elim (lib.read_string b) [ none ↦ some [] | some s ↦ some s ]
  ]

  -- One description: the name, 16 bytes that are skipped, and the format.
  unfoldable pub read_field : FieldsRead → Option FieldsRead
  read_field r = elim (text_at r.offset) [
    | none ↦ none
    | some name ↦ elim (read_u16 (r.offset + length name + 17)) [
      | none ↦ none
      | some format ↦ some (record {
        offset = r.offset + length name + 19;
        names = r.names ++ (name ∷ []);
        formats = r.formats ++ (format % 256 ∷ []);
      })
    ]
  ]

  unfoldable pub fields_loop : ℕ → FieldsRead → Option FieldsRead
  fields_loop zero r = some r
  fields_loop (suc n) r = elim (read_field r) [ none ↦ none | some r' ↦ fields_loop n r' ]

  -- `pgsqlFieldsParser`
  unfoldable pub fields_parser : Cursor → Option Cursor
  fields_parser c = elim (read_u16 c.parse_offset) [
    | none ↦ none
    | some count ↦
        elim (fields_loop count
          (record { offset = c.parse_offset + 2; names = []; formats = [] })) [
            | none ↦ none
            | some r ↦ some (record c {
              parse_offset = r.offset;
              message = record (c.message) {
                fields = r.names;
                fields_format = r.formats;
                number_of_fields = c.message.number_of_fields + count;
              };
            })
          ]
  ]

  -- The value of a column, of the format and the length given: only a text that is not empty is
  -- read.
  unfoldable pub column_value : ℕ → ℕ → ℕ → Option Bytes
  column_value format n offset =
      if format == 0 && is_positive n then slice? d offset (offset + n) else some []

  unfoldable pub read_column : ℕ → List ℕ → ℕ → RowRead → Option RowRead
  read_column max formats i r = elim (read_u32 r.offset) [
    | none ↦ none
    | some n ↦ elim (get_elem? formats i) [
      | none ↦ none
      | some format ↦ elim (column_value format n (r.offset + 4)) [
        | none ↦ none
        | some v ↦ some (record {
          offset = if is_positive n then r.offset + 4 + n else r.offset + 4;
          row = add_cell max r.row_len r.row v;
          row_len = add_length max r.row_len v;
        })
      ]
    ]
  ]

  unfoldable pub columns_loop : ℕ → List ℕ → ℕ → ℕ → RowRead → Option RowRead
  columns_loop max formats zero i r = some r
  columns_loop max formats (suc n) i r = elim (read_column max formats i r) [
    | none ↦ none
    | some r' ↦ columns_loop max formats n (i + 1) r'
  ]

  -- `pgsqlRowsParser`, with `maxRowLength` and `maxStoreRows`.
  unfoldable pub rows_parser : ℕ → ℕ → Cursor → Option Cursor
  rows_parser max max_rows c =
      let m = c.message in
      elim (read_u16 c.parse_offset) [
        | none ↦ none
        | some count ↦
            elim (columns_loop max m.fields_format count 0
              (record { offset = c.parse_offset + 2; row = []; row_len = 0 })) [
                | none ↦ none
                | some r ↦ some (record c {
                  parse_offset = r.offset;
                  message = record m {
                    number_of_rows = m.number_of_rows + 1;
                    rows = if ltb (length m.rows) max_rows then m.rows ++ (r.row ∷ []) else m.rows;
                  };
                })
              ]
      ]

  -- `pgsqlErrorParser`
  unfoldable pub error_loop : ℕ → Cursor → Round
  error_loop zero c = spent
  error_loop (suc fuel) c = elim (rest? d c.parse_offset) [
    | none ↦ panicked
    | some [] ↦ next c
    | some (typ ∷ _) ↦ elim (typ == 0) [
      | true ↦ next (record c { parse_offset = c.parse_offset + 1 })
      | false ↦ elim (text_at (c.parse_offset + 1)) [
        | none ↦ panicked
        | some v ↦ error_loop fuel (record c {
          parse_offset = c.parse_offset + 1 + length v + 1;
          message = set_error_field typ v c.message;
        })
      ]
    ]
  ]
