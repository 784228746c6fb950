-- ===== src/Mysql/Response.antt =====
-- protos/mysql/mysql.go, `parseMysqlResponse`: the names of the fields and the rows of a response.
use packetbeat.Base.{
  ℕ, zero, suc, ◌+◌, ◌-◌, ◌++◌, List, [], ◌∷◌, Option, none, some, length, get_elem?, take, ltb,
  leb, ◌==◌, if◌then◌else◌, true, false,
}
use packetbeat.Base.Text.{Bytes, codes}
use packetbeat.Mysql.Integers.{
  LString, past_end, incomplete, malformed, string, read_lstring, read_u24,
}

-- What `parseMysqlResponse` does: it returns fields and rows, it panics, or (no result of the
-- code) the rounds ran out.
pub data Response : Type 0 where
  returns : List Bytes → List (List Bytes) → Response
  panics : Response
  endless : Response

-- `read_length`, with its panic.
unfoldable pub length_at : Bytes → ℕ → Option ℕ
length_at bytes offset =
    if ltb (length bytes) (offset + 3) then none else some (read_u24 bytes offset)

-- One more string than the number, one behind the other; the last one, and the offset behind it.
unfoldable pub read_lstrings : ℕ → Bytes → ℕ → LString
read_lstrings zero bytes offset = read_lstring bytes offset
read_lstrings (suc n) bytes offset = elim (read_lstring bytes offset) [
  | past_end ↦ past_end
  | incomplete ↦ incomplete
  | malformed ↦ malformed
  | string s off ↦ read_lstrings n bytes off
]

-- What a field's description or a row's bytes give.
pub data Part (A : Type 0) : Type 0 where
  part : A → Part A
  ends : Part A  -- the function returns what it has
  breaks : Part A  -- a panic
  stuck : Part A  -- no result of the code

-- The name of a field, the fifth of the six strings that are read.
unfoldable pub field_name : Bytes → ℕ → Part Bytes
field_name bytes offset = elim (read_lstrings 4 bytes offset) [
  | past_end ↦ breaks
  | incomplete ↦ ends
  | malformed ↦ ends
  | string name off ↦ elim (read_lstring bytes off) [
    | past_end ↦ breaks
    | incomplete ↦ ends
    | malformed ↦ ends
    | string org_name off' ↦ part name
  ]
]

-- The text of a cell as it is kept, where a row of that length has at most `max` bytes.
unfoldable pub kept_text : ℕ → ℕ → Bytes → Bytes
kept_text max row_len text =
    if ltb max (row_len + length text) then take (max - row_len) text else text

-- `row_len < mysql.maxRowLength`, and then the cell is kept.
unfoldable pub add_cell : ℕ → ℕ → List Bytes → Bytes → List Bytes
add_cell max row_len row text =
    if ltb row_len max then row ++ (kept_text max row_len text ∷ []) else row

unfoldable pub add_length : ℕ → ℕ → Bytes → ℕ
add_length max row_len text =
    if ltb row_len max then row_len + length (kept_text max row_len text) else row_len

-- The loop over the cells of a row, up to the offset `stop`. A cell that is incomplete is an empty
-- text, and the offset is 0 then.
unfoldable pub read_cells : ℕ → Bytes → ℕ → ℕ → ℕ → ℕ → List Bytes → Part (List Bytes)
read_cells zero bytes max stop off row_len row = stuck
read_cells (suc fuel) bytes max stop off row_len row =
    let next : Bytes → ℕ → Part (List Bytes) = λ text off'.
      read_cells fuel bytes max stop off' (add_length max row_len text)
        (add_cell max row_len row text) in
    elim (ltb off stop) [
      | false ↦ part row
      | true ↦ elim (get_elem? bytes off) [
        | none ↦ breaks
        | some b ↦ elim (b == 0xfb) [
          | true ↦ next (codes "NULL") (off + 1)
          | false ↦ elim (read_lstring bytes off) [
            | past_end ↦ breaks
            | malformed ↦ ends
            | incomplete ↦ next [] 0
            | string text off' ↦ next text off'
          ]
        ]
      ]
    ]

-- The loop over the rows.
unfoldable pub read_rows : ℕ → Bytes → ℕ → ℕ → List Bytes → ℕ → List (List Bytes) → Response
read_rows zero bytes max max_rows fields offset rows = endless
read_rows (suc fuel) bytes max max_rows fields offset rows = elim (ltb offset (length bytes)) [
  | false ↦ returns fields rows
  | true ↦ elim (get_elem? bytes (offset + 4)) [
    | none ↦ panics
    | some b ↦ elim (b == 0xfe) [
      | true ↦ returns fields rows
      | false ↦ elim (length_at bytes offset) [
        | none ↦ panics
        | some n ↦
            elim (read_cells (suc (length bytes)) bytes max (offset + 4 + n) (offset + 4) 0 []) [
              | ends ↦ returns fields rows
              | breaks ↦ panics
              | stuck ↦ endless
              | part row ↦ elim (leb max_rows (length rows + 1)) [
                | true ↦ returns fields (rows ++ (row ∷ []))
                | false ↦
                    read_rows fuel bytes max max_rows fields (offset + n + 4) (rows ++ (row ∷ []))
              ]
            ]
      ]
    ]
  ]
]

-- The loop over the fields, and then the rows.
unfoldable pub read_fields : ℕ → Bytes → ℕ → ℕ → ℕ → List Bytes → Response
read_fields zero bytes max max_rows offset fields = endless
read_fields (suc fuel) bytes max max_rows offset fields = elim (length_at bytes offset) [
  | none ↦ panics
  | some n ↦ elim (get_elem? bytes (offset + 4)) [
    | none ↦ panics
    | some b ↦ elim (b == 0xfe) [
      | true ↦ read_rows (suc (length bytes)) bytes max max_rows fields (offset + n + 4) []
      | false ↦ elim (field_name bytes (offset + 4)) [
        | ends ↦ returns fields []
        | breaks ↦ panics
        | stuck ↦ endless
        | part name ↦ read_fields fuel bytes max max_rows (offset + n + 4) (fields ++ (name ∷ []))
      ]
    ]
  ]
]

-- `parseMysqlResponse`
unfoldable pub parse_mysql_response : ℕ → ℕ → Bytes → Response
parse_mysql_response max max_rows bytes = elim (length_at bytes 0) [
  | none ↦ panics
  | some n ↦ elim (ltb n 1) [
    | true ↦ returns [] []
    | false ↦ elim (get_elem? bytes 4) [
      | none ↦ panics
      | some b ↦
          if b == 0
          then returns [] []
          else if b == 0xff
          then returns [] []
          else read_fields (suc (length bytes)) bytes max max_rows 5 []
    ]
  ]
]
