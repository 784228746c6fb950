-- ===== src/Mysql/Integers.antt =====
-- protos/mysql/mysql.go, `read_linteger`, `read_lstring` and `read_length`.
use packetbeat.Base.{
  ℕ, ◌+◌, ◌-◌, ◌*◌, ◌^◌, length, get_or, take, drop, ltb, leb, ◌==◌, if◌then◌else◌,
}
use packetbeat.Base.Text.{Bytes}

-- `data[i]`, where it is known that the index is in range.
abbrev pub byte_at : Bytes → ℕ → ℕ
byte_at bytes i = get_or bytes i 0

-- `data[from:to]`, for `from <= to`.
abbrev pub slice : Bytes → ℕ → ℕ → Bytes
slice bytes from to = take (to - from) (drop from bytes)

-- `read_length`, and the length in a packet's header: three bytes, the lowest first.
unfoldable pub read_u24 : Bytes → ℕ → ℕ
read_u24 bytes offset =
    byte_at bytes offset + byte_at bytes (offset + 1) * 256 + byte_at bytes (offset + 2) * 65536

-- The results of `read_linteger`: a panic on an index past the end, `complete` false with no error,
-- an error, or the value and the offset behind it.
pub data LInteger : Type 0 where
  past_end incomplete malformed : LInteger
  integer : ℕ → ℕ → LInteger

-- The results of `read_lstring`.
pub data LString : Type 0 where
  past_end incomplete malformed : LString
  string : Bytes → ℕ → LString

-- The value behind the byte 0xfe, as the source adds it up from seven of the eight bytes.
unfoldable pub read_u64 : Bytes → ℕ → ℕ
read_u64 bytes o =
    byte_at bytes (o + 1)
    + byte_at bytes (o + 2) * 256
    + byte_at bytes (o + 2) * 65536
    + byte_at bytes (o + 3) * 16777216
    + byte_at bytes (o + 4) * 4294967296
    + byte_at bytes (o + 5) * 1099511627776
    + byte_at bytes (o + 6) * 281474976710656
    + byte_at bytes (o + 7) * 72057594037927936

unfoldable pub linteger_at : ℕ → Bytes → ℕ → LInteger
linteger_at c bytes offset =
    if c == 0xfe
    then (if ltb (length bytes - (offset + 1)) 8
        then incomplete
        else integer (read_u64 bytes offset) (offset + 9))
    else if c == 0xfd
    then (if ltb (length bytes - (offset + 1)) 3
        then incomplete
        else integer (read_u24 bytes (offset + 1)) (offset + 4))
    else if c == 0xfc
    then (if ltb (length bytes - (offset + 1)) 2
        then incomplete
        else integer (byte_at bytes (offset + 1) + byte_at bytes (offset + 2) * 256) (offset + 3))
    else if leb 0xfb c
    then malformed
    else integer c (offset + 1)

-- `read_linteger`
unfoldable pub read_linteger : Bytes → ℕ → LInteger
read_linteger bytes offset =
    if length bytes == 0
    then incomplete
    else if leb (length bytes) offset
    then past_end
    else linteger_at (byte_at bytes offset) bytes offset

-- A length from 2 ^ 63 on is negative as an int, and the slice panics.
unfoldable pub lstring_of : Bytes → LInteger → LString
lstring_of bytes past_end = past_end
lstring_of bytes incomplete = incomplete
lstring_of bytes malformed = malformed
lstring_of bytes (integer n off) =
    if leb (2 ^ 63) n
    then past_end
    else if ltb (length bytes - off) n
    then incomplete
    else string (slice bytes off (off + n)) (off + n)

-- `read_lstring`
unfoldable pub read_lstring : Bytes → ℕ → LString
read_lstring bytes offset = lstring_of bytes (read_linteger bytes offset)
