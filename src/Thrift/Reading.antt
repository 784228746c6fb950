-- ===== src/Thrift/Reading.antt =====
-- protos/thrift/thrift.go: the readers of simple values. A slice with an upper bound is taken where
-- a test of the length has passed.
use packetbeat.Base.{
  ℕ, ◌+◌, ◌-◌, ◌/◌, ◌%◌, ◌^◌, ◌++◌, [], ◌∷◌, length, take, drop, get_or, ltb, leb, ◌==◌,
  if◌then◌else◌,
}
use packetbeat.Base.Int.{ℤ, pos, neg}
use packetbeat.Base.Text.{Bytes, codes, itoa}
use packetbeat.Thrift.Message.{Library, big_endian, Options, Read, cut, refused, whole, map_read}

-- `hex.EncodeToString`
unfoldable pub hex_digit : ℕ → ℕ
hex_digit n = if ltb n 10 then 48 + n else 87 + n

unfoldable pub hex_string : Bytes → Bytes
unfolding hex_digit
hex_string [] = []
hex_string (b ∷ bs) = hex_digit (b / 16) ∷ hex_digit (b % 16) ∷ hex_string bs

-- A value of `n` bytes.
unfoldable pub read_fixed : ℕ → (Bytes → Bytes) → Bytes → Read Bytes
read_fixed n show d = if ltb (length d) n then cut else whole (show (take n d)) n

-- The text that `readString` returns for a string of `size` bytes.
unfoldable pub capped : ℕ → ℕ → Bytes → Bytes
capped max size d = if ltb max size then take max d ++ codes "..." else take size d

unfoldable pub show_bool : Bytes → Bytes
show_bool b = if get_or b 0 0 == 0 then codes "false" else codes "true"

unfoldable pub show_byte : Bytes → Bytes
show_byte b = itoa (pos (get_or b 0 0))

-- `int64(n)`
unfoldable pub to_int64 : ℕ → ℤ
to_int64 n = if ltb n (2 ^ 63) then pos n else neg (2 ^ 64 - n)

module _ (lib : Library) where
  unfoldable pub show_double : Bytes → Bytes
  show_double b = lib.format_float (big_endian 0 b)

  unfoldable pub show_i16 : Bytes → Bytes
  show_i16 b = itoa (pos (lib.ntohs b))

  unfoldable pub show_i32 : Bytes → Bytes
  show_i32 b = itoa (pos (lib.ntohl b))

  unfoldable pub show_i64 : Bytes → Bytes
  show_i64 b = itoa (to_int64 (lib.ntohll b))

  -- `readString`
  unfoldable pub read_string : Options → Bytes → Read Bytes
  read_string o d =
      if ltb (length d) 4
      then cut
      else let size = lib.ntohl (take 4 d) in
        if leb (2 ^ 31) size
        then refused
        else if ltb (length (drop 4 d)) size
        then cut
        else whole (capped o.string_max_size size (drop 4 d)) (4 + size)

  -- The text of `readAndQuoteString` for a value.
  unfoldable pub quoted : Options → Bytes → Bytes
  quoted o value =
      if length value == 0
      then 34 ∷ 34 ∷ []
      else if o.obfuscate_strings
      then 34 ∷ 42 ∷ 34 ∷ []
      else if lib.valid_string value
      then lib.quote value
      else hex_string value

  -- `readAndQuoteString`
  unfoldable pub read_and_quote_string : Options → Bytes → Read Bytes
  read_and_quote_string o d = map_read (quoted o) (read_string o d)
