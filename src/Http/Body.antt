-- ===== src/Http/Body.antt =====
-- protos/http/http.go: bodies of known length, bodies up to the end of the connection, and chunks.
use packetbeat.Base.{
  zero, suc, ◌+◌, ◌-◌, ◌^◌, ◌++◌, Bool, false, not, ◌&&◌, ◌||◌, none, some, length, take, drop, ltb,
  leb, ◌==◌, if◌then◌else◌,
}
use packetbeat.Base.Find.{has_prefix, index}
use packetbeat.Base.GoMap.{bytes_eq, bytes_instance}
use packetbeat.Base.Int.{ℤ, pos, negsuc, neg, ◌+ℤ◌, int64}
use packetbeat.Base.Scan.{scan_hex}
use packetbeat.Base.Text.{codes}
use packetbeat.Base.Slice.{Buffer}
use packetbeat.Http.Message.{
  body_chunked_start, body_chunked, body_chunked_wait_final_crlf, HttpMessage, Cursor, Round, next,
  waits, failed, complete, panicked, crlf, left,
}

-- `state_body_chunked_wait_final_crlf`
unfoldable pub round_wait_final_crlf : Buffer → Cursor → Round
round_wait_final_crlf d c =
    if ltb (left d c.parse_offset) 2
    then waits c
    else if has_prefix crlf (drop c.parse_offset d.bytes)
    then complete (record c {
      parse_offset = c.parse_offset + 2;
      message = record (c.message) { end = c.parse_offset + 2 };
    })
    else failed

-- The end of `state_body_chunked_start`, where the length of the chunk is read.
unfoldable pub chunk_starts : Buffer → ℤ → Cursor → Round
chunk_starts d (pos zero) c =
    if ltb (left d c.parse_offset) 2
    then waits (record c { parse_state = body_chunked_wait_final_crlf })
    else round_wait_final_crlf d c
chunk_starts d _ c = next (record c { body_received = 0; parse_state = body_chunked })

-- `state_body_chunked_start`
unfoldable pub round_chunked_start : Buffer → Cursor → Round
round_chunked_start d c =
    let rest = drop c.parse_offset d.bytes in
    elim (index crlf rest) [
      | none ↦ waits c
      | some i ↦ elim (scan_hex (take i rest)) [
        | none ↦ failed
        | some n ↦ chunk_starts d n (record c {
          parse_offset = c.parse_offset + i + 2;
          message = record (c.message) { chunked_length = n };
        })
      ]
    ]

-- The bytes of a chunk that have not come yet. Where their number is negative, or with the line end
-- has no place in an `int`, the slice expression panics.
unfoldable pub eat_chunk : Buffer → ℤ → Cursor → Round
eat_chunk d (negsuc k) c = panicked
eat_chunk d (pos r) c =
    let m = c.message in
    let rest = drop c.parse_offset d.bytes in
    let n = left d c.parse_offset in
    if leb (2 ^ 63) (r + 2)
    then panicked
    else if leb (r + 2) n
    then next (record c {
      parse_offset = c.parse_offset + (r + 2);
      parse_state = body_chunked_start;
      message = record m {
        chunked_body = m.chunked_body ++ take r rest;
        content_length = int64 (m.content_length +ℤ m.chunked_length);
      };
    })
    else if leb r n
    then waits c
    else waits (record c {
      parse_offset = length d.bytes;
      body_received = c.body_received + n;
      message = record m { chunked_body = m.chunked_body ++ rest };
    })

-- `state_body_chunked`
unfoldable pub round_chunked : Buffer → Cursor → Round
round_chunked d c = eat_chunk d (c.message.chunked_length +ℤ neg c.body_received) c

-- The end of a body of known length. An end before the data makes `Parse` panic.
unfoldable pub eat_body : Buffer → ℤ → Cursor → Round
eat_body d (pos r) c =
    let n = left d c.parse_offset in
    let end = c.parse_offset + r in
    if leb r n
    then complete (record c { parse_offset = end; message = record (c.message) { end = end } })
    else waits (record c { parse_offset = length d.bytes; body_received = c.body_received + n })
eat_body d (negsuc k) c =
    let end = c.parse_offset - suc k in
    if ltb c.parse_offset (suc k)
    then panicked
    else complete (record c { parse_offset = end; message = record (c.message) { end = end } })

-- The body goes on to the end of the connection.
unfoldable pub until_close : HttpMessage → Bool
until_close m =
    not m.has_content_length
    && (bytes_eq m.connection (codes "close")
        || (m.version_major == 1
            && (m.version_minor == 0 && not (bytes_eq m.connection (codes "keep-alive")))))

-- `case BODY`
unfoldable pub round_body : Buffer → Cursor → Round
round_body d c =
    let m = c.message in
    let n = left d c.parse_offset in
    if until_close m
    then waits (record c {
      parse_offset = length d.bytes;
      body_received = c.body_received + n;
      message = record m { content_length = int64 (m.content_length +ℤ pos n) };
    })
    else eat_body d (m.content_length +ℤ neg c.body_received) c

abbrev pub is_zero : ℤ → Bool
is_zero (pos n) = n == 0
is_zero (negsuc n) = false
