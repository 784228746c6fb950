-- ===== src/Http.antt =====
-- protos/http/http.go: the parser of a stream, `messageParser`.
pub mod Message
pub mod Header
pub mod Body
pub mod Progress
pub mod Termination
pub mod Hiding
pub mod State
pub mod Parameters
pub mod Transactions
pub mod Stream
pub mod Secrets
pub mod Cutting
pub mod Correlation
use packetbeat.Base.{
  ℕ, zero, suc, ◌+◌, ◌-◌, ◌%◌, ◌++◌, Bool, true, false, not, ◌&&◌, ◌||◌, List, [], ◌∷◌, Option,
  none, some, length, take, drop, get_or, ltb, leb, ◌==◌, if◌then◌else◌,
}
use packetbeat.Base.Find.{has_prefix, index}
use packetbeat.Base.GoMap.{lookup, put, bytes_eq, bytes_instance}
use packetbeat.Base.Int.{ℤ, pos, negsuc, neg, ◌+ℤ◌, pos_part}
use packetbeat.Base.Scan.{to_lower, last_index, atoi, scan_hex}
use packetbeat.Base.Space.{trim_end, fields}
use packetbeat.Base.Text.{Bytes, codes, trim_by}
use packetbeat.Base.Slice.{Buffer, slice?}
use packetbeat.Http.Message.{
  ParseState, start_state, fline_state, headers_state, body_state, body_chunked_start, body_chunked,
  body_chunked_wait_final_crlf, HttpMessage, Cursor, Round, next, waits, failed, complete, panicked,
  spent, Options, crlf, left, HeaderRead, header, partial, unread,
}
use packetbeat.Http.Header.{parse_version, parse_response_status, parse_header}
use packetbeat.Http.Body.{
  is_zero, round_wait_final_crlf, round_chunked_start, round_chunked, round_body,
}

-- A response that has no body.
unfoldable pub has_no_body : HttpMessage → Bool
has_no_body m =
    not m.is_request
    && ((leb 100 m.status_code && ltb m.status_code 200)
        || (m.status_code == 204 || m.status_code == 304))

-- The end of the headers, which the offset is behind.
unfoldable pub end_of_headers : Cursor → Round
end_of_headers c =
    let m = record (c.message) { body_offset = c.parse_offset } in
    let done = complete (record c { message = record m { end = c.parse_offset } }) in
    if has_no_body m
    then done
    else if bytes_eq m.transfer_encoding (codes "chunked")
    then next (record c { parse_state = body_chunked_start; message = m })
    else if is_zero m.content_length && (m.is_request || m.has_content_length)
    then done
    else next (record c { parse_state = body_state; message = m })

-- `case HEADERS`
unfoldable pub round_headers : Options → Buffer → Cursor → Round
round_headers http d c =
    let rest = drop c.parse_offset d.bytes in
    if leb 2 (left d c.parse_offset) && has_prefix crlf rest
    then end_of_headers (record c { parse_offset = c.parse_offset + 2 })
    else elim (parse_header http c.message rest) [
      | header m n ↦ next (record c { parse_offset = c.parse_offset + n; message = m })
      | partial ↦ waits c
      | unread ↦ spent
    ]

-- The headers are next, behind the first line.
unfoldable pub after_first_line : ℕ → ℕ × ℕ → HttpMessage → Cursor → Round
after_first_line i version m c = next (record c {
  parse_offset = i + 2;
  parse_state = headers_state;
  message = record m {
    version_major = version.0;
    version_minor = version.1;
    header_offset = i + 2;
  };
})

-- The first line of a response.
unfoldable pub response_line : Bytes → ℕ → Cursor → Round
response_line line i c =
    if ltb (length line) 9 then panicked else elim (parse_response_status (drop 9 line)) [
      | none ↦ failed
      | some s ↦
          after_first_line i (parse_version (take 3 (drop 5 line)))
            (record (c.message) { is_request = false; status_code = s.0; status_phrase = s.1 }) c
    ]

-- `slices[2][:5]` panics, where the array of the data ends before.
abbrev pub third_is_cut : Buffer → Bytes → ℕ → Bytes → Bool
third_is_cut d line offset version =
    let from = offset + (length (trim_end line) - length version) in
    ltb (length d.bytes + length d.spare - from) 5

-- The first line of a request.
unfoldable pub request_line : Buffer → Bytes → ℕ → Cursor → Round
request_line d line i c = elim (fields line) [
  | method ∷ uri ∷ version ∷ [] ↦
      if third_is_cut d line c.parse_offset version
      then panicked
      else if has_prefix (codes "HTTP/") version
      then after_first_line i (parse_version (drop 5 version))
          (record (c.message) {
            method = method;
            request_uri = uri;
            is_request = true;
            first_line = line;
          })
          c
      else failed
  | _ ↦ failed
]

-- `case START`, with the place of the line's end behind the offset, which the source takes for a
-- place in the data.
unfoldable pub round_start : Buffer → Cursor → Round
round_start d old =
    let c : Cursor = record old { message = record (old.message) { start = old.parse_offset } } in
    elim (index crlf (drop c.parse_offset d.bytes)) [
      | none ↦ waits c
      | some i ↦ elim (slice? d c.parse_offset i) [
        | none ↦ panicked
        | some line ↦
            if ltb (length line) 8
            then failed
            else if has_prefix (codes "HTTP/") line
            then response_line line i c
            else request_line d line i c
      ]
    ]

module _ (http : Options) (d : Buffer) where
  -- The switch has no case for FLINE.
  unfoldable pub round : ParseState → Cursor → Round
  round start_state c = round_start d c
  round fline_state c = next c
  round headers_state c = round_headers http d c
  round body_state c = round_body d c
  round body_chunked_start c = round_chunked_start d c
  round body_chunked c = round_chunked d c
  round body_chunked_wait_final_crlf c = round_wait_final_crlf d c

  -- The loop of `messageParser`.
  unfoldable pub parse_loop : ℕ → Cursor → Round
  parse_loop zero c = spent
  parse_loop (suc fuel) c = elim (ltb c.parse_offset (length d.bytes)) [
    | false ↦ waits c
    | true ↦ elim (round c.parse_state c) [
      | next c' ↦ parse_loop fuel c'
      | waits c' ↦ waits c'
      | failed ↦ failed
      | complete c' ↦ complete c'
      | panicked ↦ panicked
      | spent ↦ spent
    ]
  ]

  -- `messageParser`: each round moves the offset, so one for each byte and one more are enough.
  unfoldable pub message_parser : Cursor → Round
  message_parser c = parse_loop (length d.bytes + 1) c
