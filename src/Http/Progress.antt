-- ===== src/Http/Progress.antt =====
-- protos/http/http.go, `messageParser`: each round moves the offset forward, inside the data.
use packetbeat.Base.{
  ℕ, zero, suc, ◌+◌, ◌≤◌, ◌<◌, ◌≡◌, inl, inr, true, ◌&&◌, List, [], ◌∷◌, length, take, drop, get_or,
  ltb, leb, length-drop, arith, Bool-cases, Option-cases, if◌then◌else◌,
}
use packetbeat.Base.Find.{has_prefix, index, index-le}
use packetbeat.Base.Int.{ℤ, pos, negsuc, neg, ◌+ℤ◌}
use packetbeat.Base.Scan.{scan_hex}
use packetbeat.Base.Space.{fields}
use packetbeat.Base.Text.{Bytes, codes}
use packetbeat.Base.Slice.{Buffer}
use packetbeat.Http.Message.{
  ParseState, fline_state, HttpMessage, Cursor, Round, next, waits, failed, complete, panicked,
  spent, Options, HeaderRead, header, partial, unread, crlf, left,
}
use packetbeat.Http.Header.{
  parse_version, parse_response_status, parse_header, fold_loop, is_tab_or_space,
}
use packetbeat.Http.Body.{
  round_wait_final_crlf, round_chunked_start, chunk_starts, eat_chunk, eat_body, round_body,
}
use packetbeat.Http.{
  end_of_headers, round_headers, after_first_line, response_line, third_is_cut, request_line,
}

-- The state is not the one that the switch has no case for.
abbrev pub IsLive : ParseState → Type 0
IsLive fline_state = ⊥
IsLive _ = Unit

-- The offset lies inside the data, and the state is live.
abbrev pub IsInside : Buffer → Cursor → Type 0
IsInside d c = (c.parse_offset ≤ length d.bytes) × IsLive c.parse_state

-- A complete message ends at the offset, inside the data.
abbrev pub IsCut : Buffer → Cursor → Type 0
IsCut d c = (c.message.end ≡ c.parse_offset) × (c.parse_offset ≤ length d.bytes)

abbrev pub Goes : Buffer → ℕ → Round → Type 0
Goes d p (next c) = IsInside d c × (p < c.parse_offset)
Goes d p (waits c) = IsInside d c
Goes d p failed = Unit
Goes d p (complete c) = IsCut d c
Goes d p panicked = Unit
Goes d p spent = ⊥

-- A header that is read takes a byte at least, and lies inside the text.
abbrev Reads : ℕ → HeaderRead → Type 0
Reads len (header m n) = (0 < n) × (n ≤ len)
Reads len partial = Unit
Reads len unread = ⊥

fold_loop-Reads :
    (http : Options) (text : Bytes) (i fuel p : ℕ) (m : HttpMessage)
    → length text < fuel + p
    → 0 < fuel
    → Reads (length text) (fold_loop http text i fuel p m)
unfolding fold_loop
fold_loop-Reads http text i zero p m f z = absurd (omega arith)
fold_loop-Reads http text i (suc fuel) p m f z = elim (Bool-cases (ltb p (length text))) [
  | inr e ↦ rw (fold_loop, e) tt
  | inl t ↦ elim (Option-cases (index crlf (drop p text))) [
    | inl e ↦ rw (fold_loop, t, e) tt
    | inr (q, e) ↦
        let inside : p + q + 2 ≤ length text =
          ground (arith, t, index-le crlf (drop p text) q e, length-drop p text) in
        elim (Bool-cases (is_tab_or_space (get_or text (p + q + 1) 0))) [
          | inl s ↦
              rw (fold_loop, t, e, s)
                (fold_loop-Reads http text i fuel (p + q + 2) m (omega arith) (omega arith))
          | inr s ↦ rw (fold_loop, t, e, s) (omega arith, inside)
        ]
  ]
]

parse_header-Reads :
    (http : Options) (m : HttpMessage) (text : Bytes)
    → Reads (length text) (parse_header http m text)
unfolding parse_header
parse_header-Reads http m text = elim (Option-cases (index (b':' ∷ []) text)) [
  | inl e ↦ rw (parse_header, e) tt
  | inr (i, e) ↦
      rw (parse_header, e)
        (fold_loop-Reads http text i (length text + 1) (i + 1) m (omega arith) (omega arith))
]

module _ (d : Buffer) (p : ℕ) where
  pub round_wait_final_crlf-Goes :
      (c : Cursor) → IsInside d c → Goes d p (round_wait_final_crlf d c)
  unfolding round_wait_final_crlf
  round_wait_final_crlf-Goes c i = ground arith

  chunk_starts-Goes :
      (n : ℤ) (c : Cursor) → IsInside d c → p < c.parse_offset → Goes d p (chunk_starts d n c)
  unfolding chunk_starts
  chunk_starts-Goes (pos zero) c i h = ground (arith, round_wait_final_crlf-Goes c i)
  chunk_starts-Goes (pos (suc n)) c i h = ((i.0, tt), h)
  chunk_starts-Goes (negsuc n) c i h = ((i.0, tt), h)

  eat_body-Goes : (r : ℤ) (c : Cursor) → IsInside d c → Goes d p (eat_body d r c)
  unfolding eat_body
  eat_body-Goes (pos r) c i = ground (arith, i.0, i.1)
  eat_body-Goes (negsuc k) c i = ground (arith, i.0)

module _ (d : Buffer) (c : Cursor) (i : IsInside d c)
    (h : ltb c.parse_offset (length d.bytes) ≡ true) where
  pub eat_chunk-Goes : (r : ℤ) → Goes d c.parse_offset (eat_chunk d r c)
  unfolding eat_chunk
  eat_chunk-Goes (pos r) = ground (arith, i.0, i.1)
  eat_chunk-Goes (negsuc k) = tt

  pub round_chunked_start-Goes : Goes d c.parse_offset (round_chunked_start d c)
  unfolding round_chunked_start
  round_chunked_start-Goes =
      let rest = drop c.parse_offset d.bytes in
      elim (Option-cases (index crlf rest)) [
        | inl e ↦ rw (round_chunked_start, e) i
        | inr (q, e) ↦ elim (Option-cases (scan_hex (take q rest))) [
          | inl f ↦ rw (round_chunked_start, e, f) tt
          | inr (n, f) ↦
              let inside : c.parse_offset + q + 2 ≤ length d.bytes =
                ground (arith, h, index-le crlf rest q e, length-drop c.parse_offset d.bytes) in
              rw (round_chunked_start, e, f)
                (chunk_starts-Goes d c.parse_offset n _ (inside, i.1) (omega arith))
        ]
      ]

  pub round_body-Goes : Goes d c.parse_offset (round_body d c)
  unfolding round_body
  round_body-Goes = ground (
    arith,
    i.0,
    i.1,
    eat_body-Goes d c.parse_offset (c.message.content_length +ℤ neg c.body_received) c i,
  )

  pub round_headers-Goes : (http : Options) → Goes d c.parse_offset (round_headers http d c)
  unfolding round_headers end_of_headers
  round_headers-Goes http =
      let rest = drop c.parse_offset d.bytes in
      elim (Bool-cases (leb 2 (left d c.parse_offset) && has_prefix crlf rest)) [
        | inl t ↦ ground (arith, t, i.0)
        | inr f ↦
            rw (round_headers, f)
              (go (parse_header http c.message rest) (parse_header-Reads http c.message rest))
      ]
    where
      go :
          (r : HeaderRead)
          → Reads (length (drop c.parse_offset d.bytes)) r
          → Goes d c.parse_offset (elim r [
            | header m n ↦ next (record c { parse_offset = c.parse_offset + n; message = m })
            | partial ↦ waits c
            | unread ↦ spent
          ])
      go (header m n) r = (
        (ground (arith, r.0, r.1, i.0, h, length-drop c.parse_offset d.bytes), i.1),
        omega (arith, r.0),
      )
      go partial r = i
      go unread r = r

  -- The first line, that ends at a place in the data.
  module _ (e : ℕ) (behind : c.parse_offset ≤ e) (inside : e + 2 ≤ length d.bytes) where
    after_first_line-Goes :
        (version : ℕ × ℕ) (m : HttpMessage) → Goes d c.parse_offset (after_first_line e version m c)
    unfolding after_first_line
    after_first_line-Goes version m = ((inside, tt), omega arith)

    pub response_line-Goes : (line : Bytes) → Goes d c.parse_offset (response_line line e c)
    unfolding response_line
    response_line-Goes line = elim (Bool-cases (ltb (length line) 9)) [
      | inl t ↦ rw (response_line, t) tt
      | inr f ↦ elim (Option-cases (parse_response_status (drop 9 line))) [
        | inl n ↦ rw (response_line, f, n) tt
        | inr (s, n) ↦ rw (response_line, f, n) (after_first_line-Goes _ _)
      ]
    ]

    pub request_line-Goes : (line : Bytes) → Goes d c.parse_offset (request_line d line e c)
    unfolding request_line
    request_line-Goes line = go (fields line)
      where
        go :
            (fs : List Bytes)
            → Goes d c.parse_offset (elim fs [
              | method ∷ uri ∷ version ∷ [] ↦
                  if third_is_cut d line c.parse_offset version
                  then panicked
                  else if has_prefix (codes "HTTP/") version
                  then after_first_line e
                      (parse_version (drop 5 version))
                      (record (c.message) {
                        method = method;
                        request_uri = uri;
                        is_request = true;
                        first_line = line;
                      })
                      c
                  else failed
              | _ ↦ failed
            ])
        go [] = tt
        go (a ∷ []) = tt
        go (a ∷ b ∷ []) = tt
        go (a ∷ b ∷ v ∷ []) = elim (Bool-cases (third_is_cut d line c.parse_offset v)) [
          | inl t ↦ rw t tt
          | inr f ↦ elim (Bool-cases (has_prefix (codes "HTTP/") v)) [
            | inl t ↦ rw (f, t) (after_first_line-Goes _ _)
            | inr g ↦ rw (f, g) tt
          ]
        ]
        go (a ∷ b ∷ v ∷ w ∷ fs) = tt
