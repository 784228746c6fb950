-- ===== src/Http/Termination.antt =====
-- protos/http/http.go, the loop of `messageParser`: where it ends.
use packetbeat.Base.{
  ℕ, zero, suc, ◌+◌, ◌≤◌, ◌<◌, ◌≡◌, inl, inr, refl, subst, true, length, drop, ltb, length-drop,
  arith, Bool-cases, Option-cases,
}
use packetbeat.Base.Find.{has_prefix, index, index-le}
use packetbeat.Base.Text.{codes}
use packetbeat.Base.Slice.{slice?-order, Buffer, slice?}
use packetbeat.Http.Message.{
  ParseState, start_state, fline_state, headers_state, body_state, body_chunked_start, body_chunked,
  body_chunked_wait_final_crlf, Cursor, Round, next, waits, failed, complete, panicked, spent,
  Options, crlf,
}
use packetbeat.Http.Body.{round_chunked}
use packetbeat.Http.{round_start, round, parse_loop, message_parser}
use packetbeat.Http.Progress.{
  IsLive, IsInside, IsCut, Goes, round_wait_final_crlf-Goes, round_chunked_start-Goes,
  eat_chunk-Goes, round_body-Goes, round_headers-Goes, response_line-Goes, request_line-Goes,
}

round_start-Goes :
    (d : Buffer) (c : Cursor)
    → IsInside d c
    → ltb c.parse_offset (length d.bytes) ≡ true
    → Goes d c.parse_offset (round_start d c)
unfolding round_start
round_start-Goes d c i h =
    let c' : Cursor = record c { message = record (c.message) { start = c.parse_offset } } in
    let rest = drop c.parse_offset d.bytes in
    elim (Option-cases (index crlf rest)) [
      | inl e ↦ rw (round_start, e) i
      | inr (q, e) ↦ elim (Option-cases (slice? d c.parse_offset q)) [
        | inl f ↦ rw (round_start, e, f) tt
        | inr (line, f) ↦
            let behind = slice?-order d c.parse_offset q line f in
            let inside : q + 2 ≤ length d.bytes =
              omega (arith, index-le crlf rest q e, length-drop c.parse_offset d.bytes) in
            elim (Bool-cases (ltb (length line) 8)) [
              | inl s ↦ rw (round_start, e, f, s) tt
              | inr s ↦ elim (Bool-cases (has_prefix (codes "HTTP/") line)) [
                | inl t ↦
                    rw (round_start, e, f, s, t) (response_line-Goes d c' i h q behind inside line)
                | inr t ↦
                    rw (round_start, e, f, s, t) (request_line-Goes d c' i h q behind inside line)
              ]
            ]
      ]
    ]

module _ (http : Options) (d : Buffer) where
  round-Goes :
      (s : ParseState) (c : Cursor)
      → IsInside d c
      → c.parse_state ≡ s
      → ltb c.parse_offset (length d.bytes) ≡ true
      → Goes d c.parse_offset (round http d s c)
  unfolding round round_chunked
  round-Goes start_state c i e h = round_start-Goes d c i h
  round-Goes fline_state c i e h = absurd (subst IsLive e i.1)
  round-Goes headers_state c i e h = round_headers-Goes d c i h http
  round-Goes body_state c i e h = round_body-Goes d c i h
  round-Goes body_chunked_start c i e h = round_chunked_start-Goes d c i h
  round-Goes body_chunked c i e h = eat_chunk-Goes d c i h _
  round-Goes body_chunked_wait_final_crlf c i e h = round_wait_final_crlf-Goes d c.parse_offset c i

  -- A result of the parser: it has ended, inside the data.
  abbrev pub Ends : Round → Type 0
  Ends (next c) = ⊥
  Ends (waits c) = IsInside d c
  Ends failed = Unit
  Ends (complete c) = IsCut d c
  Ends panicked = Unit
  Ends spent = ⊥

  parse_loop-Ends :
      (fuel : ℕ) (c : Cursor)
      → IsInside d c
      → length d.bytes < fuel + c.parse_offset
      → 0 < fuel
      → Ends (parse_loop http d fuel c)
  unfolding parse_loop
  parse_loop-Ends zero c i f z = absurd (omega arith)
  parse_loop-Ends (suc fuel) c i f z = elim (Bool-cases (ltb c.parse_offset (length d.bytes))) [
    | inr e ↦ rw (e, parse_loop) i
    | inl t ↦
        rw (t, parse_loop)
          (go (round http d c.parse_state c) (round-Goes c.parse_state c i refl t)
            (λ c' i' q. parse_loop-Ends fuel c' i' (omega arith) (ground (arith, i'.0, t))))
  ]
    where
      go :
          (r : Round)
          → Goes d c.parse_offset r
          → ((c' : Cursor)
              → IsInside d c'
              → c.parse_offset < c'.parse_offset
              → Ends (parse_loop http d fuel c'))
          → Ends (elim r [
            | next c' ↦ parse_loop http d fuel c'
            | waits c' ↦ waits c'
            | failed ↦ failed
            | complete c' ↦ complete c'
            | panicked ↦ panicked
            | spent ↦ spent
          ])
      go (next c') g k = k c' g.0 g.1
      go (waits c') g k = g
      go failed g k = tt
      go (complete c') g k = g
      go panicked g k = tt
      go spent g k = g

-- `messageParser` ends on any data, from every offset inside them and every state but FLINE: it
-- leaves such an offset and state where it waits, and a complete message ends at the offset,
-- inside the data.
pub message_parser-Ends :
    (http : Options) (d : Buffer) (c : Cursor)
    → IsInside d c
    → Ends http d (message_parser http d c)
unfolding message_parser
message_parser-Ends http d c i = parse_loop-Ends http d _ c i (omega arith) (omega arith)
