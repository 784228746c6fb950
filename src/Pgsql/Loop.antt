-- ===== src/Pgsql/Loop.antt =====
-- protos/pgsql/pgsql.go, the loop of `Parse` on a query, or on a part of one.
use packetbeat.Base.{
  ℕ, suc, ◌+◌, ◌≤◌, ◌<◌, ◌++◌, ◌≡◌, inl, inr, refl, sym, ap, subst, ◌∙◌, Bool, true, false, [], ◌∷◌,
  if◌then◌else◌, Option, none, some, length, length-append, append-nil, drop, drop-append_length,
  ltb, arith, Bool-cases,
}
use packetbeat.Base.Text.{Bytes}
use packetbeat.Tcp.{tcp_max_data_in_stream}
use packetbeat.Base.Slice.{Buffer}
use packetbeat.Pgsql.Message.{
  Common, IsCommon, IsText, start_state, PgsqlMessage, new_message, complete,
}
use packetbeat.Pgsql.{pgsql_message_parser}
use packetbeat.Pgsql.Framing.{
  query_packet, query_message, at_start, parser_short, parser_part, parser_whole,
}
use packetbeat.Pgsql.Stream.{
  PgsqlStream, prepare_for_new_message, kept, cannot_cut, cannot_drop, ship, stream_loop, expecting,
}

-- The message of a stream whose query is not whole, and the stream.
abbrev pub begun_message : ℕ → Bool → PgsqlMessage
begun_message ts b = record (new_message ts) { is_request = b }

abbrev pub stream_at : Bytes → Bytes → Bool → Bool → Option PgsqlMessage → PgsqlStream
stream_at a spare seen expect m = record {
  buffer = record { bytes = a; spare = spare };
  parse_offset = 0;
  parse_state = start_state;
  seen_ssl_request = seen;
  expect_ssl_response = expect;
  message = m;
}

abbrev pub expects : Option PgsqlStream → Bool → Bool
expects none expect = expect
expects (some o) expect = if o.seen_ssl_request then true else expect

pub expecting-stream_at :
    (other : Option PgsqlStream) (a spare : Bytes) (seen expect : Bool) (m : Option PgsqlMessage)
    → expecting other (stream_at a spare seen expect m)
      ≡ stream_at a spare seen (expects other expect) m
expecting-stream_at none a spare seen expect m = refl
expecting-stream_at (some o) a spare seen expect m = go o.seen_ssl_request
  where
    go :
        (b : Bool)
        → (if b then stream_at a spare seen true m else stream_at a spare seen expect m)
          ≡ stream_at a spare seen (if b then true else expect) m
    go true = refl
    go false = refl

module _ {W : Type 0} (handle : PgsqlMessage → W → W) (lib : Common) (ok : IsCommon lib)
    (max max_rows : ℕ) (q : Bytes) (t : IsText q) (h : length q + 6 ≤ tcp_max_data_in_stream)
    (ts : ℕ) (other : Option PgsqlStream) (w : W) where
  -- On a part of the packet the loop waits, and has called no handler.
  pub loop_part :
      (fuel ts' : ℕ) (a b spare : Bytes) (seen expect asks : Bool)
      → a ++ b ≡ query_packet q
      → 0 < length a
      → length a < length q + 6
      → stream_loop handle lib max max_rows
          (suc fuel)
          ts'
          (stream_at a spare seen expect (some (begun_message ts asks)))
          other
          w
        ≡ kept
            (record {
              this = some (
                  stream_at a spare seen expect
                    (some (begun_message ts (if ltb (length a) 5 then asks else true))));
              other = other;
            })
            w
  unfolding stream_loop
  loop_part fuel ts' a b spare seen expect asks e z l =
      let more : ltb 0 (length a) ≡ true = ground arith in
      elim (Bool-cases (ltb (length a) 5)) [
        | inl s ↦
            rw
              (
                stream_loop,
                more,
                s,
                parser_short lib ok spare max max_rows expect (begun_message ts asks) a z
                    (ground (arith, s)),
              )
              refl
        | inr s ↦
            rw
              (
                stream_loop,
                more,
                s,
                parser_part lib ok spare max max_rows expect (begun_message ts asks) q t
                    (ground arith) a b e (ground (arith, s)) l,
              )
              refl
      ]

  -- On the packet it hands the query to the handler, and no data are left.
  pub loop_whole :
      (fuel ts' : ℕ) (spare : Bytes) (seen expect asks : Bool)
      → stream_loop handle lib max max_rows
          (suc (suc fuel))
          ts'
          (stream_at (query_packet q) spare seen expect (some (begun_message ts asks)))
          other
          w
        ≡ kept
            (record { this = some (stream_at [] spare seen expect none); other = other })
            (handle (query_message q (new_message ts)) w)
  unfolding stream_loop ship prepare_for_new_message
  loop_whole fuel ts' spare seen expect asks =
      let d : Buffer = record { bytes = query_packet q; spare = spare } in
      let m = query_message q (new_message ts) in
      let more : ltb 0 (length (query_packet q)) ≡ true = ground arith in
      let len : length (query_packet q) ≡ length q + 6 = omega (arith, length-append q (0 ∷ [])) in
      let parsed =
        subst
          (λ x.
            pgsql_message_parser lib (record { bytes = x; spare = spare }) max max_rows expect
              (at_start (begun_message ts asks))
            ≡ complete
                (record { parse_offset = length q + 6; parse_state = start_state; message = m }))
          (append-nil (query_packet q))
          (parser_whole lib ok spare max max_rows expect (begun_message ts asks) q t (ground arith)
            []) in
      let cut : cannot_cut d m ≡ false = ground (arith, len) in
      let dropped : cannot_drop d m ≡ false = ground (arith, len) in
      let none_left : drop (length q + 6) (query_packet q) ≡ [] =
        ap (λ n. drop n (query_packet q)) (sym len)
        ∙ ap (drop (length (query_packet q))) (sym (append-nil (query_packet q)))
        ∙ drop-append_length (query_packet q) [] in
      rw (stream_loop, more, parsed, cut, dropped, none_left)
        (ap
          (λ x.
            kept (record { this = some (stream_at x spare seen expect none); other = other })
              (handle m w))
          none_left)
