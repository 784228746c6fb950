-- ===== src/Thrift/Resume.antt =====
-- protos/thrift/thrift.go, `messageParser`: a message that comes in several segments, by the socket
-- transport.
use packetbeat.Base.{
  ℕ, zero, suc, ◌+◌, ◌≤◌, ◌<◌, ◌++◌, ◌≡◌, inl, inr, refl, sym, ap, subst, ◌∙◌, true, false, length,
  length-append, ltb, ◌==◌, arith, Bool-cases,
}
use packetbeat.Base.Text.{Bytes}
use packetbeat.Thrift.Message.{
  Library, framed_transport, Options, ThriftMessage, ParseState, start_state, field_state, Cursor,
  Round, next, waits, complete, failed, panicked, spent,
}
use packetbeat.Thrift.{round_start, round, parse_loop, message_parser}
use packetbeat.Thrift.Calls.{among}
use packetbeat.Thrift.Messages.{at_start}
use packetbeat.Thrift.Progress.{Goes, IsStanding, round_start-Goes}
use packetbeat.Thrift.Rounds.{RoundStays, round_start-Stays, round_field-Stays}
use packetbeat.Thrift.Loop.{
  on_round, parse_loop-round, parse_loop-end, field-Goes, on_round-fuel, parse_loop-fuel,
}

module _ (lib : Library) (o : Options) (d e : Bytes) where
  -- What the parser has found stays, and where it waits, it goes on to the same result.
  abbrev LoopStays : Round → Round → Type 0
  LoopStays (waits c) r = message_parser lib o (d ++ e) c ≡ r
  LoopStays (complete c) r = r ≡ complete c
  LoopStays failed r = r ≡ failed
  LoopStays _ r = Unit

  on_round-Stays :
      (f g from : ℕ) (c : Cursor) (r r' : Round)
      → RoundStays lib o d e c r r'
      → Goes lib o d from r
      → Goes lib o (d ++ e) from r'
      → ltb c.parse_offset (length (d ++ e)) ≡ true
      → length (d ++ e) ≤ g + from
      → ((c' : Cursor)
          → c'.parse_state ≡ field_state
          → c'.message.start ≤ c'.parse_offset
          → c'.parse_offset ≤ length d
          → from < c'.parse_offset
          → LoopStays (parse_loop lib o d f c') (parse_loop lib o (d ++ e) g c'))
      → LoopStays (on_round lib o d f r) (on_round lib o (d ++ e) g r')
  unfolding message_parser
  on_round-Stays f g from c (next c') r' s i i' t b k = rw s (k c' i.2 i.3 i.1 i.0)
  on_round-Stays f g from c (complete c') r' s i i' t b k = rw s refl
  on_round-Stays f g from c failed r' s i i' t b k = rw s refl
  on_round-Stays f g from c panicked r' s i i' t b k = tt
  on_round-Stays f g from c spent r' s i i' t b k = tt
  on_round-Stays f g from c (waits c') r' s i i' t b k =
      let same : round lib o (d ++ e) c'.parse_state c' ≡ r' =
        ap (λ z. round lib o (d ++ e) z c') s.1 ∙ s.2 in
      parse_loop-round lib o (d ++ e) (length (d ++ e)) c'
        (ap (λ z. ltb z (length (d ++ e))) s.0 ∙ t)
      ∙ ap (on_round lib o (d ++ e) (length (d ++ e))) same
      ∙ on_round-fuel lib o (d ++ e) (length (d ++ e)) g from r' i' (λ c2 s2 p2 l2 n2.
        parse_loop-fuel lib o (d ++ e) (length (d ++ e)) g c2 s2 p2 l2 (omega arith) (omega arith))

  still_inside : (n : ℕ) → ltb n (length d) ≡ true → ltb n (length (d ++ e)) ≡ true
  still_inside n t = ground (arith, length-append d e)

  field_round-Stays :
      (s : ParseState) (p : ℕ) (m : ThriftMessage)
      → s ≡ field_state
      → p ≤ length d
      → let c : Cursor = record { parse_offset = p; parse_state = s; message = m } in
        RoundStays lib o d e c (round lib o d s c) (round lib o (d ++ e) s c)
  unfolding round
  field_round-Stays start_state p m s h = absurd (cc s)
  field_round-Stays field_state p m s h = round_field-Stays lib o d e p m h

  field_loop-Stays :
      (f g : ℕ) (c : Cursor)
      → c.parse_state ≡ field_state
      → c.message.start ≤ c.parse_offset
      → c.parse_offset ≤ length d
      → length d < f + c.parse_offset
      → length (d ++ e) < g + c.parse_offset
      → LoopStays (parse_loop lib o d f c) (parse_loop lib o (d ++ e) g c)
  unfolding message_parser
  field_loop-Stays zero g c s p l a b = absurd (omega arith)
  field_loop-Stays (suc f) zero c s p l a b = absurd (omega (arith, length-append d e))
  field_loop-Stays (suc f) (suc g) c s p l a b = elim (Bool-cases (ltb c.parse_offset (length d))) [
    | inr t ↦
        subst (λ z. LoopStays z (parse_loop lib o (d ++ e) (suc g) c))
          (sym (parse_loop-end lib o d f c t))
          (parse_loop-fuel lib o (d ++ e) _ (suc g) c s p (omega (arith, length-append d e))
            (omega arith) b)
    | inl t ↦
        subst (λ z. LoopStays z (parse_loop lib o (d ++ e) (suc g) c))
          (sym (parse_loop-round lib o d f c t))
          (subst (LoopStays (on_round lib o d f (round lib o d c.parse_state c)))
            (sym (parse_loop-round lib o (d ++ e) g c (still_inside c.parse_offset t)))
            (on_round-Stays f g c.parse_offset c _ _
              (field_round-Stays c.parse_state c.parse_offset c.message s l)
              (field-Goes lib o d c s p (ground arith))
              (field-Goes lib o (d ++ e) c s p (ground (arith, length-append d e)))
              (still_inside c.parse_offset t) (omega arith)
              λ c' s' p' l' n. field_loop-Stays f g c' s' p' l' (omega arith) (omega arith)))
  ]

  start_loop-Stays :
      (p : ℕ) (m : ThriftMessage)
      → (o.transport_type == framed_transport) ≡ false
      → p ≤ length d
      → p ≤ 4
      → LoopStays
          (message_parser lib o d (at_start p m))
          (message_parser lib o (d ++ e) (at_start p m))
  unfolding message_parser round
  start_loop-Stays p m f l q = elim (Bool-cases (ltb p (length d))) [
    | inr t ↦
        subst (λ z. LoopStays z (message_parser lib o (d ++ e) (at_start p m)))
          (sym (parse_loop-end lib o d (length d) (at_start p m) t)) refl
    | inl t ↦
        subst (λ z. LoopStays z (message_parser lib o (d ++ e) (at_start p m)))
          (sym (parse_loop-round lib o d (length d) (at_start p m) t))
          (subst (LoopStays (on_round lib o d (length d) (round_start lib o d (at_start p m))))
            (sym
              (parse_loop-round lib o (d ++ e) (length (d ++ e)) (at_start p m) (still_inside p t)))
            (on_round-Stays (length d) (length (d ++ e)) 7 (at_start p m) _ _
              (round_start-Stays lib o d e p m f l)
              (round_start-Goes lib o d (at_start p m) q l refl)
              (round_start-Goes lib o (d ++ e) (at_start p m) q (omega (arith, length-append d e))
                refl)
              (still_inside p t) (omega arith)
              λ c' s' p' l' n.
                field_loop-Stays (length d) (length (d ++ e)) c' s' p' l' (omega arith)
                  (omega arith)))
  ]

-- By the socket transport, where more bytes follow: a parser that returned a complete message or
-- failed would have done the same on all the bytes, and one that waits goes on from where it stands
-- to what it would have returned on all the bytes. Of a parser that panics on the bytes before, as it
-- may where they end inside a struct, nothing is said.
pub thrift_message_parser_resumes :
    (lib : Library) (o : Options) (d more : Bytes) (c : Cursor)
    → (o.transport_type == framed_transport) ≡ false
    → IsStanding d c
    → ((c' : Cursor)
        → message_parser lib o d c ≡ complete c'
        → message_parser lib o (d ++ more) c ≡ complete c')
      × (message_parser lib o d c ≡ failed → message_parser lib o (d ++ more) c ≡ failed)
      × ((c' : Cursor)
          → message_parser lib o d c ≡ waits c'
          → message_parser lib o (d ++ more) c ≡ message_parser lib o (d ++ more) c')
unfolding message_parser
thrift_message_parser_resumes lib o d more c f i =
    let r = on_state c.parse_state c.parse_offset c.message i in
    (
      λ c' e. subst (λ z. LoopStays lib o d more z (message_parser lib o (d ++ more) c)) e r,
      λ e. subst (λ z. LoopStays lib o d more z (message_parser lib o (d ++ more) c)) e r,
      λ c' e. sym (subst (λ z. LoopStays lib o d more z (message_parser lib o (d ++ more) c)) e r),
    )
  where
    on_state :
        (s : ParseState) (p : ℕ) (m : ThriftMessage)
        → IsStanding d (record { parse_offset = p; parse_state = s; message = m })
        → LoopStays lib o d more
            (message_parser lib o d (record { parse_offset = p; parse_state = s; message = m }))
            (message_parser lib o
              (d ++ more)
              (record { parse_offset = p; parse_state = s; message = m }))
    on_state start_state p m j = start_loop-Stays lib o d more p m f j.0 j.1
    on_state field_state p m j =
        field_loop-Stays lib o d more _ _ (among p m) refl j.1 j.0 (omega arith) (omega arith)
