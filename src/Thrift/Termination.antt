-- ===== src/Thrift/Termination.antt =====
-- protos/thrift/thrift.go, the loop of `messageParser`: it ends, inside the data.
use packetbeat.Base.{
  ℕ, zero, suc, ◌+◌, ◌≤◌, ◌<◌, ◌≡◌, inl, inr, refl, sym, subst, length, ltb, arith, Bool-cases,
}
use packetbeat.Base.Text.{Bytes}
use packetbeat.Thrift.Message.{
  Library, Options, ParseState, start_state, field_state, Cursor, Round, next, waits, complete,
  failed, panicked, spent,
}
use packetbeat.Thrift.{round, parse_loop, message_parser}
use packetbeat.Thrift.Progress.{
  StandsIn, IsStanding, IsWhole, Goes, round_start-Goes, round_field-Goes,
}

module _ (lib : Library) (o : Options) (d : Bytes) where
  -- A result of the parser: it has ended, inside the data.
  abbrev pub Ends : Round → Type 0
  Ends (next c) = ⊥
  Ends (waits c) = IsStanding d c
  Ends (complete c) = IsWhole d c
  Ends failed = Unit
  Ends panicked = Unit
  Ends spent = ⊥

  after_round-Ends :
      (fuel from : ℕ) (r : Round)
      → Goes lib o d from r
      → ((c : Cursor)
          → from < c.parse_offset
          → c.parse_offset ≤ length d
          → c.parse_state ≡ field_state
          → c.message.start ≤ c.parse_offset
          → Ends (parse_loop lib o d fuel c))
      → Ends (elim r [
        | next c' ↦ parse_loop lib o d fuel c'
        | waits c' ↦ waits c'
        | complete c' ↦ complete c'
        | failed ↦ failed
        | panicked ↦ panicked
        | spent ↦ spent
      ])
  after_round-Ends fuel from (next c) g k = k c g.0 g.1 g.2 g.3
  after_round-Ends fuel from (waits c) g k = g
  after_round-Ends fuel from (complete c) g k = g
  after_round-Ends fuel from failed g k = tt
  after_round-Ends fuel from panicked g k = tt
  after_round-Ends fuel from spent g k = g

  field_loop-Ends :
      (fuel : ℕ) (c : Cursor)
      → c.message.start ≤ c.parse_offset
      → c.parse_offset ≤ length d
      → c.parse_state ≡ field_state
      → length d < fuel + c.parse_offset
      → Ends (parse_loop lib o d fuel c)
  unfolding parse_loop round
  field_loop-Ends zero c p l e h = absurd (omega arith)
  field_loop-Ends (suc fuel) c p l e h = elim (Bool-cases (ltb c.parse_offset (length d))) [
    | inr f ↦ rw (parse_loop, f) (l, subst (λ z. StandsIn z c) (sym e) p)
    | inl f ↦
        rw (parse_loop, f)
          (after_round-Ends fuel c.parse_offset _
            (subst (λ z. Goes lib o d c.parse_offset (round lib o d z c)) (sym e)
              (round_field-Goes lib o d c p (ground arith) e))
            λ c' a b e' s. field_loop-Ends fuel c' s b e' (omega arith))
  ]

  loop-Ends :
      (s : ParseState) (c : Cursor)
      → c.parse_state ≡ s
      → IsStanding d c
      → Ends (message_parser lib o d c)
  unfolding message_parser parse_loop round
  loop-Ends field_state c e i =
      field_loop-Ends (suc (length d)) c (subst (λ z. StandsIn z c) e i.1) i.0 e (omega arith)
  loop-Ends start_state c e i = elim (Bool-cases (ltb c.parse_offset (length d))) [
    | inr f ↦ rw (message_parser, parse_loop, f) i
    | inl f ↦
        rw (message_parser, parse_loop, f)
          (after_round-Ends (length d) 7 _
            (subst (λ z. Goes lib o d 7 (round lib o d z c)) (sym e)
              (round_start-Goes lib o d c (subst (λ z. StandsIn z c) e i.1) i.0 e))
            λ c' a b e' s. field_loop-Ends (length d) c' s b e' (omega arith))
  ]

-- The loop of the Thrift parser ends on any data, from a start of a message or behind its header:
-- where it waits it stands at such a place again, and a complete message ends inside the data,
-- behind its start.
pub thrift_message_parser-Ends :
    (lib : Library) (o : Options) (d : Bytes) (c : Cursor)
    → IsStanding d c
    → Ends lib o d (message_parser lib o d c)
thrift_message_parser-Ends lib o d c i = loop-Ends lib o d c.parse_state c refl i
