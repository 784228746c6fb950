-- ===== src/Thrift/Loop.antt =====
-- protos/thrift/thrift.go, the loop of `messageParser`: its rounds, and the fuel that is enough.
use packetbeat.Base.{
  ℕ, zero, suc, ◌+◌, ◌≤◌, ◌<◌, ◌≡◌, inl, inr, refl, sym, subst, ◌∙◌, true, false, length, ltb,
  arith, Bool-cases,
}
use packetbeat.Base.Text.{Bytes}
use packetbeat.Thrift.Message.{
  Library, Options, field_state, Cursor, Round, next, waits, complete, failed, panicked, spent,
}
use packetbeat.Thrift.{round, parse_loop}
use packetbeat.Thrift.Progress.{Goes, round_field-Goes}

module _ (lib : Library) (o : Options) where
  -- What the loop does behind a round.
  abbrev pub on_round : Bytes → ℕ → Round → Round
  on_round x fuel (next c) = parse_loop lib o x fuel c
  on_round x fuel (waits c) = waits c
  on_round x fuel (complete c) = complete c
  on_round x fuel failed = failed
  on_round x fuel panicked = panicked
  on_round x fuel spent = spent

  pub parse_loop-round :
      (x : Bytes) (fuel : ℕ) (c : Cursor)
      → ltb c.parse_offset (length x) ≡ true
      → parse_loop lib o x (suc fuel) c ≡ on_round x fuel (round lib o x c.parse_state c)
  unfolding parse_loop
  parse_loop-round x fuel c t = rw (parse_loop, t) (of_round (round lib o x c.parse_state c))
    where
      of_round :
          (r : Round)
          → (elim r [
            | next c' ↦ parse_loop lib o x fuel c'
            | waits c' ↦ waits c'
            | complete c' ↦ complete c'
            | failed ↦ failed
            | panicked ↦ panicked
            | spent ↦ spent
          ])
            ≡ on_round x fuel r
      of_round (next c') = refl
      of_round (waits c') = refl
      of_round (complete c') = refl
      of_round failed = refl
      of_round panicked = refl
      of_round spent = refl

  pub parse_loop-end :
      (x : Bytes) (fuel : ℕ) (c : Cursor)
      → ltb c.parse_offset (length x) ≡ false
      → parse_loop lib o x (suc fuel) c ≡ waits c
  unfolding parse_loop
  parse_loop-end x fuel c t = rw (parse_loop, t) refl

  -- A round among the fields.
  pub field-Goes :
      (x : Bytes) (c : Cursor)
      → c.parse_state ≡ field_state
      → c.message.start ≤ c.parse_offset
      → c.parse_offset < length x
      → Goes lib o x c.parse_offset (round lib o x c.parse_state c)
  unfolding round
  field-Goes x c s p l =
      subst (λ z. Goes lib o x c.parse_offset (round lib o x z c)) (sym s)
        (round_field-Goes lib o x c p l s)

  -- Behind a round, any two fuels that are enough give the same result.
  pub on_round-fuel :
      (x : Bytes) (f g from : ℕ) (r : Round)
      → Goes lib o x from r
      → ((c : Cursor)
          → c.parse_state ≡ field_state
          → c.message.start ≤ c.parse_offset
          → c.parse_offset ≤ length x
          → from < c.parse_offset
          → parse_loop lib o x f c ≡ parse_loop lib o x g c)
      → on_round x f r ≡ on_round x g r
  on_round-fuel x f g from (next c) i k = k c i.2 i.3 i.1 i.0
  on_round-fuel x f g from (waits c) i k = refl
  on_round-fuel x f g from (complete c) i k = refl
  on_round-fuel x f g from failed i k = refl
  on_round-fuel x f g from panicked i k = refl
  on_round-fuel x f g from spent i k = refl

  pub parse_loop-fuel :
      (x : Bytes) (f g : ℕ) (c : Cursor)
      → c.parse_state ≡ field_state
      → c.message.start ≤ c.parse_offset
      → c.parse_offset ≤ length x
      → length x < f + c.parse_offset
      → length x < g + c.parse_offset
      → parse_loop lib o x f c ≡ parse_loop lib o x g c
  parse_loop-fuel x zero g c s p l a b = absurd (omega arith)
  parse_loop-fuel x (suc f) zero c s p l a b = absurd (omega arith)
  parse_loop-fuel x (suc f) (suc g) c s p l a b =
      elim (Bool-cases (ltb c.parse_offset (length x))) [
        | inr t ↦ parse_loop-end x f c t ∙ sym (parse_loop-end x g c t)
        | inl t ↦
            parse_loop-round x f c t
            ∙ on_round-fuel x f g c.parse_offset _ (field-Goes x c s p (ground arith))
                (λ c' s' p' l' n. parse_loop-fuel x f g c' s' p' l' (omega arith) (omega arith))
            ∙ sym (parse_loop-round x g c t)
      ]
