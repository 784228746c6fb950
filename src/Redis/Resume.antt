-- ===== src/Redis/Resume.antt =====
-- protos/redis/redis.go, `redisMessageParser`: a message that comes in several segments.
use packetbeat.Base.{
  ℕ, zero, suc, ◌+◌, ◌≤◌, ◌<◌, ◌++◌, ◌≡◌, ◌⊎◌, inl, inr, refl, ◌∙◌, Bool, true, false, ◌||◌, length,
  ltb, lt→ltb, ltb→lt, length-append, arith, Bool-cases,
}
use packetbeat.Base.Int.{is_positive}
use packetbeat.Base.Text.{Bytes}
use packetbeat.Redis.Lines.{Reads, scan-Reads, scan-append, IsDecided}
use packetbeat.Redis.{
  RedisMessage, Scan, wait, fail, bulk_count, value, scan, Parsed, waits, failed, complete, stuck,
  add_bulk, add_value, after_scan, parse_loop, redis_message_parser, is_zero,
}

-- What the next rounds must agree on, for a relation between results.
module _ (P : Parsed → Parsed → Type 0) (P-failed : P failed failed)
    (P-complete : (m : RedisMessage) (off : ℕ) → P (complete m off) (complete m off))
    (next next' : RedisMessage → ℕ → Bool → Parsed) (offset hi : ℕ)
    (agree : (m : RedisMessage) (off : ℕ) (err : Bool)
      → offset + 2 ≤ off
      → off ≤ hi
      → P (next m off err) (next' m off err)) where
  add_value-agree :
      (v : Bytes) (off : ℕ) (err : Bool) (m : RedisMessage)
      → offset + 2 ≤ off
      → off ≤ hi
      → P (add_value next v off err m) (add_value next' v off err m)
  unfolding add_value
  add_value-agree v off err m a b = elim (Bool-cases (is_positive m.number_of_bulks)) [
    | inr f ↦ rw f (P-complete _ off)
    | inl t ↦ rw t (elim (Bool-cases (is_zero (add_bulk v m).number_of_bulks)) [
      | inl z ↦ rw z (P-complete _ off)
      | inr n ↦ rw n (agree (add_bulk v m) off err a b)
    ])
  ]

  after_scan-agree :
      (m : RedisMessage) (err : Bool) (r : Scan)
      → IsDecided r
      → Reads offset hi r
      → P (after_scan next m offset err r) (after_scan next' m offset err r)
  unfolding after_scan
  after_scan-agree m err wait d k = absurd d
  after_scan-agree m err fail d k = P-failed
  after_scan-agree m err (bulk_count n off) d (a, b) = agree _ off err a b
  after_scan-agree m err (value v off err') d (a, b) = add_value-agree v off (err || err') m a b

IsDecided-cases : (r : Scan) → (r ≡ wait) ⊎ IsDecided r
IsDecided-cases wait = inl refl
IsDecided-cases fail = inr tt
IsDecided-cases (bulk_count n off) = inr tt
IsDecided-cases (value v off err) = inr tt

-- Any two supplies of rounds that are enough give the same result.
parse_loop-fuel :
    (f g : ℕ) (bytes : Bytes) (m : RedisMessage) (offset : ℕ) (err : Bool)
    → offset ≤ length bytes
    → length bytes < offset + f
    → length bytes < offset + g
    → parse_loop f bytes m offset err ≡ parse_loop g bytes m offset err
unfolding parse_loop
parse_loop-fuel zero g bytes m offset err h a b = absurd (omega arith)
parse_loop-fuel (suc f) zero bytes m offset err h a b = absurd (omega arith)
parse_loop-fuel (suc f) (suc g) bytes m offset err h a b =
    elim (Bool-cases (ltb offset (length bytes))) [
      | inr e ↦ rw (e, parse_loop)
      | inl t ↦
          rw (t, parse_loop)
            (elim (IsDecided-cases (scan bytes offset)) [
              | inl w ↦ rw w (unfold after_scan in refl)
              | inr d ↦
                  after_scan-agree (λ r r'. r ≡ r') refl (λ m' off. refl) (parse_loop f bytes)
                    (parse_loop g bytes) offset (length bytes)
                    (λ m' off err' x y.
                      parse_loop-fuel f g bytes m' off err' y (omega arith) (omega arith))
                    m err (scan bytes offset) d (scan-Reads bytes offset h)
            ])
    ]

module _ (f : ℕ) (bytes : Bytes) (m : RedisMessage) (offset : ℕ) (err : Bool) where
  at_end :
      ltb offset (length bytes) ≡ false → parse_loop (suc f) bytes m offset err ≡ waits m offset err
  unfolding parse_loop
  at_end e = rw (e, parse_loop)

  at_scan :
      ltb offset (length bytes) ≡ true
      → parse_loop (suc f) bytes m offset err
        ≡ after_scan (parse_loop f bytes) m offset err (scan bytes offset)
  unfolding parse_loop
  at_scan t = rw (t, parse_loop)

  at_wait :
      ltb offset (length bytes) ≡ true
      → scan bytes offset ≡ wait
      → parse_loop (suc f) bytes m offset err ≡ waits m offset err
  at_wait t w = at_scan t ∙ rw w (unfold after_scan in refl)

module _ (bytes more : Bytes) where
  -- The parser on all the bytes, from a place where the loop stands.
  abbrev on_all : RedisMessage → ℕ → Bool → Parsed
  on_all m offset err = parse_loop (suc (length (bytes ++ more))) (bytes ++ more) m offset err

  -- The result on all the bytes, given the one on the first of them.
  abbrev Resumes : Parsed → Parsed → Type 0
  Resumes (waits m off err) r = r ≡ on_all m off err
  Resumes failed r = r ≡ failed
  Resumes (complete m off) r = r ≡ complete m off
  Resumes stuck r = ⊥

  parse_loop-Resumes :
      (f g : ℕ) (m : RedisMessage) (offset : ℕ) (err : Bool)
      → offset ≤ length bytes
      → length bytes < offset + f
      → length (bytes ++ more) < offset + g
      → Resumes (parse_loop f bytes m offset err) (parse_loop g (bytes ++ more) m offset err)
  parse_loop-Resumes zero g m offset err h a b = absurd (omega arith)
  parse_loop-Resumes (suc f) zero m offset err h a b =
      absurd (omega (arith, length-append bytes more))
  parse_loop-Resumes (suc f) (suc g) m offset err h a b =
      elim (Bool-cases (ltb offset (length bytes))) [
        | inr e ↦ rw (at_end f bytes m offset err e) again
        | inl t ↦ elim (IsDecided-cases (scan bytes offset)) [
          | inl w ↦ rw (at_wait f bytes m offset err t w) again
          | inr d ↦
              rw
                (
                  at_scan f bytes m offset err t,
                  at_scan g (bytes ++ more) m offset err (longer t),
                  scan-append bytes more offset h d,
                )
                (after_scan-agree Resumes refl (λ m' off. refl) (parse_loop f bytes)
                  (parse_loop g (bytes ++ more)) offset (length bytes)
                  (λ m' off err' x y.
                    parse_loop-Resumes f g m' off err' y (omega arith) (omega arith))
                  m err (scan bytes offset) d (scan-Reads bytes offset h))
        ]
      ]
    where
      again : parse_loop (suc g) (bytes ++ more) m offset err ≡ on_all m offset err
      again =
          parse_loop-fuel (suc g) _ (bytes ++ more) m offset err
            (omega (arith, length-append bytes more)) b (omega arith)

      longer : ltb offset (length bytes) ≡ true → ltb offset (length (bytes ++ more)) ≡ true
      longer t = lt→ltb _ _ (omega (arith, ltb→lt _ _ t, length-append bytes more))

  -- Where more bytes follow: a parser that returned a complete message or failed would have done the
  -- same on all the bytes, and one that waits, but not inside a multi bulk message with an error reply
  -- in it, goes on from where it stands to what it would have returned on all the bytes. Of a parser
  -- that waits inside such a message nothing is said: it forgets the error reply.
  pub redis_message_parser_resumes :
      (m : RedisMessage) (offset : ℕ)
      → offset ≤ length bytes
      → ((m' : RedisMessage) (off : ℕ)
          → redis_message_parser bytes m offset ≡ complete m' off
          → redis_message_parser (bytes ++ more) m offset ≡ complete m' off)
        × (redis_message_parser bytes m offset ≡ failed
            → redis_message_parser (bytes ++ more) m offset ≡ failed)
        × ((m' : RedisMessage) (off : ℕ)
            → redis_message_parser bytes m offset ≡ waits m' off false
            → redis_message_parser (bytes ++ more) m offset
              ≡ redis_message_parser (bytes ++ more) m' off)
  unfolding redis_message_parser
  redis_message_parser_resumes m offset h =
      let r : Resumes (redis_message_parser bytes m offset)
          (redis_message_parser (bytes ++ more) m offset) =
        parse_loop-Resumes _ _ m offset false h (omega arith) (omega arith) in
      (λ m' off e. rw e at r, λ e. rw e at r, λ m' off e. rw e at r)
