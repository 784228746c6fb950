-- ===== src/Redis/Timestamps.antt =====
-- protos/redis/redis.go, `Parse`: the times of the messages that it hands on.
use packetbeat.Base.{
  ℕ, zero, suc, ◌++◌, ◌≡◌, inl, inr, refl, Bool, false, ◌||◌, List, [], ◌∷◌, Option, none, some,
  length, ltb, arith, Bool-cases,
}
use packetbeat.Base.Text.{Bytes}
use packetbeat.Protos.{Packet}
use packetbeat.Tcp.{tcp_max_data_in_stream}
use packetbeat.Redis.{
  RedisMessage, RedisStream, Scan, wait, fail, bulk_count, value, Parsed, waits, failed, complete,
  stuck, add_bulk, add_value, after_scan, finish_bulks, finish_single, parse_loop,
  redis_message_parser, prepare_for_new_message, current_message, stream_loop, parse_stream,
  new_message,
}

-- A parser's result whose message has the time `t`.
abbrev HasTime : ℕ → Parsed → Type 0
HasTime t (waits m off err) = m.ts ≡ t
HasTime t failed = Unit
HasTime t (complete m off) = m.ts ≡ t
HasTime t stuck = Unit

module _ (t : ℕ) (next : RedisMessage → ℕ → Bool → Parsed)
    (later : (m : RedisMessage) (off : ℕ) (err : Bool)
      → m.ts ≡ t
      → HasTime t (next m off err)) where
  add_value-HasTime :
      (v : Bytes) (off : ℕ) (err : Bool) (m : RedisMessage)
      → m.ts ≡ t
      → HasTime t (add_value next v off err m)
  unfolding add_value add_bulk finish_bulks finish_single
  add_value-HasTime v off err m e = ground (arith, later (add_bulk v m) off err)

  after_scan-HasTime :
      (m : RedisMessage) (offset : ℕ) (err : Bool) (r : Scan)
      → m.ts ≡ t
      → HasTime t (after_scan next m offset err r)
  unfolding after_scan
  after_scan-HasTime m offset err wait e = e
  after_scan-HasTime m offset err fail e = tt
  after_scan-HasTime m offset err (bulk_count n off) e = later _ off err e
  after_scan-HasTime m offset err (value v off err') e = add_value-HasTime v off (err || err') m e

parse_loop-HasTime :
    (t fuel : ℕ) (bytes : Bytes) (m : RedisMessage) (offset : ℕ) (err : Bool)
    → m.ts ≡ t
    → HasTime t (parse_loop fuel bytes m offset err)
unfolding parse_loop
parse_loop-HasTime t zero bytes m offset err e = tt
parse_loop-HasTime t (suc fuel) bytes m offset err e =
    elim (Bool-cases (ltb offset (length bytes))) [
      | inr f ↦ rw (f, parse_loop) e
      | inl l ↦
          rw (l, parse_loop)
            (after_scan-HasTime t (parse_loop fuel bytes)
              (λ m' off err' e'. parse_loop-HasTime t fuel bytes m' off err' e') m offset err _ e)
    ]

-- The messages handed on, in their order.
abbrev pub log : RedisMessage → List RedisMessage → List RedisMessage
log m ms = ms ++ (m ∷ [])

abbrev pub AllAt : ℕ → List RedisMessage → Type 0
AllAt t [] = Unit
AllAt t (m ∷ ms) = (m.ts ≡ t) × AllAt t ms

AllAt-log :
    (t : ℕ) (m : RedisMessage) (ms : List RedisMessage) → m.ts ≡ t → AllAt t ms → AllAt t (log m ms)
AllAt-log t m [] e h = (e, tt)
AllAt-log t m (x ∷ ms) e (a, h) = (a, AllAt-log t m ms e h)

-- All messages handed on have the time `t`, and so has the message that the stream works on.
abbrev pub Stamped : ℕ → Option RedisStream × List RedisMessage → Type 0
Stamped t (none, ms) = AllAt t ms
Stamped t (some s, ms) = AllAt t ms × ((m : RedisMessage) × (s.message ≡ some m) × (m.ts ≡ t))

abbrev pub Stamped? : ℕ → Option (Option RedisStream × List RedisMessage) → Type 0
Stamped? t none = Unit
Stamped? t (some r) = Stamped t r

stream_loop-Stamped :
    (t fuel ts : ℕ) (s : RedisStream) (ms : List RedisMessage)
    → Stamped t (some s, ms)
    → Stamped? t (stream_loop log fuel ts s ms)
unfolding stream_loop
stream_loop-Stamped t zero ts s ms h = tt
stream_loop-Stamped t (suc fuel) ts s ms (all, (m, cur, at)) =
    elim (Bool-cases (ltb 0 (length s.payload))) [
      | inr f ↦ rw (f, stream_loop) (all, (m, cur, at))
      | inl l ↦
          rw (l, stream_loop)
            (go (redis_message_parser s.payload (current_message ts s.message) s.parse_offset)
              (unfold redis_message_parser current_message in
                parse_loop-HasTime t _ s.payload _ s.parse_offset false
                  (rw (cur, current_message) at))
              (λ s' ms' h'. stream_loop-Stamped t fuel ts s' ms' h'))
    ]
  where
    go :
        (r : Parsed)
        → HasTime t r
        → ((s' : RedisStream) (ms' : List RedisMessage)
            → Stamped t (some s', ms')
            → Stamped? t (stream_loop log fuel ts s' ms'))
        → Stamped? t (elim r [
          | stuck ↦ none
          | failed ↦ some (none, ms)
          | waits m off iserror ↦
              some (some (record s { parse_offset = off; message = some m }), ms)
          | complete m off ↦
              stream_loop log fuel ts (prepare_for_new_message s.payload m off) (log m ms)
        ])
    go (waits m' off err) e k = (all, (m', refl, e))
    go failed e k = all
    go (complete m' off) e k =
        k _ _
          (AllAt-log t m' ms e all, (new_message m'.ts, unfold prepare_for_new_message in refl, e))
    go stuck e k = tt

-- The first packet of a stream gives its time to the messages in it. From then on, whatever the
-- times of the packets are, every message that the stream hands on has the time that its current
-- message had before the packet, and passes it on to the next: the time of the first packet.
pub parse_stream-Stamped :
    (pkt : Packet) (s : RedisStream) (ms : List RedisMessage) (t : ℕ)
    → Stamped? pkt.ts (parse_stream log pkt none [])
      × (Stamped t (some s, ms) → Stamped? t (parse_stream log pkt (some s) ms))
unfolding parse_stream
parse_stream-Stamped pkt s ms t = (
  stream_loop-Stamped pkt.ts _ pkt.ts _ [] (tt, (new_message pkt.ts, refl, refl)),
  λ h. elim (Bool-cases (ltb tcp_max_data_in_stream (length (s.payload ++ pkt.payload)))) [
    | inl b ↦ rw b h.0
    | inr b ↦
        rw b (stream_loop-Stamped t _ pkt.ts (record s { payload = s.payload ++ pkt.payload }) ms h)
  ],
)
