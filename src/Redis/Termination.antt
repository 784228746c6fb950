-- ===== src/Redis/Termination.antt =====
-- protos/redis/redis.go, the loops of `redisMessageParser` and `Parse`: both end.
use packetbeat.Base.{
  ℕ, zero, suc, ◌+◌, ◌≤◌, ◌<◌, ◌++◌, inl, inr, Bool, false, ◌||◌, Option, none, some, length, ltb,
  length-drop, length-append, arith, Bool-cases,
}
use packetbeat.Base.Text.{Bytes}
use packetbeat.Protos.{Packet}
use packetbeat.Redis.Lines.{Reads, scan-Reads}
use packetbeat.Tcp.{tcp_max_data_in_stream}
use packetbeat.Redis.{
  RedisMessage, RedisStream, Scan, wait, fail, bulk_count, value, scan, Parsed, waits, failed,
  complete, stuck, add_bulk, add_value, after_scan, parse_loop, redis_message_parser,
  prepare_for_new_message, current_message, stream_loop, parse_stream,
}

-- Where the parser stands when it returns: never stuck, and a complete message takes two bytes
-- at least.
abbrev pub Ends : ℕ → ℕ → Parsed → Type 0
Ends lo hi (waits m off err) = (lo ≤ off) × (off ≤ hi)
Ends lo hi failed = Unit
Ends lo hi (complete m off) = (lo + 2 ≤ off) × (off ≤ hi)
Ends lo hi stuck = ⊥

Ends-mono : (a b hi : ℕ) (r : Parsed) → a ≤ b → Ends b hi r → Ends a hi r
Ends-mono a b hi (waits m off err) h k = omega arith
Ends-mono a b hi failed h k = tt
Ends-mono a b hi (complete m off) h k = omega arith
Ends-mono a b hi stuck h k = k

module _ (next : RedisMessage → ℕ → Bool → Parsed) (offset hi : ℕ)
    (later : (m : RedisMessage) (off : ℕ) (err : Bool)
      → offset + 2 ≤ off
      → off ≤ hi
      → Ends off hi (next m off err)) where
  later_from :
      (m : RedisMessage) (off : ℕ) (err : Bool)
      → offset + 2 ≤ off
      → off ≤ hi
      → Ends offset hi (next m off err)
  later_from m off err a b = Ends-mono offset off hi _ (omega arith) (later m off err a b)

  add_value-Ends :
      (v : Bytes) (off : ℕ) (err : Bool) (m : RedisMessage)
      → offset + 2 ≤ off
      → off ≤ hi
      → Ends offset hi (add_value next v off err m)
  unfolding add_value
  add_value-Ends v off err m a b = ground (arith, later_from (add_bulk v m) off err a b)

  after_scan-Ends :
      (m : RedisMessage) (err : Bool) (r : Scan)
      → offset ≤ hi
      → Reads offset hi r
      → Ends offset hi (after_scan next m offset err r)
  unfolding after_scan
  after_scan-Ends m err wait h k = omega arith
  after_scan-Ends m err fail h k = tt
  after_scan-Ends m err (bulk_count n off) h (a, b) = later_from _ off err a b
  after_scan-Ends m err (value v off err') h (a, b) = add_value-Ends v off (err || err') m a b

parse_loop-Ends :
    (fuel : ℕ) (bytes : Bytes) (m : RedisMessage) (offset : ℕ) (err : Bool)
    → offset ≤ length bytes
    → length bytes < offset + fuel
    → Ends offset (length bytes) (parse_loop fuel bytes m offset err)
unfolding parse_loop
parse_loop-Ends zero bytes m offset err h f = absurd (omega arith)
parse_loop-Ends (suc fuel) bytes m offset err h f = elim (Bool-cases (ltb offset (length bytes))) [
  | inl t ↦
      rw (t, parse_loop)
        (after_scan-Ends (parse_loop fuel bytes) offset (length bytes)
          (λ m' off err' a b. parse_loop-Ends fuel bytes m' off err' b (omega arith)) m err
          (scan bytes offset) h (scan-Reads bytes offset h))
  | inr e ↦ rw (e, parse_loop) (omega arith)
]

-- `redisMessageParser` returns from every offset inside the data: it is never stuck, it leaves
-- the offset inside the data, and a complete message takes two bytes at least.
redis_message_parser-Ends :
    (bytes : Bytes) (m : RedisMessage) (offset : ℕ)
    → offset ≤ length bytes
    → Ends offset (length bytes) (redis_message_parser bytes m offset)
unfolding redis_message_parser
redis_message_parser-Ends bytes m offset h =
    parse_loop-Ends (suc (length bytes)) bytes m offset false h (omega arith)

-- A stream between two packets.
pub record IsStream (s : RedisStream) : Type 0 where
  pub inside : s.parse_offset ≤ length s.payload

abbrev pub IsStream? : Option RedisStream → Type 0
IsStream? none = Unit
IsStream? (some s) = IsStream s

-- The loop of `Parse` has ended, and left a stream or none.
abbrev pub Returns : {W : Type 0} → Option (Option RedisStream × W) → Type 0
Returns none = ⊥
Returns (some (s, w)) = IsStream? s

module _ {W : Type 0} (handle : RedisMessage → W → W) where
  stream_loop-Returns :
      (fuel ts : ℕ) (s : RedisStream) (w : W)
      → IsStream s
      → length s.payload < fuel
      → Returns (stream_loop handle fuel ts s w)
  unfolding stream_loop
  stream_loop-Returns zero ts s w v f = absurd (omega arith)
  stream_loop-Returns (suc fuel) ts s w v f = elim (Bool-cases (ltb 0 (length s.payload))) [
    | inr e ↦ rw (e, stream_loop) v
    | inl t ↦
        rw (t, stream_loop)
          (go (redis_message_parser s.payload (current_message ts s.message) s.parse_offset)
            (redis_message_parser-Ends s.payload _ s.parse_offset v.inside)
            (λ s' w' v' f'. stream_loop-Returns fuel ts s' w' v' f'))
  ]
    where
      go :
          (r : Parsed)
          → Ends s.parse_offset (length s.payload) r
          → ((s' : RedisStream) (w' : W)
              → IsStream s'
              → length s'.payload < fuel
              → Returns (stream_loop handle fuel ts s' w'))
          → Returns {W = W} (elim r [
            | stuck ↦ none
            | failed ↦ some (none, w)
            | waits m off iserror ↦
                some (some (record s { parse_offset = off; message = some m }), w)
            | complete m off ↦
                stream_loop handle fuel ts (prepare_for_new_message s.payload m off) (handle m w)
          ])
      go (waits m off err) e k = record { inside = e.1 }
      go failed e k = tt
      go (complete m off) e k =
          k _ _ (unfold prepare_for_new_message in record { inside = omega arith })
            (unfold prepare_for_new_message in omega (arith, length-drop off s.payload))
      go stuck e k = absurd e

  -- `Parse` ends on every packet: its loops never run out of rounds, and it leaves a stream whose
  -- offset lies inside its data, or none.
  pub parse_stream-Returns :
      (pkt : Packet) (s : Option RedisStream) (w : W)
      → IsStream? s
      → Returns (parse_stream handle pkt s w)
  unfolding parse_stream
  parse_stream-Returns pkt none w v =
      stream_loop-Returns _ pkt.ts _ w (record { inside = omega arith }) (omega arith)
  parse_stream-Returns pkt (some s) w v =
      elim (Bool-cases (ltb tcp_max_data_in_stream (length (s.payload ++ pkt.payload)))) [
        | inl t ↦ rw t tt
        | inr e ↦ rw e (
            stream_loop-Returns _ pkt.ts _ w
              (record { inside = omega (arith, length-append s.payload pkt.payload, v.inside) })
              (omega arith))
      ]
