-- ===== src/Pgsql/Streaming.antt =====
-- protos/pgsql/pgsql.go, the loop of `Parse`, and `GapInStream`: where they end, and what they
-- leave of the streams.
use packetbeat.Base.{
  ℕ, zero, suc, ◌+◌, ◌-◌, ◌≤◌, ◌<◌, ◌++◌, ◌≡◌, inl, inr, refl, sym, ap, subst, ◌∙◌, Bool, true,
  false, Option, none, some, length, ltb, drop, take, drop-drop, length-drop, arith, Option-cases,
  Bool-cases, if◌then◌else◌,
}
use packetbeat.Base.Text.{Bytes}
use packetbeat.Protos.{Packet}
use packetbeat.Tcp.{tcp_max_data_in_stream}
use packetbeat.Base.Slice.{Buffer}
use packetbeat.Pgsql.Message.{
  Common, PgsqlMessage, Cursor, Round, next, waits, complete, panicked, spent,
}
use packetbeat.Pgsql.{u32_at, special_command, pgsql_message_parser}
use packetbeat.Pgsql.Termination.{NoEmptyStartup, Ends, pgsql_message_parser-Ends}
use packetbeat.Pgsql.Stream.{
  PgsqlStream, new_stream, current_message, prepare_for_new_message, Streams, StreamResult, kept,
  recovered, hung, cannot_cut, cannot_drop, Shipped, shipped, failed, ship, stream_loop, expecting,
  parse_streams, flush_message, gap_in_streams,
}

-- The message of a stream, where there is one, starts at or before the offset.
abbrev pub IsReady : Option PgsqlStream → Type 0
IsReady none = Unit
IsReady (some s) = (current_message 0 s.message).start ≤ s.parse_offset

-- The call has returned, or its panic was recovered, and both streams are ready where they are kept.
abbrev pub AreReady : {W : Type 0} → StreamResult W → Type 0
AreReady (kept priv w) = IsReady priv.this × IsReady priv.other
AreReady (recovered w) = Unit
AreReady hung = ⊥

u32_at-drop :
    (lib : Common) (d : Buffer) (k offset to : ℕ)
    → to ≡ k + offset
    → u32_at lib (record d { bytes = drop k d.bytes }) offset ≡ u32_at lib d to
u32_at-drop lib d k offset to e = ap (λ b. lib.ntohl (take 4 b)) (drop-drop to offset k d.bytes e)

special_command-drop :
    (lib : Common) (d : Buffer) (k offset : ℕ)
    → special_command lib (record d { bytes = drop k d.bytes }) offset
      ≡ special_command lib d (k + offset)
unfolding special_command
special_command-drop lib d k offset =
    let shorter : length (drop k d.bytes) - offset ≡ length d.bytes - (k + offset) =
      omega (arith, length-drop k d.bytes) in
    let len = u32_at-drop lib d k offset (k + offset) refl in
    let code = u32_at-drop lib d k (offset + 4) (k + offset + 4) (omega arith) in
    cc (shorter, len, code)

NoEmptyStartup-drop :
    (lib : Common) (d : Buffer) (k : ℕ)
    → NoEmptyStartup lib d
    → NoEmptyStartup lib (record d { bytes = drop k d.bytes })
NoEmptyStartup-drop lib d k n offset e =
    rw (u32_at-drop lib d k offset (k + offset) refl)
      (n (k + offset) (sym (special_command-drop lib d k offset) ∙ e))

start-current_message :
    (t ts : ℕ) (m : Option PgsqlMessage)
    → (current_message t m).start ≡ (current_message ts m).start
start-current_message t ts none = refl
start-current_message t ts (some m) = refl

module _ {W : Type 0} (handle : PgsqlMessage → W → W) where
  -- A message that has been handled leaves the data, and the other stream ready.
  abbrev LeavesReady : Buffer → Shipped W → Type 0
  LeavesReady d (shipped s other w) = (s.buffer ≡ d) × IsReady other
  LeavesReady d (failed w) = Unit

  ship-LeavesReady :
      (m : PgsqlMessage) (s : PgsqlStream) (other : Option PgsqlStream) (w : W)
      → IsReady other
      → LeavesReady s.buffer (ship handle m s other w)
  unfolding ship
  ship-LeavesReady m s none w r = ground arith
  ship-LeavesReady m s (some o) w r = ground arith

  module _ (lib : Common) (max max_rows : ℕ) where
    abbrev LoopIsReady : ℕ → ℕ → Type 0
    LoopIsReady fuel ts =
        (s : PgsqlStream) (other : Option PgsqlStream) (w : W)
        → length s.buffer.bytes < fuel
        → NoEmptyStartup lib s.buffer
        → IsReady (some s)
        → IsReady other
        → AreReady (stream_loop handle lib max max_rows fuel ts s other w)

    after :
        (fuel ts : ℕ) (d : Buffer) (m : PgsqlMessage) (h : Shipped W)
        → LoopIsReady fuel ts
        → NoEmptyStartup lib d
        → length d.bytes ≤ fuel
        → 0 < m.end
        → m.end ≤ length d.bytes
        → LeavesReady d h
        → AreReady (elim h [
          | failed w' ↦ recovered w'
          | shipped s' other' w' ↦ elim (cannot_drop d m) [
            | true ↦ recovered w'
            | false ↦
                stream_loop handle lib max max_rows fuel ts (prepare_for_new_message m s') other' w'
          ]
        ])
    after fuel ts d m (failed w') k n f z l h = tt
    after fuel ts d m (shipped s' other' w') k n f z l h =
        let fits : cannot_drop d m ≡ false = ground (arith, l) in
        let s'' = prepare_for_new_message m s' in
        let shorter : length (drop m.end s'.buffer.bytes) < fuel =
          rw h.0 (omega (arith, length-drop m.end d.bytes)) in
        let quiet : NoEmptyStartup lib (record (s'.buffer) { bytes = drop m.end s'.buffer.bytes }) =
          NoEmptyStartup-drop lib s'.buffer m.end (subst (NoEmptyStartup lib) (sym h.0) n) in
        rw fits (
          k s'' other' w' (unfold prepare_for_new_message in shorter)
            (unfold prepare_for_new_message in quiet)
            (unfold prepare_for_new_message in omega arith) h.1)

    stream_loop-AreReady : (fuel ts : ℕ) → LoopIsReady fuel ts
    unfolding stream_loop
    stream_loop-AreReady zero ts s other w f n r o = absurd (omega arith)
    stream_loop-AreReady (suc fuel) ts s other w f n r o =
        elim (Bool-cases (ltb 0 (length s.buffer.bytes))) [
          | inr e ↦ rw (stream_loop, e) (r, o)
          | inl t ↦
              rw (stream_loop, t)
                (go (pgsql_message_parser lib s.buffer max max_rows s.expect_ssl_response c)
                  (pgsql_message_parser-Ends lib s.buffer max max_rows s.expect_ssl_response c n
                    (omega (arith, start-current_message 0 ts s.message)))
                  (stream_loop-AreReady fuel ts))
        ]
      where
        c : Cursor
        c = record {
          parse_offset = s.parse_offset;
          parse_state = s.parse_state;
          message = current_message ts s.message;
        }

        go :
            (r : Round)
            → Ends s.buffer r
            → LoopIsReady fuel ts
            → AreReady (elim r [
              | next c ↦ hung
              | spent ↦ hung
              | panicked ↦ recovered w
              | waits c ↦
                  kept
                    (record {
                      this = some (record s {
                        parse_offset = c.parse_offset;
                        parse_state = c.parse_state;
                        message = some c.message;
                      });
                      other = other;
                    })
                    w
              | complete c ↦ elim (cannot_cut s.buffer c.message) [
                | true ↦ recovered w
                | false ↦ elim (ship handle c.message s other w) [
                  | failed w' ↦ recovered w'
                  | shipped s' other' w' ↦ elim (cannot_drop s.buffer c.message) [
                    | true ↦ recovered w'
                    | false ↦
                        stream_loop handle lib max max_rows fuel ts
                          (prepare_for_new_message c.message s')
                          other'
                          w'
                  ]
                ]
              ]
            ])
        go (next c') e k = e
        go spent e k = e
        go panicked e k = tt
        go (waits c') e k = (e, o)
        go (complete c') e k =
            let fits : cannot_cut s.buffer c'.message ≡ false = ground (arith, e) in
            rw fits (
              after fuel ts s.buffer c'.message (ship handle c'.message s other w) k n (omega arith)
                (omega (arith, e)) (omega (arith, e)) (ship-LeavesReady c'.message s other w o))

-- The data of a stream once a packet is appended.
abbrev pub with_payload : Packet → Bytes → Option PgsqlStream → Buffer
with_payload pkt spare none = record { bytes = pkt.payload; spare = spare }
with_payload pkt spare (some s) = record { bytes = s.buffer.bytes ++ pkt.payload; spare = spare }

module _ {W : Type 0} (handle : PgsqlMessage → W → W) where
  gap_in_streams-AreReady :
      (this other : Option PgsqlStream) (w : W)
      → IsReady this
      → IsReady other
      → AreReady (gap_in_streams handle (record { this = this; other = other }) w)
  unfolding gap_in_streams flush_message prepare_for_new_message
  gap_in_streams-AreReady none other w r o = (r, o)
  gap_in_streams-AreReady (some s) other w r o = elim (Option-cases (s.message)) [
    | inl e ↦ rw e (ground arith)
    | inr (m, e) ↦ rw e (ground arith)
  ]

  expecting-AreReady :
      (lib : Common) (max max_rows fuel ts : ℕ) (s : PgsqlStream) (other : Option PgsqlStream)
      (w : W)
      → length s.buffer.bytes < fuel
      → NoEmptyStartup lib s.buffer
      → IsReady (some s)
      → IsReady other
      → AreReady (stream_loop handle lib max max_rows fuel ts (expecting other s) other w)
  expecting-AreReady lib max max_rows fuel ts s none w f n r o =
      stream_loop-AreReady handle lib max max_rows fuel ts s none w f n r o
  expecting-AreReady lib max max_rows fuel ts s (some q) w f n r o = go q.seen_ssl_request
    where
      go :
          (b : Bool)
          → AreReady (
              stream_loop handle lib max max_rows fuel ts
                (if b then record s { expect_ssl_response = true } else s)
                (some q)
                w)
      go true =
          stream_loop-AreReady handle lib max max_rows fuel ts
            (record s { expect_ssl_response = true }) (some q) w f n r o
      go false = stream_loop-AreReady handle lib max max_rows fuel ts s (some q) w f n r o

  parse_streams-AreReady :
      (lib : Common) (max max_rows : ℕ) (pkt : Packet) (spare : Bytes)
      (this other : Option PgsqlStream) (w : W)
      → NoEmptyStartup lib (with_payload pkt spare this)
      → IsReady this
      → IsReady other
      → AreReady (
          parse_streams handle lib max max_rows pkt spare (record { this = this; other = other }) w)
  unfolding parse_streams
  parse_streams-AreReady lib max max_rows pkt spare none other w n r o =
      expecting-AreReady lib max max_rows _ pkt.ts (new_stream pkt spare) other w (omega arith) n
        (omega arith) o
  parse_streams-AreReady lib max max_rows pkt spare (some s) other w n r o =
      let d = with_payload pkt spare (some s) in
      elim (Bool-cases (ltb tcp_max_data_in_stream (length d.bytes))) [
        | inl e ↦ rw e (tt, o)
        | inr e ↦ rw e (
            expecting-AreReady lib max max_rows _ pkt.ts (record s { buffer = d }) other w
              (omega arith) n r o)
      ]

-- `Parse` returns, or recovers from a panic, where no start-up message of the data has the length
-- 0, whatever the handler does, and so does `GapInStream`; both keep each stream's message
-- starting at or before its offset, from streams where it does.
pub parse-AreReady :
    {W : Type 0} (handle : PgsqlMessage → W → W) (lib : Common) (max max_rows : ℕ) (pkt : Packet)
    (spare : Bytes) (priv : Streams) (w : W)
    → NoEmptyStartup lib (with_payload pkt spare priv.this)
    → IsReady priv.this
    → IsReady priv.other
    → AreReady (parse_streams handle lib max max_rows pkt spare priv w)
      × AreReady (gap_in_streams handle priv w)
parse-AreReady handle lib max max_rows pkt spare priv w n r o = (
  parse_streams-AreReady handle lib max max_rows pkt spare priv.this priv.other w n r o,
  gap_in_streams-AreReady handle priv.this priv.other w r o,
)
