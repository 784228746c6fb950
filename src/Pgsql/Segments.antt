-- ===== src/Pgsql/Segments.antt =====
-- protos/pgsql/pgsql.go, `Parse` on a query that comes in several packets.
use packetbeat.Base.{
  ℕ, suc, ◌+◌, ◌≤◌, ◌<◌, ◌++◌, ◌≡◌, inl, inr, refl, sym, ap, ◌∙◌, Bool, false, List, [], ◌∷◌,
  Option, none, some, length, length-append, append_assoc, append-nil, ltb, arith, Bool-cases,
}
use packetbeat.Base.Text.{Bytes}
use packetbeat.Protos.{Packet}
use packetbeat.Tcp.{tcp_max_data_in_stream}
use packetbeat.Pgsql.Message.{Common, IsCommon, IsText, PgsqlMessage, new_message}
use packetbeat.Pgsql.Framing.{u32_bytes, query_packet, query_message}
use packetbeat.Pgsql.Stream.{
  PgsqlStream, Streams, StreamResult, kept, recovered, hung, stream_loop, parse_streams,
}
use packetbeat.Pgsql.Loop.{
  begun_message, stream_at, expects, expecting-stream_at, loop_part, loop_whole,
}

-- A packet, and what the array of the data holds behind them once it is appended.
pub record Segment : Type 0 where
  pub packet : Packet
  pub spare : Bytes

abbrev pub payloads : List Segment → Bytes
payloads [] = []
payloads (s ∷ ss) = s.packet.payload ++ payloads ss

abbrev pub NoneEmpty : List Segment → Type 0
NoneEmpty [] = Unit
NoneEmpty (s ∷ ss) = (0 < length s.packet.payload) × NoneEmpty ss

module _ {W : Type 0} (handle : PgsqlMessage → W → W) (lib : Common) (max max_rows : ℕ) where
  -- The packets of one direction, one after the other; a recovered call leaves no private data.
  abbrev pub parse_segments : List Segment → Streams → W → StreamResult W
  parse_segments [] priv w = kept priv w
  parse_segments (s ∷ ss) priv w =
      elim (parse_streams handle lib max max_rows s.packet s.spare priv w) [
        | kept priv' w' ↦ parse_segments ss priv' w'
        | recovered w' ↦ parse_segments ss (record { this = none; other = none }) w'
        | hung ↦ hung
      ]

abbrev data_of : Option PgsqlStream → Bytes
data_of none = []
data_of (some s) = s.buffer.bytes

-- The handler has been called once, with the message; no data are left, and the other stream is
-- as it was.
abbrev pub Delivers :
    {W : Type 0}
    → (PgsqlMessage → W → W)
    → PgsqlMessage
    → Option PgsqlStream
    → W
    → StreamResult W
    → Type 0
Delivers handle m other w (kept priv w') =
    (w' ≡ handle m w) × (data_of priv.this ≡ []) × (priv.other ≡ other)
Delivers handle m other w (recovered w') = ⊥
Delivers handle m other w hung = ⊥

module _ {W : Type 0} (handle : PgsqlMessage → W → W) (lib : Common) (ok : IsCommon lib)
    (max max_rows : ℕ) (q : Bytes) (t : IsText q) (h : length q + 6 ≤ tcp_max_data_in_stream)
    (ts : ℕ) (other : Option PgsqlStream) (w : W) where
  abbrev DeliversFrom : List Segment → Type 0
  DeliversFrom ss =
      (a spare : Bytes) (seen expect asks : Bool)
      → a ++ payloads ss ≡ query_packet q
      → 0 < length a
      → length a < length q + 6
      → NoneEmpty ss
      → Delivers handle (query_message q (new_message ts)) other w (
          parse_segments handle lib max max_rows ss
            (record {
              this = some (stream_at a spare seen expect (some (begun_message ts asks)));
              other = other;
            })
            w)

  no_payloads : (ss : List Segment) → NoneEmpty ss → length (payloads ss) ≡ 0 → ss ≡ []
  no_payloads [] n e = refl
  no_payloads (s ∷ ss) n e =
      absurd (omega (arith, n.0, length-append s.packet.payload (payloads ss)))

  -- What follows the loop, once a payload is appended.
  loop-Delivers :
      (ss : List Segment) (ts' : ℕ) (a spare : Bytes) (seen expect asks : Bool)
      → DeliversFrom ss
      → a ++ payloads ss ≡ query_packet q
      → 0 < length a
      → NoneEmpty ss
      → Delivers handle
          (query_message q (new_message ts))
          other
          w
          (elim (stream_loop handle lib max max_rows
            (suc (length a))
            ts'
            (stream_at a spare seen expect (some (begun_message ts asks)))
            other
            w) [
              | kept priv' w' ↦ parse_segments handle lib max max_rows ss priv' w'
              | recovered w' ↦
                  parse_segments handle lib max max_rows ss
                    (record { this = none; other = none })
                    w'
              | hung ↦ hung
            ])
  loop-Delivers ss ts' a spare seen expect asks k e z n =
      let len : length a + length (payloads ss) ≡ length q + 6 =
        omega (arith, ap length e, length-append a (payloads ss), length-append q (0 ∷ [])) in
      elim (Bool-cases (ltb (length a) (length q + 6))) [
        | inl l ↦
            rw
              (loop_part handle lib ok max max_rows q t h ts other w (length a) ts' a (payloads ss)
                spare seen expect asks e z (ground (arith, l)))
              (k a spare seen expect _ e z (ground (arith, l)) n)
        | inr l ↦
            let last : ss ≡ [] = no_payloads ss n (ground (arith, l, len)) in
            let all : a ≡ query_packet q =
              sym (append-nil a) ∙ ap (λ x. a ++ payloads x) (sym last) ∙ e in
            rw
              (
                all,
                loop_whole handle lib ok max max_rows q t h ts other w
                    (length (u32_bytes (length q + 5) ++ (q ++ 0 ∷ []))) ts' spare seen expect asks,
                last,
              )
              (refl, refl, refl)
      ]

  segments-DeliversFrom : (ss : List Segment) → DeliversFrom ss
  unfolding parse_streams
  segments-DeliversFrom [] a spare seen expect asks e z l n =
      absurd (omega (arith, ap length e, length-append a [], length-append q (0 ∷ [])))
  segments-DeliversFrom (s ∷ ss) a spare seen expect asks e z l n =
      let x = a ++ s.packet.payload in
      let whole : x ++ payloads ss ≡ query_packet q =
        append_assoc a s.packet.payload (payloads ss) ∙ e in
      let fits : ltb tcp_max_data_in_stream (length x) ≡ false =
        ground (arith, ap length whole, length-append x (payloads ss), length-append q (0 ∷ [])) in
      rw
        (
          parse_segments,
          parse_streams,
          fits,
          expecting-stream_at other x s.spare seen expect (some (begun_message ts asks)),
        )
        (loop-Delivers ss s.packet.ts x s.spare seen (expects other expect) asks
          (segments-DeliversFrom ss) whole (omega (arith, length-append a s.packet.payload)) n.1)

-- A query that comes in any number of packets, none of them empty, on a connection of which nothing
-- has been seen in this direction: once the last byte has come, the handler has been called
-- exactly once, with the query as its text and the time of the first packet, no data are left, and
-- the other direction is as it was. The text has no byte 0, and the query is not longer than the
-- data of a stream may be.
pub query_segments-Delivers :
    {W : Type 0} (handle : PgsqlMessage → W → W) (lib : Common) (max max_rows : ℕ) (q : Bytes)
    (s : Segment) (ss : List Segment) (other : Option PgsqlStream) (w : W)
    → IsCommon lib
    → IsText q
    → length q + 6 ≤ tcp_max_data_in_stream
    → payloads (s ∷ ss) ≡ query_packet q
    → NoneEmpty (s ∷ ss)
    → Delivers handle
        (query_message q (new_message s.packet.ts))
        other
        w
        (parse_segments handle lib max max_rows (s ∷ ss) (record { this = none; other = other }) w)
unfolding parse_streams
query_segments-Delivers handle lib max max_rows q s ss other w ok t h e n =
    rw
      (
        parse_segments,
        parse_streams,
        expecting-stream_at other s.packet.payload s.spare false false
            (some (begun_message s.packet.ts false)),
      )
      (loop-Delivers handle lib ok max max_rows q t h s.packet.ts other w ss s.packet.ts
        s.packet.payload s.spare false (expects other false) false
        (segments-DeliversFrom handle lib ok max max_rows q t h s.packet.ts other w ss) e n.0 n.1)
