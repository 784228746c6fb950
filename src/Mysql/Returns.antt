-- ===== src/Mysql/Returns.antt =====
-- protos/mysql/mysql.go, the loop of `Parse`: it ends.
use packetbeat.Base.{
  ◌+◌, ◌-◌, take, drop, drop-drop, ap, subst, ◌∙◌, ℕ, zero, suc, ◌≤◌, ◌<◌, ◌++◌, ◌≡◌, inl, inr,
  refl, Bool, true, false, if◌then◌else◌, Option, none, some, length, ltb, length-drop,
  length-append, arith, Bool-cases,
}
use packetbeat.Base.Text.{Bytes}
use packetbeat.Protos.{Packet}
use packetbeat.Tcp.{tcp_max_data_in_stream}
use packetbeat.Mysql.{
  MysqlMessage, Round, next, waits, failed, complete, panicked, mysql_message_parser,
}
use packetbeat.Mysql.Stream.{
  MysqlStream, current_message, cursor_of, prepare_for_new_message, StreamResult, kept, dropped,
  recovered, hung, Handled, done, crashed, hangs, ship, stream_loop, parse_stream,
}
use packetbeat.Mysql.Integers.{slice}
use packetbeat.Mysql.Termination.{Ends, mysql_message_parser-Ends}

-- A stream between two packets.
pub record IsStream (s : MysqlStream) : Type 0 where
  pub offset_inside : s.parse_offset ≤ length s.payload
  pub end_inside : (current_message 0 s.message).end ≤ s.parse_offset

abbrev pub IsStream? : Option MysqlStream → Type 0
IsStream? none = Unit
IsStream? (some s) = IsStream s

-- The loop of `Parse` on some data has ended, and a stream that it keeps is well formed; or the
-- handling of a message, by the handler given, does not end on the bytes from one place of the data to
-- another as its raw bytes.
abbrev pub Returns :
    {W : Type 0} → (MysqlMessage → Bytes → W → Handled W) → Bytes → Option (StreamResult W) → Type 0
Returns handle bytes none = ⊥
Returns handle bytes (some (kept s w)) = IsStream s
Returns handle bytes (some (dropped w)) = Unit
Returns handle bytes (some (recovered w)) = Unit
Returns {W} handle bytes (some hung) =
    (m : MysqlMessage) × (from : ℕ) × (to : ℕ) × (w : W) × (handle m (slice bytes from to) w
      ≡ hangs)

-- What `Parse` has to read: what the stream holds, and the packet's payload.
abbrev pub data_of : Packet → Option MysqlStream → Bytes
data_of pkt none = pkt.payload
data_of pkt (some s) = s.payload ++ pkt.payload

end_of_current :
    (ts : ℕ) (m : Option MysqlMessage) → (current_message ts m).end ≡ (current_message 0 m).end
end_of_current ts none = refl
end_of_current ts (some m) = refl

pub not_done :
    {W : Type 0} (b : Bool) (w : W) (h : Handled W) → (if b then done w else h) ≡ hangs → h ≡ hangs
not_done true w h e = absurd (cc e)
not_done false w h e = e

module _ {W : Type 0} (handle : MysqlMessage → Bytes → W → Handled W) where
  ship_hangs :
      (m : MysqlMessage) (bytes : Bytes) (w : W)
      → ship handle m bytes w ≡ hangs
      → Returns handle bytes (some hung)
  unfolding ship
  ship_hangs m bytes w e = (m, m.start, m.end, w, not_done m.ignore_message w (handle m _ w) e)

  slice-drop :
      (k from to : ℕ) (bytes : Bytes)
      → slice (drop k bytes) from to ≡ slice bytes (k + from) (k + to)
  slice-drop k from to bytes =
      ap (take (to - from)) (drop-drop (k + from) from k bytes refl)
      ∙ ap (λ n. take n (drop (k + from) bytes)) (omega arith)

  -- The data behind some of the data.
  Returns-behind :
      (k : ℕ) (bytes : Bytes) (r : Option (StreamResult W))
      → Returns handle (drop k bytes) r
      → Returns handle bytes r
  Returns-behind k bytes none h = h
  Returns-behind k bytes (some (kept s w)) h = h
  Returns-behind k bytes (some (dropped w)) h = tt
  Returns-behind k bytes (some (recovered w)) h = tt
  Returns-behind k bytes (some hung) (m, from, to, w, e) =
      (m, k + from, k + to, w, subst (λ z. handle m z w ≡ hangs) (slice-drop k from to bytes) e)

  shipped :
      (bytes : Bytes) (h : Handled W) (rest : W → Option (StreamResult W))
      → (h ≡ hangs → Returns handle bytes (some hung))
      → ((w : W) → Returns handle bytes (rest w))
      → Returns handle bytes
          (elim h [ done w' ↦ rest w' | crashed w' ↦ some (recovered w') | hangs ↦ some hung ])
  shipped bytes (done w) rest ne k = k w
  shipped bytes (crashed w) rest ne k = tt
  shipped bytes hangs rest ne k = ne refl

  stream_loop-Returns :
      (fuel ts : ℕ) (s : MysqlStream) (w : W)
      → IsStream s
      → length s.payload < fuel
      → Returns handle s.payload (stream_loop handle fuel ts s w)
  unfolding stream_loop
  stream_loop-Returns zero ts s w v f = absurd (omega arith)
  stream_loop-Returns (suc fuel) ts s w v f = elim (Bool-cases (ltb 0 (length s.payload))) [
    | inr e ↦ rw (e, stream_loop) v
    | inl t ↦
        rw (t, stream_loop)
          (go (mysql_message_parser s.payload (cursor_of ts s))
            (mysql_message_parser-Ends s.payload (cursor_of ts s) (record {
              offset_inside = v.offset_inside;
              end_inside = omega (arith, v.end_inside, end_of_current ts s.message);
            }))
            (λ s' w' v' f'. stream_loop-Returns fuel ts s' w' v' f'))
  ]
    where
      go :
          (r : Option Round)
          → Ends s.payload r
          → ((s' : MysqlStream) (w' : W)
              → IsStream s'
              → length s'.payload < fuel
              → Returns handle s'.payload (stream_loop handle fuel ts s' w'))
          → Returns handle s.payload (elim r [
            | none ↦ none
            | some (next c) ↦ none
            | some failed ↦ some (dropped w)
            | some panicked ↦ some (recovered w)
            | some (waits c) ↦ some (
                kept
                  (record {
                    payload = s.payload;
                    parse_offset = c.parse_offset;
                    parse_state = c.parse_state;
                    is_client = c.is_client;
                    message = some c.message;
                  })
                  w)
            | some (complete c) ↦ elim (ltb c.message.end c.message.start) [
              | true ↦ some (recovered w)
              | false ↦ elim (ship handle c.message s.payload w) [
                | done w' ↦
                    stream_loop handle fuel ts (prepare_for_new_message s.payload c.message) w'
                | crashed w' ↦ some (recovered w')
                | hangs ↦ some hung
              ]
            ]
          ])
      go none e k = absurd e
      go (some (next c)) e k = absurd e
      go (some failed) e k = tt
      go (some panicked) e k = tt
      go (some (waits c)) e k = record {
        offset_inside = e.offset_inside;
        end_inside = e.end_inside;
      }
      go (some (complete c)) e k = elim (Bool-cases (ltb c.message.end c.message.start)) [
        | inl t ↦ rw t tt
        | inr f' ↦ rw f' (
            shipped s.payload _
              (stream_loop handle fuel ts (prepare_for_new_message s.payload c.message))
              (ship_hangs c.message s.payload w)
              (λ w'. Returns-behind c.message.end s.payload _ (
                unfold prepare_for_new_message in
                k (prepare_for_new_message s.payload c.message) w'
                  (record { offset_inside = omega arith; end_inside = omega arith })
                  (omega (
                    arith,
                    length-drop c.message.end s.payload,
                    (e.0).offset_inside,
                    (e.0).end_inside,
                  )))))
      ]

  -- On every packet that a well formed stream, or a new one, receives, the loops of `Parse` never run
  -- out of rounds: it ends, with a stream that is well formed where it keeps one, unless the handler
  -- does not end on some message whose raw bytes are a part of the stream's data.
  pub mysql_parse_stream-Returns :
      (pkt : Packet) (s : Option MysqlStream) (w : W)
      → IsStream? s
      → Returns handle (data_of pkt s) (parse_stream handle pkt s w)
  unfolding parse_stream
  mysql_parse_stream-Returns pkt none w v =
      stream_loop-Returns _ pkt.ts _ w
        (record { offset_inside = omega arith; end_inside = omega arith }) (omega arith)
  mysql_parse_stream-Returns pkt (some s) w v =
      elim (Bool-cases (ltb tcp_max_data_in_stream (length (s.payload ++ pkt.payload)))) [
        | inl t ↦ rw t tt
        | inr e ↦ rw e (
            stream_loop-Returns _ pkt.ts _ w
              (record {
                offset_inside = omega (arith, length-append s.payload pkt.payload, v.offset_inside);
                end_inside = v.end_inside;
              })
              (omega arith))
      ]
