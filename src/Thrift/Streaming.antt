-- ===== src/Thrift/Streaming.antt =====
-- protos/thrift/thrift.go, `Parse` as a whole: it returns, and leaves streams that it can go on with.
use packetbeat.Base.{
  ℕ, zero, suc, ◌<◌, ◌++◌, ◌≡◌, inl, inr, refl, false, Option, none, some, length, length-append,
  length-drop, ltb, ◌==◌, if◌then◌else◌, arith, Bool-cases,
}
use packetbeat.Protos.{Packet, TcpTuple}
use packetbeat.Redis.Transactions.{Lookups}
use packetbeat.Tcp.{tcp_max_data_in_stream}
use packetbeat.Thrift.{message_parser}
use packetbeat.Thrift.Message.{
  Library, Options, ThriftMessage, Cursor, Round, next, waits, complete, failed, panicked, spent,
}
use packetbeat.Thrift.State.{Thrift}
use packetbeat.Thrift.Stream.{
  ThriftStream, new_stream, cursor_of, prepare_for_new_message, Streams, StreamResult, kept,
  recovered, hung, resumed, with_frame_size, skips, resumes, behind, other_behind, waiting,
  stream_loop, parse_data, parse_streams, ThriftPrivateData, private_data, streams_of, of_streams,
  call_result, parse,
}
use packetbeat.Thrift.Transactions.{handle_thrift}
use packetbeat.Thrift.Progress.{IsStanding, IsWhole}
use packetbeat.Thrift.Termination.{Ends, thrift_message_parser-Ends}

-- The parser can go on with the stream.
abbrev pub IsReady : ThriftStream → Type 0
IsReady s = (ts : ℕ) → IsStanding s.bytes (cursor_of ts s)

abbrev pub IsReadyOrNil : Option ThriftStream → Type 0
IsReadyOrNil none = Unit
IsReadyOrNil (some s) = IsReady s

abbrev pub AreReady : Streams → Type 0
AreReady streams = IsReadyOrNil streams.this × IsReadyOrNil streams.other

abbrev pub Keeps : StreamResult → Type 0
Keeps (kept streams thrift) = AreReady streams
Keeps (recovered thrift) = Unit
Keeps (hung thrift) = ⊥

behind-IsReady : (o : Options) (c : Cursor) (s : ThriftStream) → IsReady (behind o c s)
unfolding behind prepare_for_new_message
behind-IsReady o c s ts = (omega arith, omega arith)

other_behind-IsReady :
    (o : Options) (m : ThriftMessage) (other : Option ThriftStream)
    → IsReadyOrNil other
    → IsReadyOrNil (other_behind o m other)
unfolding other_behind resumed
other_behind-IsReady o m none h = elim (Bool-cases (resumes o m)) [
  | inl e ↦ rw (other_behind, e) tt
  | inr e ↦ rw (other_behind, e) tt
]
other_behind-IsReady o m (some s) h = elim (Bool-cases (resumes o m)) [
  | inl e ↦ rw (other_behind, e) h
  | inr e ↦ rw (other_behind, e) h
]

-- Behind a message the data are shorter.
behind-shorter :
    (o : Options) (c : Cursor) (s : ThriftStream)
    → IsWhole s.bytes c
    → length (behind o c s).bytes < length s.bytes
unfolding behind prepare_for_new_message
behind-shorter o c s w = elim (Bool-cases (skips o c.message)) [
  | inl e ↦ rw (behind, prepare_for_new_message, e) (omega (arith, w.0, w.1))
  | inr e ↦
      rw (behind, prepare_for_new_message, e)
        (omega (arith, w.0, w.1, length-drop c.parse_offset s.bytes))
]

module _ (lib : Library) (env : Lookups) (tuple : TcpTuple) (dir : ℕ) where
  stream_loop-Keeps :
      (fuel ts : ℕ) (s : ThriftStream) (other : Option ThriftStream) (thrift : Thrift)
      → length s.bytes < fuel
      → IsReady s
      → IsReadyOrNil other
      → Keeps (stream_loop lib env tuple dir fuel ts s other thrift)
  unfolding stream_loop
  stream_loop-Keeps zero ts s other thrift h r q = absurd (omega arith)
  stream_loop-Keeps (suc fuel) ts s other thrift h r q =
      elim (Bool-cases (ltb 0 (length s.bytes))) [
        | inr e ↦ rw (stream_loop, e) (r, q)
        | inl e ↦
            rw (stream_loop, e)
              (at (message_parser lib thrift.options s.bytes (cursor_of ts s))
                (thrift_message_parser-Ends lib thrift.options s.bytes _ (r ts))
                λ c w.
                  stream_loop-Keeps fuel ts (behind thrift.options c s) _ _
                    (omega (arith, behind-shorter thrift.options c s w))
                    (behind-IsReady thrift.options c s)
                    (other_behind-IsReady thrift.options c.message other q))
      ]
    where
      at :
          (x : Round)
          → Ends lib thrift.options s.bytes x
          → ((c : Cursor)
              → IsWhole s.bytes c
              → Keeps (
                  stream_loop lib env tuple dir fuel ts
                    (behind thrift.options c s)
                    (other_behind thrift.options c.message other)
                    (handle_thrift env tuple dir
                      (with_frame_size c.parse_offset c.message)
                      thrift)))
          → Keeps (elim x [
            | next c ↦ hung thrift
            | spent ↦ hung thrift
            | failed ↦ kept (record { this = none; other = other }) thrift
            | panicked ↦ recovered thrift
            | waits c ↦ kept (record { this = some (waiting c s); other = other }) thrift
            | complete c ↦
                stream_loop lib env tuple dir fuel ts
                  (behind thrift.options c s)
                  (other_behind thrift.options c.message other)
                  (handle_thrift env tuple dir (with_frame_size c.parse_offset c.message) thrift)
          ])
      at (next c) i k = i
      at (waits c) i k = unfold waiting in (λ ts'. i, q)
      at (complete c) i k = k c i
      at failed i k = (tt, q)
      at panicked i k = tt
      at spent i k = i

  parse_streams-Keeps :
      (pkt : Packet) (streams : Streams) (thrift : Thrift)
      → AreReady streams
      → Keeps (parse_streams lib env tuple dir pkt streams thrift)
  unfolding parse_streams parse_data
  parse_streams-Keeps pkt streams thrift r = on streams.this r.0
    where
      on :
          (s : Option ThriftStream)
          → IsReadyOrNil s
          → Keeps (elim s [
            | none ↦ parse_data lib env tuple dir pkt.ts (new_stream pkt) streams.other thrift
            | some s' ↦
                if s'.skip_input
                then kept streams thrift
                else let bytes = s'.bytes ++ pkt.payload in
                  if ltb tcp_max_data_in_stream (length bytes)
                  then kept (record streams { this = none }) thrift
                  else parse_data lib env tuple dir pkt.ts
                      (record s' { bytes = bytes })
                      streams.other
                      thrift
          ])
      on none h =
          stream_loop-Keeps _ pkt.ts (new_stream pkt) streams.other thrift (omega arith)
            (λ ts. (omega arith, omega arith)) r.1
      on (some s) h = elim (Bool-cases s.skip_input) [
        | inl e ↦ simp e r
        | inr e ↦ elim (Bool-cases (ltb tcp_max_data_in_stream (length (s.bytes ++ pkt.payload)))) [
          | inl f ↦ simp (e, f) (tt, r.1)
          | inr f ↦
              simp (e, f)
                (stream_loop-Keeps _ pkt.ts
                  (record s { bytes = s.bytes ++ pkt.payload; skip_input = false }) streams.other
                  thrift (omega arith)
                  (λ ts. (omega (arith, (h ts).0, length-append s.bytes pkt.payload), (h ts).1))
                  r.1)
        ]
      ]

-- The streams of a connection, in the order of its directions.
abbrev pub IsReadyPrivate : Option ThriftPrivateData → Type 0
IsReadyPrivate none = Unit
IsReadyPrivate (some priv) = IsReadyOrNil priv.reverse × IsReadyOrNil priv.original

streams_of-AreReady :
    (dir : ℕ) (private : Option ThriftPrivateData)
    → IsReadyPrivate private
    → AreReady (streams_of dir (private_data private))
unfolding streams_of private_data
streams_of-AreReady dir none h = elim (Bool-cases (dir == 0)) [
  | inl e ↦ simp (streams_of, e) (tt, tt)
  | inr e ↦ simp (streams_of, e) (tt, tt)
]
streams_of-AreReady dir (some priv) h = elim (Bool-cases (dir == 0)) [
  | inl e ↦ simp (streams_of, e) h
  | inr e ↦ simp (streams_of, e) (h.1, h.0)
]

of_streams-IsReady :
    (dir : ℕ) (streams : Streams)
    → AreReady streams
    → IsReadyPrivate (some (of_streams dir streams))
unfolding of_streams
of_streams-IsReady dir streams h = elim (Bool-cases (dir == 0)) [
  | inl e ↦ simp (of_streams, e) h
  | inr e ↦ simp (of_streams, e) (h.1, h.0)
]

-- `Parse` of Thrift returns on any packet, also where it recovers from a panic, and each stream that
-- it leaves is one that it can go on with: its offset lies inside its data, at most 4 at the start of
-- a message, and not before the start of the message inside one.
pub parse_thrift-IsReady :
    (lib : Library) (env : Lookups) (pkt : Packet) (tuple : TcpTuple) (dir : ℕ)
    (private : Option ThriftPrivateData) (thrift : Thrift)
    → IsReadyPrivate private
    → (private' : Option ThriftPrivateData) × (thrift' : Thrift) × (parse lib env pkt tuple dir
          private thrift
        ≡ some (private', thrift'))
      × IsReadyPrivate private'
unfolding parse call_result
parse_thrift-IsReady lib env pkt tuple dir private thrift h =
    of_result (parse_streams lib env tuple dir pkt (streams_of dir (private_data private)) thrift)
      (parse_streams-Keeps lib env tuple dir pkt _ thrift (streams_of-AreReady dir private h))
  where
    of_result :
        (r : StreamResult)
        → Keeps r
        → (private' : Option ThriftPrivateData) × (thrift' : Thrift) × (call_result dir r
            ≡ some (private', thrift'))
          × IsReadyPrivate private'
    of_result (kept streams t) k = (_, t, refl, of_streams-IsReady dir streams k)
    of_result (recovered t) k = (none, t, refl, tt)
    of_result (hung t) k = absurd k
