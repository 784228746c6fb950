-- ===== src/Tcp.antt =====
-- protos/tcp/tcp.go: the table of TCP streams, the order of segments, and the calls of the
-- protocol plugins. A pointer to a stream is an index into the list of all streams created.
-- A map or a stream is changed by one handler at a time.
pub mod Seq
pub mod Ports
pub mod Decoder
pub mod Order
mod Objects
pub mod Table
pub mod Delivery
use packetbeat.Base.{
  ℕ, ◌+◌, ◌-◌, ◌%◌, ◌++◌, Bool, true, false, not, ◌&&◌, ◌||◌, List, [], ◌∷◌, Option, none, some,
  length, get_elem?, set, ltb, leb, ◌==◌, if◌then◌else◌,
}
use packetbeat.Base.GoMap.{lookup, put, delete, nat_eq, bytes_instance}
use packetbeat.Base.Text.{Bytes}
use packetbeat.Protos
use packetbeat.Protos.{
  IpPortTuple, TcpTuple, Packet, Call, returns, panics, Plugin, Protocols, unknown_protocol,
}

abbrev pub u32 : ℕ → ℕ
u32 n = n % 4294967296

abbrev pub tcp_max_data_in_stream : ℕ
tcp_max_data_in_stream = 10_000_000

abbrev pub tcp_direction_reverse : ℕ
tcp_direction_reverse = 0

abbrev pub tcp_direction_original : ℕ
tcp_direction_original = 1

-- `int32(seq1 - seq2) < 0`: the top bit of the wrapped difference is set.
unfoldable pub tcp_seq_before : ℕ → ℕ → Bool
tcp_seq_before seq1 seq2 = leb 2147483648 (u32 (seq1 + 4294967296 - seq2))

-- `int32(seq1 - seq2) <= 0`
unfoldable pub tcp_seq_before_eq : ℕ → ℕ → Bool
tcp_seq_before_eq seq1 seq2 = let d = u32 (seq1 + 4294967296 - seq2) in leb 2147483648 d || d == 0

-- The fields of `layers.TCP` that this code reads.
pub record TcpHeader : Type 0 where
  pub src_port : ℕ
  pub dst_port : ℕ
  pub seq : ℕ  -- uint32
  pub fin : Bool

-- What libbeat's tuples provide: the two keys of a packet, and the tuple handed to the plugins.
pub record Tuples : Type 0 where
  pub hashable : IpPortTuple → Bytes
  pub rev_hashable : IpPortTuple → Bytes
  pub tcp_tuple_from_ip_port : IpPortTuple → ℕ → TcpTuple

-- `timer` says that an expiry timer of this stream is armed.
pub record TcpStream (D : Type 0) : Type 0 where
  pub id : ℕ
  pub tuple : IpPortTuple
  pub timer : Bool
  pub protocol : ℕ
  pub tcptuple : TcpTuple
  pub last_seq_reverse : ℕ
  pub last_seq_original : ℕ
  pub payload : Option D  -- `Data`

-- The package's variables: `tcpStreamsMap`, every stream ever allocated, `__id`, and the state
-- of the plugins.
pub record TcpState (W D : Type 0) : Type 0 where
  pub streams : List (Bytes × ℕ)
  pub objects : List (TcpStream D)
  pub id : ℕ
  pub world : W

-- What does not change while packets are followed: libbeat, `protos.Protos`, `tcpPortMap`.
pub record Env (W D : Type 0) : Type 0 where
  pub tuples : Tuples
  pub protos : Protocols W D
  pub port_map : List (ℕ × ℕ)

-- `decideProtocol`
unfoldable pub decide_protocol : List (ℕ × ℕ) → IpPortTuple → ℕ
decide_protocol port_map tuple = elim (lookup tuple.src_port port_map) [
  | some protocol ↦ protocol
  | none ↦ elim (lookup tuple.dst_port port_map) [
    | some protocol ↦ protocol
    | none ↦ unknown_protocol
  ]
]

module _ {D : Type 0} where
  -- `stream.lastSeq[dir]`
  abbrev pub last_seq : ℕ → TcpStream D → ℕ
  last_seq dir s = if dir == 0 then s.last_seq_reverse else s.last_seq_original

  abbrev pub with_last_seq : ℕ → ℕ → TcpStream D → TcpStream D
  with_last_seq dir seq s = record s {
    last_seq_reverse = if dir == 0 then seq else s.last_seq_reverse;
    last_seq_original = if dir == 0 then s.last_seq_original else seq;
  }

module _ {W D : Type 0} where
  -- A write through the pointer `p`.
  abbrev pub write : ℕ → TcpStream D → TcpState W D → TcpState W D
  write p s st = record st { objects = set st.objects p s }

  -- The effect of a plugin's call on `stream.Data`; the flag says that it returned.
  unfoldable pub finish_call : ℕ → TcpStream D → TcpState W D → W × Call D → TcpState W D × Bool
  finish_call p s st (w, returns d) =
      (record (write p (record s { payload = d }) st) { world = w }, true)
  finish_call p s st (w, panics) = (record st { world = w }, false)

  -- `Expire`
  unfoldable pub expire : Env W D → ℕ → TcpStream D → TcpState W D → TcpState W D
  expire env p s st = record (write p (record s { payload = none }) st) {
    streams = delete (env.tuples.hashable s.tuple) st.streams;
  }

  -- The timer of the stream at `p` fires, if it is armed.
  unfoldable pub timer_fires : Env W D → ℕ → TcpState W D → TcpState W D
  timer_fires env p st = elim (get_elem? st.objects p) [
    | none ↦ st
    | some s ↦ if s.timer then expire env p (record s { timer = false }) st else st
  ]

  -- The plugin's part of `AddPacket`, on the FIN flag.
  unfoldable pub received_fin : Plugin W D → TcpHeader → ℕ → ℕ → TcpState W D → TcpState W D
  received_fin mod_ hdr p dir st = elim (get_elem? st.objects p) [
    | none ↦ st
    | some s ↦
        if hdr.fin
        then (finish_call p s st (mod_.received_fin s.tcptuple dir s.payload st.world)).0
        else st
  ]

  -- `AddPacket`. A panic of the plugin ends `FollowTcp`, whose deferred call recovers.
  unfoldable pub add_packet :
      Env W D → Packet → TcpHeader → ℕ → ℕ → TcpStream D → TcpState W D → TcpState W D
  add_packet env pkt hdr p dir s st =
      let armed = record s { timer = true } in
      let st' = write p armed st in
      elim (Protos.get env.protos s.protocol) [
        | none ↦ st'
        | some mod_ ↦
            if ltb 0 (length pkt.payload)
            then (let (st'', returned) =
                  finish_call p armed st' (mod_.parse pkt s.tcptuple dir s.payload st.world) in
                if returned then received_fin mod_ hdr p dir st'' else st'')
            else received_fin mod_ hdr p dir st'
      ]

  -- `GapInStream`: the flag says that it returned. With no plugin the call is on a nil interface.
  unfoldable pub gap_in_stream : Env W D → ℕ → ℕ → TcpStream D → TcpState W D → TcpState W D × Bool
  gap_in_stream env p dir s st = elim (Protos.get env.protos s.protocol) [
    | none ↦ (st, false)
    | some mod_ ↦ finish_call p s st (mod_.gap_in_stream s.tcptuple dir s.payload st.world)
  ]

  -- The gap branch of `FollowTcp`: tell the plugin, then drop the stream.
  unfoldable pub drop_stream : Env W D → ℕ → ℕ → TcpStream D → TcpState W D → TcpState W D
  drop_stream env p dir s st =
      let (st', returned) = gap_in_stream env p dir s st in
      if returned
      then elim (get_elem? st'.objects p) [ none ↦ st' | some s' ↦ expire env p s' st' ]
      else st'

  -- `FollowTcp` from `tcp_start_seq` on, with the stream at `p`.
  unfoldable pub follow_segment :
      Env W D → TcpHeader → Packet → ℕ → ℕ → Bool → TcpStream D → TcpState W D → TcpState W D
  follow_segment env hdr pkt p dir created s st =
      let seq = u32 (hdr.seq + u32 (length pkt.payload)) in
      let checked = ltb 0 (length pkt.payload) && not (last_seq dir s == 0) in
      let s' = with_last_seq dir seq s in
      let accepted = add_packet env pkt hdr p dir s' (write p s' st) in
      if checked && tcp_seq_before_eq seq (last_seq dir s)
      then st
      else if checked && tcp_seq_before (last_seq dir s) hdr.seq && not created
      then drop_stream env p dir s st
      else accepted

  unfoldable pub follow_at :
      Env W D → TcpHeader → Packet → ℕ → ℕ → Bool → TcpState W D → TcpState W D
  follow_at env hdr pkt p dir created st = elim (get_elem? st.objects p) [
    | none ↦ st
    | some s ↦ follow_segment env hdr pkt p dir created s st
  ]

  -- `GetId`
  abbrev pub get_id : TcpState W D → ℕ
  get_id st = u32 (st.id + 1)

  -- `&TcpStream{...}`: the zero value but for the id, the tuples and the protocol.
  abbrev pub new_stream : Env W D → Packet → ℕ → ℕ → TcpStream D
  new_stream env pkt protocol id = record {
    id = id;
    tuple = pkt.tuple;
    timer = false;
    protocol = protocol;
    tcptuple = env.tuples.tcp_tuple_from_ip_port pkt.tuple id;
    last_seq_reverse = 0;
    last_seq_original = 0;
    payload = none;
  }

  -- The new stream is allocated behind the others, and its key points to it.
  unfoldable pub create : Env W D → Packet → ℕ → TcpState W D → TcpState W D
  create env pkt protocol st = record st {
    streams = put (env.tuples.hashable pkt.tuple) (length st.objects) st.streams;
    objects = st.objects ++ (new_stream env pkt protocol (get_id st) ∷ []);
    id = get_id st;
  }

  -- `FollowTcp`
  unfoldable pub follow_tcp : Env W D → TcpHeader → Packet → TcpState W D → TcpState W D
  follow_tcp env hdr pkt st = elim (lookup (env.tuples.hashable pkt.tuple) st.streams) [
    | some p ↦ follow_at env hdr pkt p tcp_direction_original false st
    | none ↦ elim (lookup (env.tuples.rev_hashable pkt.tuple) st.streams) [
      | some p ↦ follow_at env hdr pkt p tcp_direction_reverse false st
      | none ↦
          let protocol = decide_protocol env.port_map pkt.tuple in
          if protocol == unknown_protocol
          then st
          else follow_at env hdr pkt (length st.objects) tcp_direction_original true
              (create env pkt protocol st)
    ]
  ]
