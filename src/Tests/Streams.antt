-- ===== src/Tests/Streams.antt =====
-- Runs of protos/tcp/tcp.go.
use packetbeat.Base.{
  ℕ, ◌+◌, ◌++◌, ◌≡◌, ◌≢◌, refl, inl, true, false, List, [], ◌∷◌, none, some, length, arith, ltb,
  leb, ◌⊎◌, ◌==◌,
}
use packetbeat.Base.GoMap.{lookup, put, nat_eq, bytes_instance}
use packetbeat.Base.Text.{Bytes, codes}
use packetbeat.Protos
use packetbeat.Protos.{IpPortTuple, TcpTuple, Packet, Call, returns, panics, Plugin, redis_protocol}
use packetbeat.Tcp.{
  u32, TcpHeader, Tuples, TcpStream, TcpState, Env, follow_tcp, follow_segment, follow_at,
  add_packet, received_fin, finish_call, create, decide_protocol, timer_fires, tcp_seq_before,
  tcp_seq_before_eq,
}
use packetbeat.Tcp.Seq.{tcp_seq_before_window}
use packetbeat.Tcp.Order.{follow_tcp_retransmitted, follow_tcp_gap}
use packetbeat.Tcp.Table.{
  IsServed, IsWellFormed, follow_tcp-IsWellFormed, timer_fires_stale, follow_all,
}
use packetbeat.Tcp.Delivery.{Parser, Delivered, follow_all_delivers, parse_all}
use packetbeat.Tcp.Decoder.{
  Decoder, layer_ethernet, layer_ipv4, layer_tcp, layer_payload, HasLayer, decoded_packet,
  decoded_packet_lem, read_layers, read_layer,
}

-- A plugin that counts its calls in the private data and keeps the payloads.
abbrev keeper : Parser (List Bytes) ℕ
keeper = record {
  next_world = λ pkt t dir d w. w ++ (pkt.payload ∷ []);
  next_payload = λ pkt t dir d w. some 1;
}

abbrev keeper_plugin : Plugin (List Bytes) ℕ
keeper_plugin = record {
  get_ports = 6379 ∷ [];
  parse = λ pkt t dir d w.
      (keeper.next_world pkt t dir d w, returns (keeper.next_payload pkt t dir d w));
  received_fin = λ t dir d w. (w, returns d);
  gap_in_stream = λ t dir d w. (w ++ (codes "gap" ∷ []), returns d);
}

abbrev keys : Tuples
keys = record {
  hashable = λ t. t.src_ip ++ (t.src_port ∷ t.dst_ip) ++ (t.dst_port ∷ []);
  rev_hashable = λ t. t.dst_ip ++ (t.dst_port ∷ t.src_ip) ++ (t.src_port ∷ []);
  tcp_tuple_from_ip_port = λ t id. record {
    ip_length = t.ip_length;
    src_ip = t.src_ip;
    dst_ip = t.dst_ip;
    src_port = t.src_port;
    dst_port = t.dst_port;
    stream_id = id;
  };
}

abbrev env : Env (List Bytes) ℕ
env = record {
  tuples = keys;
  protos = (redis_protocol, keeper_plugin) ∷ [];
  port_map = (6379, redis_protocol) ∷ [];
}

abbrev client_tuple : IpPortTuple
client_tuple = record {
  ip_length = 4;
  src_ip = 10 ∷ 0 ∷ 0 ∷ 1 ∷ [];
  dst_ip = 10 ∷ 0 ∷ 0 ∷ 2 ∷ [];
  src_port = 40000;
  dst_port = 6379;
}

abbrev packet : Bytes → Packet
packet payload = record { ts = 5; tuple = client_tuple; payload = payload }

abbrev header : ℕ → TcpHeader
header seq = record { src_port = 40000; dst_port = 6379; seq = seq; fin = false }

abbrev nothing_yet : TcpState (List Bytes) ℕ
nothing_yet = record { streams = []; objects = []; id = 0; world = [] }

-- A stream that has read up to the number 100 in its original direction.
abbrev stream : TcpStream ℕ
stream = record {
  id = 1;
  tuple = client_tuple;
  timer = true;
  protocol = redis_protocol;
  tcptuple = keys.tcp_tuple_from_ip_port client_tuple 1;
  last_seq_reverse = 0;
  last_seq_original = 100;
  payload = none;
}

abbrev one_stream : TcpState (List Bytes) ℕ
one_stream = record {
  streams = (keys.hashable client_tuple, 0) ∷ [];
  objects = stream ∷ [];
  id = 1;
  world = [];
}

first_packet :
    (follow_tcp env (header 97) (packet (codes "abc")) nothing_yet).world ≡ codes "abc" ∷ []
unfolding follow_tcp follow_at follow_segment add_packet received_fin finish_call create
    decide_protocol lookup put Protos.get
first_packet = refl

nothing_yet-IsWellFormed : IsWellFormed env nothing_yet
nothing_yet-IsWellFormed = record { mapped = λ k p e. absurd (unfold lookup in cc) }

env-IsServed : IsServed env
unfolding lookup Protos.get
env-IsServed q r h = (keeper_plugin, ground arith)

follow_tcp-IsWellFormed_example :
    IsWellFormed env (follow_tcp env (header 97) (packet (codes "abc")) nothing_yet)
follow_tcp-IsWellFormed_example =
    follow_tcp-IsWellFormed env (header 97) (packet (codes "abc")) nothing_yet env-IsServed
      nothing_yet-IsWellFormed

follow_tcp_retransmitted_example :
    follow_tcp env (header 97) (packet (codes "abc")) one_stream ≡ one_stream
unfolding lookup
follow_tcp_retransmitted_example =
    follow_tcp_retransmitted env (header 97) (packet (codes "abc")) one_stream 0 1 stream 0
      (inl (refl, refl)) refl (omega arith) (omega arith) (omega arith) refl

follow_tcp_gap_example :
    let after = follow_tcp env (header 105) (packet (codes "abc")) one_stream in
    (after.world ≡ codes "gap" ∷ [])
    × (lookup (keys.hashable client_tuple) after.streams ≡ none)
    × ((k : Bytes)
        → k ≢ keys.hashable client_tuple
        → lookup k after.streams ≡ lookup k one_stream.streams)
unfolding lookup Protos.get
follow_tcp_gap_example =
    follow_tcp_gap env (header 105) (packet (codes "abc")) one_stream 0 1 stream 5 keeper_plugin
      (codes "gap" ∷ []) none (inl (refl, refl)) refl refl refl (omega arith) (omega arith)
      (omega arith) (omega arith) (omega arith) refl

abbrev segments : List (TcpHeader × Packet)
segments = (header 100, packet (codes "ab")) ∷ (header 102, packet (codes "c")) ∷ []

follow_all_delivers_example :
    Delivered env keeper_plugin keeper
      (λ pkt t dir d w. refl)
      0
      1
      (follow_all env segments one_stream)
      (parse_all keeper stream.tcptuple 1 segments none [])
unfolding lookup Protos.get
follow_all_delivers_example =
    follow_all_delivers env keeper_plugin keeper (λ pkt t dir d w. refl) 0 1 client_tuple segments
      stream one_stream (inl (refl, refl)) refl refl (omega arith)
      (refl, refl, refl, omega arith, omega arith, (refl, refl, refl, omega arith, omega arith, tt))

timer_fires_stale_example :
    lookup
      (keys.hashable client_tuple)
      (timer_fires env 0 (
        follow_all env
          ((header 200, packet (codes "x")) ∷ (header 7, packet (codes "y")) ∷ [])
          one_stream)).streams
    ≡ none
timer_fires_stale_example =
    timer_fires_stale env ((header 200, packet (codes "x")) ∷ (header 7, packet (codes "y")) ∷ []) 0
      stream one_stream refl refl

tcp_seq_before_window_example :
    (tcp_seq_before (u32 (4294967290 + 2)) (u32 (4294967290 + 8)) ≡ ltb 2 8)
    × (tcp_seq_before_eq (u32 (4294967290 + 2)) (u32 (4294967290 + 8)) ≡ leb 2 8)
tcp_seq_before_window_example =
    tcp_seq_before_window 4294967290 2 8 (omega arith) (omega arith) (omega arith)

abbrev decoder : Decoder
decoder = record {
  first = layer_ethernet;
  ip4_src = client_tuple.src_ip;
  ip4_dst = client_tuple.dst_ip;
  ip6_src = [];
  ip6_dst = [];
  tcp = header 97;
  payload = codes "abc";
  decoded = layer_ethernet ∷ layer_ipv4 ∷ layer_tcp ∷ layer_payload ∷ [];
}

decoded_packet_example :
    HasLayer layer_tcp decoder.decoded
    × (◌≡◌ {A = ℕ} 5 5)
    × (client_tuple.src_port ≡ 40000)
    × (client_tuple.dst_port ≡ 6379)
    × ((decoder.tcp.fin ≡ true) ⊎ ((length (codes "abc") == 0) ≡ false))
unfolding decoded_packet read_layers read_layer
decoded_packet_example = decoded_packet_lem decoder 5 (packet (codes "abc")) refl
