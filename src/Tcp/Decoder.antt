-- ===== src/Tcp/Decoder.antt =====
-- protos/tcp/tcp.go, `CreateDecoder` and `DecodePacketData`: from the layers that gopacket found
-- in a frame to a packet. gopacket's `DecodeLayers` is a parameter.
use packetbeat.Base.{
  ℕ, ◌%◌, ◌≡◌, ◌⊎◌, refl, Bool, true, false, not, ◌&&◌, List, [], ◌∷◌, Option, none, some, length,
  ◌==◌, if◌then◌else◌, arith,
}
use packetbeat.Base.Text.{Bytes}
use packetbeat.Protos.{IpPortTuple, Packet}
use packetbeat.Tcp.{TcpHeader, Env, TcpState, follow_tcp}

pub data LinkType : Type 0 where
  linux_sll ethernet null other_link : LinkType

pub data LayerType : Type 0 where
  layer_linux_sll layer_ethernet layer_loopback layer_ipv4 layer_ipv6 layer_tcp : LayerType
  layer_payload layer_other : LayerType

-- `DecoderStruct`: the layers hold what was decoded last into them.
pub record Decoder : Type 0 where
  pub first : LayerType  -- the layer that `Parser` starts with
  pub ip4_src : Bytes
  pub ip4_dst : Bytes
  pub ip6_src : Bytes
  pub ip6_dst : Bytes
  pub tcp : TcpHeader
  pub payload : Bytes
  pub decoded : List LayerType

new_decoder : LayerType → Decoder
new_decoder first = record {
  first = first;
  ip4_src = [];
  ip4_dst = [];
  ip6_src = [];
  ip6_dst = [];
  tcp = record { src_port = 0; dst_port = 0; seq = 0; fin = false };
  payload = [];
  decoded = [];
}

-- `CreateDecoder`; `none` is the error for an unsupported link type.
unfoldable pub create_decoder : LinkType → Option Decoder
unfolding new_decoder
create_decoder linux_sll = some (new_decoder layer_linux_sll)
create_decoder ethernet = some (new_decoder layer_ethernet)
create_decoder null = some (new_decoder layer_loopback)
create_decoder other_link = none

abbrev empty_tuple : IpPortTuple
empty_tuple = record { ip_length = 0; src_ip = []; dst_ip = []; src_port = 0; dst_port = 0 }

abbrev pub empty_packet : Packet
empty_packet = record { ts = 0; tuple = empty_tuple; payload = [] }

-- One round of the loop over `decoder.decoded`; the flag is `has_tcp`.
unfoldable pub read_layer : Decoder → LayerType → Packet × Bool → Packet × Bool
read_layer d layer_ipv4 (p, has_tcp) = (
  record p { tuple = record (p.tuple) { src_ip = d.ip4_src; dst_ip = d.ip4_dst; ip_length = 4 } },
  has_tcp,
)
read_layer d layer_ipv6 (p, has_tcp) = (
  record p { tuple = record (p.tuple) { src_ip = d.ip6_src; dst_ip = d.ip6_dst; ip_length = 16 } },
  has_tcp,
)
read_layer d layer_tcp (p, has_tcp) = (
  record p {
    tuple = record (p.tuple) {
      src_port = d.tcp.src_port % 65536;
      dst_port = d.tcp.dst_port % 65536;
    };
  },
  true,
)
read_layer d layer_payload (p, has_tcp) = (record p { payload = d.payload }, has_tcp)
read_layer d _ (p, has_tcp) = (p, has_tcp)

unfoldable pub read_layers : Decoder → List LayerType → Packet × Bool → Packet × Bool
unfolding read_layer
read_layers d [] acc = acc
read_layers d (l ∷ ls) acc = read_layers d ls (read_layer d l acc)

-- The packet that `DecodePacketData` hands on, if it does not return before.
unfoldable pub decoded_packet : Decoder → ℕ → Option Packet
unfolding read_layers
decoded_packet d timestamp =
    let (p, has_tcp) = read_layers d d.decoded (empty_packet, false) in
    if not has_tcp
    then none
    else if length p.payload == 0 && not d.tcp.fin
    then none
    else some (record p { ts = timestamp })

-- `DecodeLayers` of gopacket: the layers after the call, and whether it returned no error.
abbrev pub DecodeLayers : Type 0
DecodeLayers = Bytes → Decoder → Decoder × Bool

module _ {W D : Type 0} where
  -- `DecodePacketData`
  unfoldable pub decode_packet_data :
      DecodeLayers → Env W D → Bytes → ℕ → Decoder × TcpState W D → Decoder × TcpState W D
  decode_packet_data decode_layers env bytes timestamp (d, st) =
      let (d', fine) = decode_layers bytes d in
      if fine
      then elim (decoded_packet d' timestamp) [
        | none ↦ (d', st)
        | some packet ↦ (d', follow_tcp env d'.tcp packet st)
      ]
      else (d', st)

abbrev pub HasLayer : LayerType → List LayerType → Type 0
HasLayer l [] = ⊥
HasLayer l (x ∷ xs) = (x ≡ l) ⊎ HasLayer l xs

read_layers_tcp :
    (d : Decoder) (ls : List LayerType) (p : Packet) (has_tcp : Bool)
    → (read_layers d ls (p, has_tcp)).1 ≡ true
    → (has_tcp ≡ true) ⊎ HasLayer layer_tcp ls
unfolding read_layers
read_layers_tcp d [] p has_tcp h = ground arith
read_layers_tcp d (l ∷ ls) p has_tcp h =
    ground
      (arith, read_layers_tcp d ls (read_layer d l (p, has_tcp)).0 (read_layer d l (p, has_tcp)).1)

-- The ports of a packet are those of the decoder, once a TCP layer was read.
read_layers_ports :
    (d : Decoder) (ls : List LayerType) (p : Packet) (has_tcp : Bool)
    → (has_tcp ≡ true
        → (p.tuple.src_port ≡ d.tcp.src_port % 65536) × (p.tuple.dst_port ≡ d.tcp.dst_port % 65536))
    → let (q, seen) = read_layers d ls (p, has_tcp) in
      seen ≡ true
      → (q.tuple.src_port ≡ d.tcp.src_port % 65536) × (q.tuple.dst_port ≡ d.tcp.dst_port % 65536)
unfolding read_layers
read_layers_ports d [] p has_tcp h = h
read_layers_ports d (layer_tcp ∷ ls) p has_tcp h =
    read_layers_ports d ls (read_layer d layer_tcp (p, has_tcp)).0 true (λ _. (refl, refl))
read_layers_ports d (layer_ipv4 ∷ ls) p has_tcp h =
    read_layers_ports d ls (read_layer d layer_ipv4 (p, has_tcp)).0 has_tcp h
read_layers_ports d (layer_ipv6 ∷ ls) p has_tcp h =
    read_layers_ports d ls (read_layer d layer_ipv6 (p, has_tcp)).0 has_tcp h
read_layers_ports d (layer_payload ∷ ls) p has_tcp h =
    read_layers_ports d ls (read_layer d layer_payload (p, has_tcp)).0 has_tcp h
read_layers_ports d (_ ∷ ls) p has_tcp h = read_layers_ports d ls p has_tcp h

-- A packet is handed on only if a TCP layer was decoded, with the capture's time, with the
-- ports of that layer as uint16, and with a payload or the FIN flag.
pub decoded_packet_lem :
    (d : Decoder) (timestamp : ℕ) (p : Packet)
    → decoded_packet d timestamp ≡ some p
    → HasLayer layer_tcp d.decoded
      × (p.ts ≡ timestamp)
      × (p.tuple.src_port ≡ d.tcp.src_port % 65536)
      × (p.tuple.dst_port ≡ d.tcp.dst_port % 65536)
      × ((d.tcp.fin ≡ true) ⊎ ((length p.payload == 0) ≡ false))
unfolding decoded_packet
decoded_packet_lem d timestamp p e = ground (
  arith,
  read_layers_tcp d d.decoded empty_packet false,
  read_layers_ports d d.decoded empty_packet false (λ h. absurd (ground arith)),
)
