-- ===== src/Tcp/Ports.antt =====
-- protos/tcp/tcp.go, `buildPortsMap`, `BpfFilter` and `TcpInit`. A Go map is visited in any
-- order, so the list of plugins stands for the entries of the map in the order of the visit.
pub mod Correct
use packetbeat.Base.{ℕ, ◌%◌, ◌++◌, true, false, List, [], ◌∷◌, Option, none, some, map, ◌==◌}
use packetbeat.Base.GoMap.{lookup, put, nat_eq}
use packetbeat.Base.Int.{pos}
use packetbeat.Base.Text.{Bytes, codes, join, itoa}
use packetbeat.Protos.{Plugin, Protocols}

-- `map[uint16]protos.Protocol`
abbrev pub PortMap : Type 0
PortMap = List (ℕ × ℕ)

pub data PortResult : Type 0 where
  ok : PortMap → PortResult
  duplicate_port : ℕ → ℕ → ℕ → PortResult  -- the port, and the two protocols

-- The inner loop of `buildPortsMap`.
unfoldable pub add_ports : ℕ → List ℕ → PortMap → PortResult
add_ports proto [] res = ok res
add_ports proto (port ∷ ports) res = elim (lookup (port % 65536) res) [
  | none ↦ add_ports proto ports (put (port % 65536) proto res)
  | some old_proto ↦ elim (old_proto == proto) [
    | true ↦ add_ports proto ports res
    | false ↦ duplicate_port port old_proto proto
  ]
]

module _ {W D : Type 0} where
  unfoldable pub add_plugins : Protocols W D → PortMap → PortResult
  add_plugins [] res = ok res
  add_plugins ((proto, plugin) ∷ plugins) res = elim (add_ports proto plugin.get_ports res) [
    | ok res' ↦ add_plugins plugins res'
    | duplicate_port port old_proto new_proto ↦ duplicate_port port old_proto new_proto
  ]

  -- `buildPortsMap`
  unfoldable pub build_ports_map : Protocols W D → PortResult
  build_ports_map plugins = add_plugins plugins []

  port_terms : Protocols W D → List Bytes
  port_terms [] = []
  port_terms ((proto, plugin) ∷ plugins) =
      map (λ port. codes "port " ++ itoa (pos port)) plugin.get_ports ++ port_terms plugins

  -- `BpfFilter`
  unfoldable pub bpf_filter : Protocols W D → Bytes
  unfolding port_terms
  bpf_filter protos = join (port_terms protos) (codes " or ")

  -- `TcpInit`: the new value of `tcpPortMap`, or the error and a nil map.
  unfoldable pub tcp_init : Protocols W D → PortMap × Option PortResult
  tcp_init protos = elim (build_ports_map protos) [
    | ok port_map ↦ (port_map, none)
    | duplicate_port port old new ↦ ([], some (duplicate_port port old new))
  ]
