-- ===== src/Tests/Ports.antt =====
-- Runs of the port map of protos/tcp/tcp.go.
use packetbeat.Base.{ℕ, ◌≡◌, ◌≢◌, ◌↔◌, refl, List, [], ◌∷◌, some}
use packetbeat.Base.GoMap.{lookup, put, nat_eq}
use packetbeat.Base.Text.{codes, join, itoa}
use packetbeat.Protos.{Plugin, Protocols, returns, http_protocol, redis_protocol}
use packetbeat.Tcp.Ports.{
  PortMap, ok, duplicate_port, add_ports, add_plugins, build_ports_map, bpf_filter,
}
use packetbeat.Tcp.Ports.Correct.{Listens, build_ports_map_ok, build_ports_map_conflict}

abbrev idle : List ℕ → Plugin (Unit {0}) (Unit {0})
idle ports = record {
  get_ports = ports;
  parse = λ pkt t dir d w. (w, returns d);
  received_fin = λ t dir d w. (w, returns d);
  gap_in_stream = λ t dir d w. (w, returns d);
}

abbrev plugins : Protocols (Unit {0}) (Unit {0})
plugins = (http_protocol, idle (80 ∷ 8080 ∷ 8080 ∷ [])) ∷ (redis_protocol, idle (6379 ∷ [])) ∷ []

abbrev clashing : Protocols (Unit {0}) (Unit {0})
clashing = (http_protocol, idle (80 ∷ [])) ∷ (redis_protocol, idle (6379 ∷ 80 ∷ [])) ∷ []

abbrev port_map : PortMap
port_map = (80, 1) ∷ (8080, 1) ∷ (6379, 3) ∷ []

build_plugins : build_ports_map plugins ≡ ok port_map
unfolding build_ports_map add_plugins add_ports lookup put
build_plugins = refl

filter_plugins : bpf_filter plugins ≡ codes "port 80 or port 8080 or port 8080 or port 6379"
unfolding bpf_filter join itoa
filter_plugins = refl

build_ports_map_ok_example : (lookup 8080 port_map ≡ some 1) ↔ Listens 1 8080 plugins
build_ports_map_ok_example = build_ports_map_ok plugins port_map build_plugins 1 8080

build_clashing : build_ports_map clashing ≡ duplicate_port 80 1 3
unfolding build_ports_map add_plugins add_ports lookup put
build_clashing = refl

build_ports_map_conflict_example : (◌≢◌ {A = ℕ} 1 3) × Listens 1 80 clashing × Listens 3 80 clashing
build_ports_map_conflict_example = build_ports_map_conflict clashing 80 1 3 build_clashing
