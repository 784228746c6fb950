-- ===== src/Protos.antt =====
-- protos/protos.go: packets, the interface of a protocol plugin, and the registry of plugins.
-- The tuples are the types of the vendored libbeat with the fields that this code reads.
use packetbeat.Base.{ℕ, List, [], ◌∷◌, Option, length, leb, get_or, if◌then◌else◌}
use packetbeat.Base.GoMap.{lookup, put, nat_eq}
use packetbeat.Base.Text.{Bytes, codes}

-- `common.IpPortTuple`
pub record IpPortTuple : Type 0 where
  pub ip_length : ℕ
  pub src_ip : Bytes
  pub dst_ip : Bytes
  pub src_port : ℕ  -- uint16
  pub dst_port : ℕ  -- uint16

-- `common.TcpTuple`
pub record TcpTuple : Type 0 where
  pub ip_length : ℕ
  pub src_ip : Bytes
  pub dst_ip : Bytes
  pub src_port : ℕ  -- uint16
  pub dst_port : ℕ  -- uint16
  pub stream_id : ℕ  -- uint32

-- A time is the number of nanoseconds since a fixed instant.
pub record Packet : Type 0 where
  pub ts : ℕ
  pub tuple : IpPortTuple
  pub payload : Bytes

-- What a call of a plugin does: it returns the private data (`none` is `nil`), or it panics.
pub data Call (D : Type 0) : Type 0 where
  returns : Option D → Call D
  panics : Call D

-- `ProtocolPlugin`, over the state `W` that the plugins share and their private data `D`.
pub record Plugin (W D : Type 0) : Type 0 where
  pub get_ports : List ℕ
  pub parse : Packet → TcpTuple → ℕ → Option D → W → W × Call D
  pub received_fin : TcpTuple → ℕ → Option D → W → W × Call D
  pub gap_in_stream : TcpTuple → ℕ → Option D → W → W × Call D

-- `Protocol` is a uint16.
abbrev pub unknown_protocol : ℕ
unknown_protocol = 0

abbrev pub http_protocol : ℕ
http_protocol = 1

abbrev pub mysql_protocol : ℕ
mysql_protocol = 2

abbrev pub redis_protocol : ℕ
redis_protocol = 3

abbrev pub pgsql_protocol : ℕ
pgsql_protocol = 4

abbrev pub thrift_protocol : ℕ
thrift_protocol = 5

abbrev pub protocol_names : List Bytes
protocol_names =
    codes "unknown"
    ∷ codes "http"
    ∷ codes "mysql"
    ∷ codes "redis"
    ∷ codes "pgsql"
    ∷ codes "thrift"
    ∷ []

-- `Protocol.String`
unfoldable pub protocol_string : ℕ → Bytes
protocol_string p =
    if leb (length protocol_names) p then codes "impossible" else get_or protocol_names p []

-- `Protocols`: the map of registered plugins.
abbrev pub Protocols : Type 0 → Type 0 → Type 0
Protocols W D = List (ℕ × Plugin W D)

module _ {W D : Type 0} where
  -- `Protocols.Get`; `none` is `nil`.
  unfoldable pub get : Protocols W D → ℕ → Option (Plugin W D)
  get protos proto = lookup proto protos

  -- `Protocols.GetAll`
  abbrev pub get_all : Protocols W D → Protocols W D
  get_all protos = protos

  -- `Protocols.Register`
  unfoldable pub register : Protocols W D → ℕ → Plugin W D → Protocols W D
  register protos proto plugin = put proto plugin protos
