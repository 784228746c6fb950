-- ===== src/Pgsql/Plugin.antt =====
-- protos/pgsql/pgsql.go: the private data of a connection, and the calls of the protocol's interface.
use packetbeat.Base.{ℕ, Option, none, some, ◌==◌, if◌then◌else◌}
use packetbeat.Base.Text.{Bytes}
use packetbeat.Protos.{Packet, TcpTuple}
use packetbeat.Pgsql.Message.{Common}
use packetbeat.Pgsql.State.{Pgsql}
use packetbeat.Pgsql.Stream.{
  PgsqlStream, Streams, StreamResult, kept, recovered, hung, parse_streams, gap_in_streams,
}
use packetbeat.Pgsql.Transactions.{handle_pgsql}
use packetbeat.Redis.Transactions.{Lookups}
use packetbeat.Mysql.Transactions.{Dump}

-- `pgsqlPrivateData`
pub record PgsqlPrivateData : Type 0 where
  pub reverse : Option PgsqlStream
  pub original : Option PgsqlStream

-- The private data of a connection, new where it is nil.
unfoldable pub private_data : Option PgsqlPrivateData → PgsqlPrivateData
private_data none = record { reverse = none; original = none }
private_data (some priv) = priv

-- `priv.Data[dir]` and `priv.Data[1-dir]`
unfoldable pub streams_of : ℕ → PgsqlPrivateData → Streams
streams_of dir priv =
    if dir == 0
    then record { this = priv.reverse; other = priv.original }
    else record { this = priv.original; other = priv.reverse }

unfoldable pub of_streams : ℕ → Streams → PgsqlPrivateData
of_streams dir s =
    if dir == 0
    then record { reverse = s.this; original = s.other }
    else record { reverse = s.other; original = s.this }

-- What a call returns: the private data, or nil where it has recovered; `none` is no result of
-- the code.
unfoldable pub call_result : ℕ → StreamResult Pgsql → Option (Option PgsqlPrivateData × Pgsql)
call_result dir (kept s pgsql) = some (some (of_streams dir s), pgsql)
call_result dir (recovered pgsql) = some (none, pgsql)
call_result dir hung = none

module _ (lib : Common) (env : Lookups) (dump : Dump) where
  -- `Parse`; `spare` is what the array of the data holds behind them.
  unfoldable pub parse :
      Packet
      → Bytes
      → TcpTuple
      → ℕ
      → Option PgsqlPrivateData
      → Pgsql
      → Option (Option PgsqlPrivateData × Pgsql)
  parse pkt spare tuple dir private pgsql = call_result dir (
      parse_streams (handle_pgsql env dump tuple dir) lib pgsql.max_row_length pgsql.max_store_rows
        pkt spare (streams_of dir (private_data private)) pgsql)

  -- `GapInStream`
  unfoldable pub gap_in_stream :
      TcpTuple → ℕ → Option PgsqlPrivateData → Pgsql → Option (Option PgsqlPrivateData × Pgsql)
  gap_in_stream tuple dir none pgsql = some (none, pgsql)
  gap_in_stream tuple dir (some priv) pgsql =
      call_result dir (gap_in_streams (handle_pgsql env dump tuple dir) (streams_of dir priv) pgsql)

-- `ReceivedFin` returns the private data as it was.
unfoldable pub received_fin : TcpTuple → ℕ → Option PgsqlPrivateData → Option PgsqlPrivateData
received_fin tuple dir private = private
