-- ===== src/Mysql/Plugin.antt =====
-- protos/mysql/mysql.go, `Parse` as a whole, with the handling of the messages: it ends, but for what
-- `parseMysqlResponse` does.
use packetbeat.Base.{
  ℕ, ◌≡◌, refl, inl, inr, Bool, true, false, Option, none, some, length, ◌==◌, if◌then◌else◌,
  Bool-cases,
}
use packetbeat.Base.GoMap.{lookup, bytes_instance}
use packetbeat.Base.Text.{Bytes}
use packetbeat.Protos.{Packet, TcpTuple}
use packetbeat.Redis.Transactions.{Lookups}
use packetbeat.Mysql.{MysqlMessage}
use packetbeat.Mysql.Integers.{slice}
use packetbeat.Mysql.Response.{Response, returns, panics, endless, parse_mysql_response}
use packetbeat.Mysql.State.{Mysql, MysqlDetails, MysqlTransaction}
use packetbeat.Mysql.Stream.{MysqlStream, StreamResult, kept, dropped, recovered, hung, done, hangs}
use packetbeat.Mysql.Transactions.{
  Dump, finish_mysql, finish_raw, complete_mysql, received_mysql_response, handle_mysql, details_of,
  fill_mysql_response, MysqlPrivateData, mysql_private_data, with_stream, parse_result, parse_mysql,
}
use packetbeat.Mysql.Returns.{IsStream?, Returns, data_of, not_done, mysql_parse_stream-Returns}

-- `parseMysqlResponse` does not end on a part of the bytes, with the options of some state.
abbrev pub EndlessIn : Bytes → Type 0
EndlessIn bytes =
    (from : ℕ) × (to : ℕ) × (w : Mysql) × (parse_mysql_response w.max_row_length w.max_store_rows
        (slice bytes from to)
      ≡ endless)

finish_mysql_hangs :
    (env : Lookups) (dump : Dump) (details : MysqlDetails) (trans : MysqlTransaction) (w : Mysql)
    (r : Response)
    → finish_mysql env dump details trans w r ≡ hangs
    → r ≡ endless
unfolding finish_mysql
finish_mysql_hangs env dump details trans w (returns fs rs) e = absurd (cc e)
finish_mysql_hangs env dump details trans w panics e = absurd (cc e)
finish_mysql_hangs env dump details trans w endless e = refl

complete_mysql_hangs :
    (env : Lookups) (dump : Dump) (m : MysqlMessage) (raw : Bytes) (t : Option MysqlTransaction)
    (w : Mysql)
    → complete_mysql env dump m raw t w ≡ hangs
    → parse_mysql_response w.max_row_length w.max_store_rows raw ≡ endless
unfolding complete_mysql finish_raw
complete_mysql_hangs env dump m raw none w e = absurd (cc e)
complete_mysql_hangs env dump m raw (some t) w e = of_fields t.mysql e
  where
    of_fields :
        (fields : Option (Option MysqlDetails))
        → (elim fields [
          | none ↦ done w
          | some f ↦ finish_raw env dump raw (details_of m) (fill_mysql_response m t) w
        ])
          ≡ hangs
        → parse_mysql_response w.max_row_length w.max_store_rows raw ≡ endless
    of_fields none e = absurd (cc e)
    of_fields (some f) e =
        finish_mysql_hangs env dump (details_of m) (fill_mysql_response m t) w _
          (not_done (length raw == 0) _ _ e)

handle_mysql_hangs :
    (env : Lookups) (dump : Dump) (tuple : TcpTuple) (direction : ℕ) (m : MysqlMessage)
    (raw : Bytes) (w : Mysql)
    → handle_mysql env dump tuple direction m raw w ≡ hangs
    → parse_mysql_response w.max_row_length w.max_store_rows raw ≡ endless
unfolding handle_mysql received_mysql_response
handle_mysql_hangs env dump tuple direction m raw w e =
    complete_mysql_hangs env dump m raw (lookup (env.hashable tuple) w.transactions_map) w
      (not_done m.is_request _ _ e)

abbrev pub AreStreams : Option MysqlPrivateData → Type 0
AreStreams none = Unit
AreStreams (some priv) = IsStream? priv.reverse × IsStream? priv.original

-- `Parse` has returned, with streams that are well formed, or `parseMysqlResponse` does not end on a
-- part of the bytes.
abbrev pub PluginReturns : Bytes → Option (Option MysqlPrivateData × Mysql) → Type 0
PluginReturns bytes none = EndlessIn bytes
PluginReturns bytes (some (private, w)) = AreStreams private

-- The stream of a direction.
abbrev pub parsed_stream : ℕ → Option MysqlPrivateData → Option MysqlStream
parsed_stream dir private =
    let priv = mysql_private_data private in if dir == 0 then priv.reverse else priv.original

with_stream-AreStreams :
    (dir : ℕ) (s : Option MysqlStream) (priv : MysqlPrivateData)
    → IsStream? s
    → IsStream? priv.reverse
    → IsStream? priv.original
    → AreStreams (some (with_stream dir s priv))
unfolding with_stream
with_stream-AreStreams dir s priv i r o = elim (Bool-cases (dir == 0)) [
  | inl e ↦ rw (with_stream, e) (i, o)
  | inr e ↦ rw (with_stream, e) (r, i)
]

module _ (env : Lookups) (dump : Dump) (tuple : TcpTuple) (dir : ℕ) where
  parse_result-Returns :
      (bytes : Bytes) (priv : MysqlPrivateData) (r : Option (StreamResult Mysql))
      → AreStreams (some priv)
      → Returns (handle_mysql env dump tuple dir) bytes r
      → PluginReturns bytes (parse_result dir priv r)
  unfolding parse_result
  parse_result-Returns bytes priv none i h = absurd h
  parse_result-Returns bytes priv (some (kept s w)) i h =
      with_stream-AreStreams dir (some s) priv h i.0 i.1
  parse_result-Returns bytes priv (some (dropped w)) i h =
      with_stream-AreStreams dir none priv tt i.0 i.1
  parse_result-Returns bytes priv (some (recovered w)) i h = tt
  parse_result-Returns bytes priv (some hung) i (m, from, to, w, e) =
      (from, to, w, handle_mysql_hangs env dump tuple dir m _ w e)

  private_data-AreStreams :
      (private : Option MysqlPrivateData)
      → AreStreams private
      → AreStreams (some (mysql_private_data private))
  unfolding mysql_private_data
  private_data-AreStreams none i = (tt, tt)
  private_data-AreStreams (some priv) i = i

  of_direction :
      (b : Bool) (r o : Option MysqlStream)
      → IsStream? r
      → IsStream? o
      → IsStream? (if b then r else o)
  of_direction true r o i j = i
  of_direction false r o i j = j

  -- On every packet, from streams that are well formed or nil, `Parse` of MySQL returns, and leaves
  -- streams that are well formed or nil, whatever transactions there are; unless `parseMysqlResponse`
  -- does not end, with some options, on a part of what the stream holds and the packet.
  pub parse_mysql-Returns :
      (pkt : Packet) (private : Option MysqlPrivateData) (mysql : Mysql)
      → AreStreams private
      → PluginReturns
          (data_of pkt (parsed_stream dir private))
          (parse_mysql env dump pkt tuple dir private mysql)
  unfolding parse_mysql
  parse_mysql-Returns pkt private mysql i =
      let both = private_data-AreStreams private i in
      parse_result-Returns _ (mysql_private_data private) _ both (
        mysql_parse_stream-Returns (handle_mysql env dump tuple dir) pkt (parsed_stream dir private)
          mysql (of_direction (dir == 0) _ _ both.0 both.1))
