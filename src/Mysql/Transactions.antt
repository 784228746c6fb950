-- ===== src/Mysql/Transactions.antt =====
-- protos/mysql/mysql.go: transactions, from the messages of a stream to published events.
-- A transaction is reached through the map only, and by its own timer, which is stopped when the
-- transaction leaves the map; so the map holds the transactions themselves, and `timer` says that
-- the timer is armed.
pub mod Laws
use packetbeat.Base.{
  ℕ, ◌/◌, ◌++◌, Bool, true, false, ◌||◌, List, [], ◌∷◌, Option, none, some, take, ltb, ◌==◌,
  if◌then◌else◌, length,
}
use packetbeat.Base.GoMap.{lookup, put, delete, bytes_instance}
use packetbeat.Base.Text.{Bytes, to_upper}
use packetbeat.Protos.{Packet, TcpTuple}
use packetbeat.Mysql.Message.{MysqlMessage}
use packetbeat.Mysql.Response.{Response, returns, panics, endless, parse_mysql_response}
use packetbeat.Redis.Transactions.{Lookups, override, no_endpoint}
use packetbeat.Transaction.{CmdlineTuple, Endpoint, endpoints, response_time}
use packetbeat.Mysql.Stream.{
  Handled, done, crashed, hangs, MysqlStream, StreamResult, kept, dropped, recovered, hung,
  parse_stream,
}
use packetbeat.Mysql.State.{
  MysqlDetails, MysqlTransaction, MysqlEvent, Mysql, MysqlConfig, override_number, init_defaults,
  set_from_config, init_mysql, new_mysql_transaction, trim, first_word, method_of,
}

-- What `receivedMysqlRequest` writes into the transaction.
unfoldable pub fill_mysql_request :
    MysqlMessage → TcpTuple → ℕ → CmdlineTuple → MysqlTransaction → MysqlTransaction
fill_mysql_request msg tuple direction cmdline trans =
    let ends = endpoints tuple cmdline direction in
    let query = trim msg.query in
    record trans {
      ts = msg.ts;
      ts_micros = msg.ts / 1000;
      src = ends.src;
      dst = ends.dst;
      query = query;
      method = method_of query;
      mysql = some none;
      request_raw = msg.query;
      timer = true;
    }

unfoldable pub found_or_new_mysql : TcpTuple → Option MysqlTransaction → MysqlTransaction
found_or_new_mysql tuple none = new_mysql_transaction tuple
found_or_new_mysql tuple (some trans) = trans

-- `receivedMysqlRequest`: the transaction of the tuple, or a new one, is overwritten.
unfoldable pub received_mysql_request :
    Lookups → MysqlMessage → TcpTuple → ℕ → CmdlineTuple → Mysql → Mysql
received_mysql_request env msg tuple direction cmdline mysql =
    let key = env.hashable tuple in
    record mysql {
      transactions_map =
          put key
            (fill_mysql_request msg tuple direction cmdline
              (found_or_new_mysql tuple (lookup key mysql.transactions_map)))
            mysql.transactions_map;
    }

-- `expireTransaction`, and the end of `receivedMysqlResponse`, which stops the timer as well.
unfoldable pub expire_mysql : Lookups → MysqlTransaction → Mysql → Mysql
expire_mysql env trans mysql = record mysql {
  transactions_map = delete (env.hashable trans.tuple) mysql.transactions_map;
}

unfoldable pub mysql_event_of : Mysql → MysqlDetails → MysqlTransaction → MysqlEvent
mysql_event_of mysql details t = record {
  status_ok = if details.is_error then false else true;
  responsetime = t.response_time;
  request = if mysql.send_request then some t.request_raw else none;
  response = if mysql.send_response then some t.response_raw else none;
  method = t.method;
  query = t.query;
  mysql = details;
  path = t.path;
  bytes_out = t.size;
  timestamp = t.ts;
  src = t.src;
  dst = t.dst;
}

-- `publishMysqlTransaction`, on a transaction whose map holds the details.
unfoldable pub publish_mysql : MysqlDetails → MysqlTransaction → Mysql → Mysql
publish_mysql details t mysql = elim mysql.results [
  | none ↦ mysql
  | some events ↦ record mysql { results = some (events ++ (mysql_event_of mysql details t ∷ [])) }
]

unfoldable pub details_of : MysqlMessage → MysqlDetails
details_of msg = record {
  affected_rows = msg.affected_rows;
  insert_id = msg.insert_id;
  num_rows = msg.number_of_rows;
  num_fields = msg.number_of_fields;
  is_error = msg.is_error;
  error_code = msg.error_code;
  error_message = msg.error_info;
}

-- What `receivedMysqlResponse` writes into the transaction before it looks at the raw message.
unfoldable pub fill_mysql_response : MysqlMessage → MysqlTransaction → MysqlTransaction
fill_mysql_response msg trans = record trans {
  mysql = some (some (details_of msg));
  size = msg.size;
  path = msg.tables;
  response_time = response_time trans.ts msg.ts;
}

-- libbeat's `DumpInCSVFormat` is the argument `dump`.
abbrev pub Dump : Type 0
Dump = List Bytes → List (List Bytes) → Bytes

-- The rest of `receivedMysqlResponse`, with the result of `parseMysqlResponse`. A panic leaves the
-- transaction in the map, as it was filled.
unfoldable pub finish_mysql :
    Lookups → Dump → MysqlDetails → MysqlTransaction → Mysql → Response → Handled Mysql
finish_mysql env dump details trans mysql (returns fields rows) = done (
    expire_mysql env trans
      (publish_mysql details (record trans { response_raw = dump fields rows }) mysql))
finish_mysql env dump details trans mysql panics = crashed (record mysql {
  transactions_map = put (env.hashable trans.tuple) trans mysql.transactions_map;
})
finish_mysql env dump details trans mysql endless = hangs

-- `if len(msg.Raw) > 0`
unfoldable pub finish_raw :
    Lookups → Dump → Bytes → MysqlDetails → MysqlTransaction → Mysql → Handled Mysql
finish_raw env dump raw details trans mysql =
    if length raw == 0
    then done (expire_mysql env trans (publish_mysql details trans mysql))
    else finish_mysql env dump details trans mysql
        (parse_mysql_response mysql.max_row_length mysql.max_store_rows raw)

-- `receivedMysqlResponse`, on the transaction in the map.
unfoldable pub complete_mysql :
    Lookups → Dump → MysqlMessage → Bytes → Option MysqlTransaction → Mysql → Handled Mysql
complete_mysql env dump msg raw none mysql = done mysql
complete_mysql env dump msg raw (some trans) mysql = elim trans.mysql [
  | none ↦ done mysql
  | some fields ↦ finish_raw env dump raw (details_of msg) (fill_mysql_response msg trans) mysql
]

unfoldable pub received_mysql_response :
    Lookups → Dump → MysqlMessage → Bytes → TcpTuple → Mysql → Handled Mysql
received_mysql_response env dump msg raw tuple mysql =
    complete_mysql env dump msg raw (lookup (env.hashable tuple) mysql.transactions_map) mysql

-- `handleMysql`
unfoldable pub handle_mysql :
    Lookups → Dump → TcpTuple → ℕ → MysqlMessage → Bytes → Mysql → Handled Mysql
handle_mysql env dump tuple direction m raw mysql =
    if m.is_request
    then done (received_mysql_request env m tuple direction (env.find_processes_tuple tuple) mysql)
    else received_mysql_response env dump m raw tuple mysql

-- `mysqlPrivateData`
pub record MysqlPrivateData : Type 0 where
  pub reverse : Option MysqlStream
  pub original : Option MysqlStream

-- The private data of a connection, new where it is nil.
unfoldable pub mysql_private_data : Option MysqlPrivateData → MysqlPrivateData
mysql_private_data none = record { reverse = none; original = none }
mysql_private_data (some priv) = priv

unfoldable pub with_stream : ℕ → Option MysqlStream → MysqlPrivateData → MysqlPrivateData
with_stream dir s priv =
    if dir == 0 then record priv { reverse = s } else record priv { original = s }

-- What `Parse` returns: the private data with the stream, or nil where it has recovered.
unfoldable pub parse_result :
    ℕ → MysqlPrivateData → Option (StreamResult Mysql) → Option (Option MysqlPrivateData × Mysql)
parse_result dir priv none = none
parse_result dir priv (some (kept s mysql)) = some (some (with_stream dir (some s) priv), mysql)
parse_result dir priv (some (dropped mysql)) = some (some (with_stream dir none priv), mysql)
parse_result dir priv (some (recovered mysql)) = some (none, mysql)
parse_result dir priv (some hung) = none

-- `Parse`; `none` is no result of the code.
unfoldable pub parse_mysql :
    Lookups
    → Dump
    → Packet
    → TcpTuple
    → ℕ
    → Option MysqlPrivateData
    → Mysql
    → Option (Option MysqlPrivateData × Mysql)
parse_mysql env dump pkt tuple dir private mysql =
    let priv = mysql_private_data private in
    let stream = if dir == 0 then priv.reverse else priv.original in
    parse_result dir priv (parse_stream (handle_mysql env dump tuple dir) pkt stream mysql)

-- `GapInStream` and `ReceivedFin` return the private data as it was.
unfoldable pub gap_in_mysql_stream :
    TcpTuple → ℕ → Option MysqlPrivateData → Option MysqlPrivateData
gap_in_mysql_stream tuple dir private = private

unfoldable pub received_mysql_fin : TcpTuple → ℕ → Option MysqlPrivateData → Option MysqlPrivateData
received_mysql_fin tuple dir private = private
