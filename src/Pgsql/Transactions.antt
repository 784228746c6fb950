-- ===== src/Pgsql/Transactions.antt =====
-- protos/pgsql/pgsql.go: transactions, from the messages of a stream to published events.
-- A connection has a list of transactions, for the queries that wait. A timer is stopped when its
-- transaction leaves the list.
use packetbeat.Base.{
  ℕ, zero, suc, ◌+◌, ◌/◌, ◌++◌, true, false, List, [], ◌∷◌, Option, none, some, ◌==◌, if◌then◌else◌,
}
use packetbeat.Base.GoMap.{lookup, put, delete, bytes_instance}
use packetbeat.Base.Text.{Bytes}
use packetbeat.Protos.{TcpTuple}
use packetbeat.Pgsql.Message.{PgsqlMessage}
use packetbeat.Pgsql.State.{
  PgsqlDetails, PgsqlTransaction, PgsqlEvent, Pgsql, new_transaction, query_parser, query_method,
}
use packetbeat.Redis.Transactions.{Lookups}
use packetbeat.Mysql.Transactions.{Dump}
use packetbeat.Transaction.{CmdlineTuple, endpoints, response_time}

-- The list of a key, where a missing one is nil, which is empty.
unfoldable pub waiting : Bytes → List (Bytes × List PgsqlTransaction) → List PgsqlTransaction
waiting k m = elim (lookup k m) [ none ↦ [] | some ts ↦ ts ]

-- What `receivedPgsqlRequest` makes of one query.
unfoldable pub query_transaction :
    PgsqlMessage → TcpTuple → ℕ → CmdlineTuple → ℕ → Bytes → PgsqlTransaction
query_transaction msg tuple direction cmdline id query =
    let ends = endpoints tuple cmdline direction in
    record (new_transaction id tuple) {
      ts = msg.ts;
      ts_micros = msg.ts / 1000;
      src = ends.src;
      dst = ends.dst;
      pgsql = some none;
      query = query;
      method = query_method query;
      request_raw = query;
      timer = true;
    }

-- The loop over the queries: each is appended to the list of the key.
unfoldable pub add_queries : Bytes → (ℕ → Bytes → PgsqlTransaction) → List Bytes → Pgsql → Pgsql
add_queries key make [] pgsql = pgsql
add_queries key make (q ∷ qs) pgsql = add_queries key make qs (record pgsql {
  transactions_map =
      put key (waiting key pgsql.transactions_map ++ (make pgsql.next_id q ∷ []))
        pgsql.transactions_map;
  next_id = pgsql.next_id + 1;
})

-- `receivedPgsqlRequest`
unfoldable pub received_request :
    Lookups → PgsqlMessage → TcpTuple → ℕ → CmdlineTuple → Pgsql → Pgsql
received_request env msg tuple direction cmdline pgsql =
    let key = env.hashable tuple in
    add_queries key (query_transaction msg tuple direction cmdline) (query_parser msg.query)
      (record pgsql {
        transactions_map = put key (waiting key pgsql.transactions_map) pgsql.transactions_map;
      })

-- `append(trans_list[:index], trans_list[index+1:]...)`
unfoldable pub remove_at : ℕ → List PgsqlTransaction → List PgsqlTransaction
remove_at i [] = []
remove_at zero (t ∷ ts) = ts
remove_at (suc i) (t ∷ ts) = t ∷ remove_at i ts

-- The end of `removeTransaction`, with the list that is left. The key of the transaction is that
-- of the list.
unfoldable pub store_list : Bytes → List PgsqlTransaction → Pgsql → Pgsql
store_list key [] pgsql = record pgsql { transactions_map = delete key pgsql.transactions_map }
store_list key (t ∷ ts) pgsql = record pgsql {
  transactions_map = put key (t ∷ ts) pgsql.transactions_map;
}

-- `removeTransaction`, on an index of the list.
unfoldable pub remove_transaction : Bytes → ℕ → Pgsql → Pgsql
remove_transaction key i pgsql =
    store_list key (remove_at i (waiting key pgsql.transactions_map)) pgsql

unfoldable pub event_of : Pgsql → PgsqlDetails → PgsqlTransaction → PgsqlEvent
event_of pgsql details t = record {
  status_ok = if details.is_error then false else true;
  responsetime = t.response_time;
  request = if pgsql.send_request then some t.request_raw else none;
  response = if pgsql.send_response then some t.response_raw else none;
  query = t.query;
  method = t.method;
  bytes_out = t.size;
  pgsql = details;
  timestamp = t.ts;
  src = t.src;
  dst = t.dst;
}

-- `publishTransaction`, on a transaction whose map holds the details.
unfoldable pub publish_transaction : PgsqlDetails → PgsqlTransaction → Pgsql → Pgsql
publish_transaction details t pgsql = elim (pgsql.results) [
  | none ↦ pgsql
  | some events ↦ record pgsql { results = some (events ++ (event_of pgsql details t ∷ [])) }
]

unfoldable pub details_of : PgsqlMessage → PgsqlDetails
details_of msg = record {
  is_error = msg.is_error;
  num_rows = msg.number_of_rows;
  num_fields = msg.number_of_fields;
  error_code = msg.error_code;
  error_message = msg.error_info;
  error_severity = msg.error_severity;
}

-- What `receivedPgsqlResponse` writes into the transaction.
unfoldable pub fill_response : Dump → PgsqlMessage → PgsqlTransaction → PgsqlTransaction
fill_response dump msg trans = record trans {
  pgsql = some (some (details_of msg));
  size = msg.size;
  response_time = response_time trans.ts msg.ts;
  response_raw = dump msg.fields msg.rows;
  timer = false;
}

-- `receivedPgsqlResponse`, with the list of the tuple: its first transaction leaves it, and is
-- published.
unfoldable pub answer_first : Dump → PgsqlMessage → Bytes → List PgsqlTransaction → Pgsql → Pgsql
answer_first dump msg key [] pgsql = pgsql
answer_first dump msg key (t ∷ ts) pgsql =
    let removed = remove_transaction key 0 pgsql in
    elim (t.pgsql) [
      | none ↦ removed
      | some fields ↦ publish_transaction (details_of msg) (fill_response dump msg t) removed
    ]

unfoldable pub received_response : Lookups → Dump → PgsqlMessage → TcpTuple → Pgsql → Pgsql
received_response env dump msg tuple pgsql =
    let key = env.hashable tuple in
    answer_first dump msg key (waiting key pgsql.transactions_map) pgsql

-- `handlePgsql`
unfoldable pub handle_pgsql : Lookups → Dump → TcpTuple → ℕ → PgsqlMessage → Pgsql → Pgsql
handle_pgsql env dump tuple direction m pgsql =
    if m.is_request
    then received_request env m tuple direction (env.find_processes_tuple tuple) pgsql
    else received_response env dump m tuple pgsql

-- The index of a transaction in a list, by its address.
unfoldable pub index_of : ℕ → List PgsqlTransaction → Option ℕ
index_of id [] = none
index_of id (t ∷ ts) =
    let rest = index_of id ts in
    if t.id == id then some 0 else elim rest [ none ↦ none | some i ↦ some (suc i) ]

-- `if len(...) == 0 { delete(...) }`
unfoldable pub delete_empty : Bytes → List PgsqlTransaction → Pgsql → Pgsql
delete_empty key [] pgsql = record pgsql { transactions_map = delete key pgsql.transactions_map }
delete_empty key (t ∷ ts) pgsql = pgsql

-- The loop of `expireTransaction`, with the index that it finds.
unfoldable pub remove_found : Bytes → Option ℕ → Pgsql → Pgsql
remove_found key none pgsql = pgsql
remove_found key (some i) pgsql = remove_transaction key i pgsql

-- `expireTransaction`
unfoldable pub expire_transaction : Bytes → ℕ → Pgsql → Pgsql
expire_transaction key id pgsql =
    let found = remove_found key (index_of id (waiting key pgsql.transactions_map)) pgsql in
    delete_empty key (waiting key found.transactions_map) found
