-- ===== src/Pgsql/State.antt =====
-- protos/pgsql/pgsql.go: transactions, the state `Pgsql` and its options, and the text of queries.
-- The options for the rows are taken as natural numbers.
use packetbeat.Base.{
  ℕ, Bool, false, List, [], ◌∷◌, Option, none, some, length, take, ltb, if◌then◌else◌,
}
use packetbeat.Base.Find.{index}
use packetbeat.Base.Space.{trim_space}
use packetbeat.Base.Text.{Bytes, to_upper, split, codes}
use packetbeat.Protos.{TcpTuple}
use packetbeat.Mysql.State.{override_number}
use packetbeat.Redis.Transactions.{override, no_endpoint}
use packetbeat.Transaction.{Endpoint}

-- What `receivedPgsqlResponse` puts into the map `trans.Pgsql`.
pub record PgsqlDetails : Type 0 where
  pub is_error : Bool
  pub num_rows : ℕ
  pub num_fields : ℕ
  pub error_code : Bytes
  pub error_message : Bytes
  pub error_severity : Bytes

-- `PgsqlTransaction`, whose `Type` is always "pgsql"; `id` stands for its address. `pgsql` of
-- `none` is nil, and of `some none` the empty map.
pub record PgsqlTransaction : Type 0 where
  pub id : ℕ
  pub tuple : TcpTuple
  pub src : Endpoint
  pub dst : Endpoint
  pub response_time : ℕ  -- int32
  pub ts_micros : ℕ  -- `Ts`
  pub ts : ℕ  -- `ts` and `JsTs`
  pub query : Bytes
  pub method : Bytes
  pub size : ℕ
  pub pgsql : Option (Option PgsqlDetails)
  pub request_raw : Bytes
  pub response_raw : Bytes
  pub timer : Bool

-- The event that `publishTransaction` sends, whose "type" is always "pgsql".
pub record PgsqlEvent : Type 0 where
  pub status_ok : Bool
  pub responsetime : ℕ
  pub request : Option Bytes
  pub response : Option Bytes
  pub query : Bytes
  pub method : Bytes
  pub bytes_out : ℕ
  pub pgsql : PgsqlDetails
  pub timestamp : ℕ
  pub src : Endpoint
  pub dst : Endpoint

-- `Pgsql`; `results` of `none` is a nil channel, and `next_id` the next fresh address.
pub record Pgsql : Type 0 where
  pub ports : List ℕ
  pub max_store_rows : ℕ
  pub max_row_length : ℕ
  pub send_request : Bool
  pub send_response : Bool
  pub transactions_map : List (Bytes × List PgsqlTransaction)
  pub results : Option (List PgsqlEvent)
  pub next_id : ℕ

-- `config.Pgsql`
pub record PgsqlConfig : Type 0 where
  pub ports : List ℕ
  pub max_row_length : Option ℕ
  pub max_rows : Option ℕ
  pub send_request : Option Bool
  pub send_response : Option Bool

-- `InitDefaults`
unfoldable pub init_defaults : Pgsql → Pgsql
init_defaults pgsql = record pgsql {
  max_row_length = 1024;
  max_store_rows = 10;
  send_request = false;
  send_response = false;
}

-- `setFromConfig`
unfoldable pub set_from_config : PgsqlConfig → Pgsql → Pgsql
unfolding override override_number
set_from_config config pgsql = record pgsql {
  ports = config.ports;
  max_row_length = override_number config.max_row_length pgsql.max_row_length;
  max_store_rows = override_number config.max_rows pgsql.max_store_rows;
  send_request = override config.send_request pgsql.send_request;
  send_response = override config.send_response pgsql.send_response;
}

-- `Init`
unfoldable pub init_pgsql : Bool → PgsqlConfig → Option (List PgsqlEvent) → Pgsql → Pgsql
init_pgsql test_mode config results pgsql =
    let defaults = init_defaults pgsql in
    let configured = if test_mode then defaults else set_from_config config defaults in
    record configured { transactions_map = []; results = results }

-- `&PgsqlTransaction{Type: "pgsql", tuple: tuple}`
unfoldable pub new_transaction : ℕ → TcpTuple → PgsqlTransaction
unfolding no_endpoint
new_transaction id tuple = record {
  id = id;
  tuple = tuple;
  src = no_endpoint;
  dst = no_endpoint;
  response_time = 0;
  ts_micros = 0;
  ts = 0;
  query = [];
  method = [];
  size = 0;
  pgsql = none;
  request_raw = [];
  response_raw = [];
  timer = false;
}

-- The loop of `pgsqlQueryParser`: the pieces that are not blank, trimmed.
unfoldable pub trimmed_queries : List Bytes → List Bytes
trimmed_queries [] = []
trimmed_queries (q ∷ qs) =
    let query = trim_space q in
    let rest = trimmed_queries qs in if ltb 0 (length query) then query ∷ rest else rest

-- `pgsqlQueryParser`
unfoldable pub query_parser : Bytes → List Bytes
unfolding trimmed_queries
query_parser query = trimmed_queries (split query b';')

-- `getQueryMethod`
unfoldable pub query_method : Bytes → Bytes
query_method q = elim (index (codes " ") q) [
  | none ↦ to_upper q
  | some i ↦ if ltb 0 i then to_upper (take i q) else to_upper q
]
