-- ===== src/Mysql/State.antt =====
-- protos/mysql/mysql.go: transactions, the state `Mysql` and its options, and the text of queries.
-- The options for the rows are taken as natural numbers.
use packetbeat.Base.{ℕ, Bool, false, ◌||◌, List, [], ◌∷◌, Option, none, some, ◌==◌, if◌then◌else◌}
use packetbeat.Base.GoMap.{bytes_instance}
use packetbeat.Base.Text.{Bytes, to_upper, trim_by, trim_by}
use packetbeat.Protos.{TcpTuple}
use packetbeat.Redis.Transactions.{override, no_endpoint}
use packetbeat.Transaction.{Endpoint}

-- What `receivedMysqlResponse` puts into the map `trans.Mysql`.
pub record MysqlDetails : Type 0 where
  pub affected_rows : ℕ
  pub insert_id : ℕ
  pub num_rows : ℕ
  pub num_fields : ℕ
  pub is_error : Bool
  pub error_code : ℕ
  pub error_message : Bytes

-- `MysqlTransaction`, whose `Type` is always "mysql". `mysql` of `none` is nil, and of `some none`
-- the empty map.
pub record MysqlTransaction : Type 0 where
  pub tuple : TcpTuple
  pub src : Endpoint
  pub dst : Endpoint
  pub response_time : ℕ  -- int32
  pub ts_micros : ℕ  -- `Ts`
  pub ts : ℕ  -- `ts` and `JsTs`
  pub query : Bytes
  pub method : Bytes
  pub path : Bytes
  pub size : ℕ
  pub mysql : Option (Option MysqlDetails)
  pub request_raw : Bytes
  pub response_raw : Bytes
  pub timer : Bool

-- The event that `publishMysqlTransaction` sends, whose "type" is always "mysql".
pub record MysqlEvent : Type 0 where
  pub status_ok : Bool
  pub responsetime : ℕ
  pub request : Option Bytes
  pub response : Option Bytes
  pub method : Bytes
  pub query : Bytes
  pub mysql : MysqlDetails
  pub path : Bytes
  pub bytes_out : ℕ
  pub timestamp : ℕ
  pub src : Endpoint
  pub dst : Endpoint

-- `Mysql`; `results` of `none` is a nil channel.
pub record Mysql : Type 0 where
  pub ports : List ℕ
  pub max_store_rows : ℕ
  pub max_row_length : ℕ
  pub send_request : Bool
  pub send_response : Bool
  pub transactions_map : List (Bytes × MysqlTransaction)
  pub results : Option (List MysqlEvent)

-- `config.Mysql`
pub record MysqlConfig : Type 0 where
  pub ports : List ℕ
  pub max_row_length : Option ℕ
  pub max_rows : Option ℕ
  pub send_request : Option Bool
  pub send_response : Option Bool

unfoldable pub override_number : Option ℕ → ℕ → ℕ
override_number none old = old
override_number (some n) old = n

-- `InitDefaults`
unfoldable pub init_defaults : Mysql → Mysql
init_defaults mysql = record mysql {
  max_row_length = 1024;
  max_store_rows = 10;
  send_request = false;
  send_response = false;
}

-- `setFromConfig`
unfoldable pub set_from_config : MysqlConfig → Mysql → Mysql
unfolding override
set_from_config config mysql = record mysql {
  ports = config.ports;
  max_row_length = override_number config.max_row_length mysql.max_row_length;
  max_store_rows = override_number config.max_rows mysql.max_store_rows;
  send_request = override config.send_request mysql.send_request;
  send_response = override config.send_response mysql.send_response;
}

-- `Init`
unfoldable pub init_mysql : Bool → MysqlConfig → Option (List MysqlEvent) → Mysql → Mysql
init_mysql test_mode config results mysql =
    let defaults = init_defaults mysql in
    let configured = if test_mode then defaults else set_from_config config defaults in
    record configured { transactions_map = []; results = results }

-- `&MysqlTransaction{Type: "mysql", tuple: tuple}`
unfoldable pub new_mysql_transaction : TcpTuple → MysqlTransaction
unfolding no_endpoint
new_mysql_transaction tuple = record {
  tuple = tuple;
  src = no_endpoint;
  dst = no_endpoint;
  response_time = 0;
  ts_micros = 0;
  ts = 0;
  query = [];
  method = [];
  path = [];
  size = 0;
  mysql = none;
  request_raw = [];
  response_raw = [];
  timer = false;
}

-- One of " \n\t".
abbrev pub is_blank : ℕ → Bool
is_blank c = c == 32 || (c == 10 || c == 9)

-- `strings.Trim(query, " \n\t")`
unfoldable pub trim : Bytes → Bytes
trim s = trim_by is_blank s

-- `query[:index]` for the index of the first blank, or all of it.
unfoldable pub first_word : Bytes → Bytes
first_word [] = []
first_word (c ∷ s) = let rest = first_word s in if is_blank c then [] else c ∷ rest

-- The method of a trimmed query, which does not start with a blank.
unfoldable pub method_of : Bytes → Bytes
method_of query = to_upper (first_word query)
