-- ===== src/Redis/Transactions.antt =====
-- protos/redis/redis.go: transactions, from the messages of a stream to published events.
-- A transaction is reached through the map only, and by its own timer, which is stopped when the
-- transaction leaves the map; so the map holds the transactions themselves, and `timer` says that
-- the timer is armed.
pub mod Laws
use packetbeat.Base.{
  ℕ, ◌/◌, ◌++◌, Bool, true, false, List, [], ◌∷◌, Option, none, some, ◌==◌, if◌then◌else◌,
}
use packetbeat.Base.GoMap.{lookup, put, delete, bytes_instance}
use packetbeat.Base.Text.{Bytes, codes, to_upper}
use packetbeat.Protos.{Packet, TcpTuple}
use packetbeat.Redis.{RedisMessage, RedisStream, parse_stream}
use packetbeat.Transaction.{CmdlineTuple, Endpoint, endpoints, response_time}

-- `RedisTransaction`, whose `Type` is always "redis". `redis` of `none` is nil.
pub record RedisTransaction : Type 0 where
  pub tuple : TcpTuple
  pub src : Endpoint
  pub dst : Endpoint
  pub response_time : ℕ  -- int32
  pub ts_micros : ℕ  -- `Ts`
  pub ts : ℕ  -- `ts` and `JsTs`
  pub cmdline : CmdlineTuple
  pub method : Bytes
  pub path : Bytes
  pub query : Bytes
  pub is_error : Bool
  pub bytes_out : ℕ
  pub bytes_in : ℕ
  pub redis : Option (List (Bytes × Bytes))
  pub request_raw : Bytes
  pub response_raw : Bytes
  pub timer : Bool

-- The event that `publishTransaction` sends, whose "type" is always "redis".
pub record RedisEvent : Type 0 where
  pub status_ok : Bool
  pub responsetime : ℕ
  pub request : Option Bytes
  pub response : Option Bytes
  pub redis : Option (List (Bytes × Bytes))
  pub method : Bytes
  pub resource : Bytes
  pub query : Bytes
  pub bytes_in : ℕ
  pub bytes_out : ℕ
  pub timestamp : ℕ
  pub src : Endpoint
  pub dst : Endpoint

-- `Redis`; `results` of `none` is a nil channel.
pub record Redis : Type 0 where
  pub ports : List ℕ
  pub send_request : Bool
  pub send_response : Bool
  pub transactions_map : List (Bytes × RedisTransaction)
  pub results : Option (List RedisEvent)

-- `config.Redis`
pub record RedisConfig : Type 0 where
  pub ports : List ℕ
  pub send_request : Option Bool
  pub send_response : Option Bool

unfoldable pub override : Option Bool → Bool → Bool
override none old = old
override (some b) old = b

-- `Init`, with `InitDefaults` and, outside of test mode, `setFromConfig`.
unfoldable pub init : Bool → RedisConfig → Option (List RedisEvent) → Redis → Redis
unfolding override
init test_mode config results redis =
    let defaults = record redis { send_request = false; send_response = false } in
    let configured = if test_mode then defaults else record defaults {
      ports = config.ports;
      send_request = override config.send_request defaults.send_request;
      send_response = override config.send_response defaults.send_response;
    } in
    record configured { transactions_map = []; results = results }

unfoldable pub no_endpoint : Endpoint
no_endpoint = record { ip = []; port = 0; proc = [] }

-- `&RedisTransaction{Type: "redis", tuple: tuple}`
unfoldable pub new_transaction : TcpTuple → RedisTransaction
unfolding no_endpoint
new_transaction tuple = record {
  tuple = tuple;
  src = no_endpoint;
  dst = no_endpoint;
  response_time = 0;
  ts_micros = 0;
  ts = 0;
  cmdline = record { src = []; dst = [] };
  method = [];
  path = [];
  query = [];
  is_error = false;
  bytes_out = 0;
  bytes_in = 0;
  redis = none;
  request_raw = [];
  response_raw = [];
  timer = false;
}

-- libbeat's key of a tuple, and the processes that packetbeat finds for one.
pub record Lookups : Type 0 where
  pub hashable : TcpTuple → Bytes
  pub find_processes_tuple : TcpTuple → CmdlineTuple

-- What `receivedRedisRequest` writes into the transaction.
unfoldable pub fill_request :
    RedisMessage → TcpTuple → ℕ → CmdlineTuple → RedisTransaction → RedisTransaction
fill_request msg tuple direction cmdline trans =
    let ends = endpoints tuple cmdline direction in
    record trans {
      redis = some [];
      method = msg.method;
      path = msg.path;
      query = msg.message;
      request_raw = msg.message;
      bytes_in = msg.size;
      cmdline = cmdline;
      ts = msg.ts;
      ts_micros = msg.ts / 1000;
      src = ends.src;
      dst = ends.dst;
      timer = true;
    }

unfoldable pub found_or_new : TcpTuple → Option RedisTransaction → RedisTransaction
found_or_new tuple none = new_transaction tuple
found_or_new tuple (some trans) = trans

-- `receivedRedisRequest`: the transaction of the tuple, or a new one, is overwritten.
unfoldable pub received_redis_request :
    Lookups → RedisMessage → TcpTuple → ℕ → CmdlineTuple → Redis → Redis
received_redis_request env msg tuple direction cmdline redis =
    let key = env.hashable tuple in
    record redis {
      transactions_map =
          put key
            (fill_request msg tuple direction cmdline
              (found_or_new tuple (lookup key redis.transactions_map)))
            redis.transactions_map;
    }

-- `expireTransaction`
unfoldable pub expire_transaction : Lookups → RedisTransaction → Redis → Redis
expire_transaction env trans redis = record redis {
  transactions_map = delete (env.hashable trans.tuple) redis.transactions_map;
}

unfoldable pub event_of : Redis → RedisTransaction → RedisEvent
event_of redis t = record {
  status_ok = if t.is_error then false else true;
  responsetime = t.response_time;
  request = if redis.send_request then some t.request_raw else none;
  response = if redis.send_response then some t.response_raw else none;
  redis = t.redis;
  method = to_upper t.method;
  resource = t.path;
  query = t.query;
  bytes_in = t.bytes_in;
  bytes_out = t.bytes_out;
  timestamp = t.ts;
  src = t.src;
  dst = t.dst;
}

-- `publishTransaction`
unfoldable pub publish_transaction : RedisTransaction → Redis → Redis
publish_transaction t redis = elim redis.results [
  | none ↦ redis
  | some events ↦ record redis { results = some (events ++ (event_of redis t ∷ [])) }
]

-- What `receivedRedisResponse` writes into the transaction, whose `Redis` is the given map.
unfoldable pub fill_response :
    RedisMessage → List (Bytes × Bytes) → RedisTransaction → RedisTransaction
fill_response msg fields trans = record trans {
  is_error = msg.is_error;
  redis =
      some (put (if msg.is_error then codes "error" else codes "return_value") msg.message fields);
  bytes_out = msg.size;
  response_raw = msg.message;
  response_time = response_time trans.ts msg.ts;
}

-- `receivedRedisResponse`, on the transaction in the map.
unfoldable pub complete_transaction :
    Lookups → RedisMessage → Option RedisTransaction → Redis → Redis
complete_transaction env msg none redis = redis
complete_transaction env msg (some trans) redis = elim trans.redis [
  | none ↦ redis
  | some fields ↦
      expire_transaction env trans (publish_transaction (fill_response msg fields trans) redis)
]

unfoldable pub received_redis_response : Lookups → RedisMessage → TcpTuple → Redis → Redis
received_redis_response env msg tuple redis =
    complete_transaction env msg (lookup (env.hashable tuple) redis.transactions_map) redis

-- `handleRedis`
unfoldable pub handle_redis : Lookups → TcpTuple → ℕ → RedisMessage → Redis → Redis
handle_redis env tuple direction m redis =
    if m.is_request
    then received_redis_request env m tuple direction (env.find_processes_tuple tuple) redis
    else received_redis_response env m tuple redis

-- `redisPrivateData`
pub record RedisPrivateData : Type 0 where
  pub reverse : Option RedisStream
  pub original : Option RedisStream

no_data : RedisPrivateData
no_data = record { reverse = none; original = none }

private_data : Option RedisPrivateData → RedisPrivateData
private_data none = no_data
private_data (some priv) = priv

-- `Parse`; `none` is no result of the code.
unfoldable pub parse :
    Lookups
    → Packet
    → TcpTuple
    → ℕ
    → Option RedisPrivateData
    → Redis
    → Option (RedisPrivateData × Redis)
unfolding private_data no_data
parse env pkt tuple dir private redis =
    let priv = private_data private in
    let stream = if dir == 0 then priv.reverse else priv.original in
    elim (parse_stream (handle_redis env tuple dir) pkt stream redis) [
      | none ↦ none
      | some (s, redis') ↦
          some
            (if dir == 0 then record priv { reverse = s } else record priv { original = s }, redis')
    ]

-- `GapInStream` and `ReceivedFin` return the private data as it was.
unfoldable pub gap_in_stream : TcpTuple → ℕ → Option RedisPrivateData → Option RedisPrivateData
gap_in_stream tuple dir private = private

unfoldable pub received_fin : TcpTuple → ℕ → Option RedisPrivateData → Option RedisPrivateData
received_fin tuple dir private = private
