-- ===== src/Http/State.antt =====
-- protos/http/http.go: transactions, the state `Http` and its options.
use packetbeat.Base.{
  ℕ, Bool, true, false, List, [], ◌∷◌, Option, none, some, length, ltb, if◌then◌else◌,
}
use packetbeat.Base.GoMap.{put, bytes_instance}
use packetbeat.Base.Int.{ℤ}
use packetbeat.Base.Scan.{to_lower}
use packetbeat.Base.Text.{Bytes}
use packetbeat.Http.Message.{Options}
use packetbeat.Protos.{TcpTuple}
use packetbeat.Redis.Transactions.{override, no_endpoint}
use packetbeat.Transaction.{Endpoint}

-- The value of a header in an event: as it came, or split into cookies.
pub data HeaderValue : Type 0 where
  plain : Bytes → HeaderValue
  cookies : List (Bytes × Bytes) → HeaderValue

-- `response`, with which `receivedHttpResponse` updates the map `trans.Http`.
pub record HttpResponse : Type 0 where
  pub phrase : Bytes
  pub code : ℕ
  pub content_length : ℤ
  pub response_headers : Option (List (Bytes × HeaderValue))

-- The map `trans.Http`.
pub record HttpDetails : Type 0 where
  pub request_headers : Option (List (Bytes × HeaderValue))
  pub response : Option HttpResponse

-- `HttpTransaction`, whose `Type` is always "http". `http` of `none` is nil.
pub record HttpTransaction : Type 0 where
  pub tuple : TcpTuple
  pub src : Endpoint
  pub dst : Endpoint
  pub real_ip : Bytes
  pub response_time : ℕ  -- int32
  pub ts_micros : ℕ  -- `Ts`
  pub ts : ℕ  -- `ts` and `JsTs`
  pub method : Bytes
  pub request_uri : Bytes
  pub params : Bytes
  pub path : Bytes
  pub http : Option HttpDetails
  pub request_raw : Bytes
  pub response_raw : Bytes
  pub timer : Bool

-- The event that `PublishTransaction` sends, whose "type" is always "http" and whose "query" is the
-- method, a space and the path.
pub record HttpEvent : Type 0 where
  pub status_ok : Bool
  pub responsetime : ℕ
  pub request : Option Bytes
  pub response : Option Bytes
  pub http : HttpDetails
  pub real_ip : Option Bytes
  pub method : Bytes
  pub path : Bytes
  pub params : Bytes
  pub timestamp : ℕ
  pub src : Endpoint
  pub dst : Endpoint

-- `Http`, with `Include_body_for` of the configuration; `results` of `none` is a nil channel.
pub record Http : Type 0 where
  pub ports : List ℕ
  pub send_request : Bool
  pub send_response : Bool
  pub options : Options
  pub split_cookie : Bool
  pub hide_keywords : List Bytes
  pub strip_authorization : Bool
  pub include_body_for : List Bytes
  pub transactions_map : List (Bytes × HttpTransaction)
  pub results : Option (List HttpEvent)

-- `config.Http`
pub record HttpConfig : Type 0 where
  pub ports : List ℕ
  pub send_all_headers : Option Bool
  pub send_headers : List Bytes
  pub split_cookie : Option Bool
  pub real_ip_header : Option Bytes
  pub include_body_for : List Bytes
  pub hide_keywords : List Bytes
  pub strip_authorization : Option Bool
  pub send_request : Option Bool
  pub send_response : Option Bool

-- `InitDefaults`
unfoldable pub init_defaults : Http → Http
init_defaults http = record http {
  send_request = false;
  send_response = false;
  strip_authorization = false;
}

-- The headers to send, as the set `Headers_whitelist`.
unfoldable pub whitelist_of : List Bytes → List (Bytes × Bool) → List (Bytes × Bool)
whitelist_of [] set = set
whitelist_of (h ∷ hs) set = whitelist_of hs (put (to_lower h) true set)

unfoldable pub headers_from_config : HttpConfig → Options → Options
headers_from_config config o = elim (config.send_all_headers) [
  | some b ↦ record o { send_headers = true; send_all_headers = true }
  | none ↦
      if ltb 0 (length config.send_headers)
      then record o { send_headers = true; whitelist = whitelist_of config.send_headers [] }
      else o
]

unfoldable pub real_ip_from_config : Option Bytes → Options → Options
real_ip_from_config none o = o
real_ip_from_config (some h) o = record o { real_ip_header = to_lower h }

-- `SetFromConfig`
unfoldable pub set_from_config : HttpConfig → Http → Http
unfolding override
set_from_config config http = record http {
  ports = config.ports;
  send_request = override config.send_request http.send_request;
  send_response = override config.send_response http.send_response;
  options = real_ip_from_config config.real_ip_header (headers_from_config config http.options);
  split_cookie = override config.split_cookie http.split_cookie;
  hide_keywords = config.hide_keywords;
  strip_authorization = override config.strip_authorization http.strip_authorization;
}

-- `Init`
unfoldable pub init_http : Bool → HttpConfig → Option (List HttpEvent) → Http → Http
init_http test_mode config results http =
    let defaults = init_defaults http in
    let configured = if test_mode then defaults else set_from_config config defaults in
    record configured {
      include_body_for = config.include_body_for;
      transactions_map = [];
      results = results;
    }

-- `&HttpTransaction{Type: "http", tuple: msg.TcpTuple}`
unfoldable pub new_transaction : TcpTuple → HttpTransaction
unfolding no_endpoint
new_transaction tuple = record {
  tuple = tuple;
  src = no_endpoint;
  dst = no_endpoint;
  real_ip = [];
  response_time = 0;
  ts_micros = 0;
  ts = 0;
  method = [];
  request_uri = [];
  params = [];
  path = [];
  http = none;
  request_raw = [];
  response_raw = [];
  timer = false;
}
