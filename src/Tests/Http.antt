-- ===== src/Tests/Http.antt =====
-- The theorems on protos/http/http.go at small inputs, and runs of its parser.
use packetbeat.Base.{◌++◌, ◌≡◌, ◌≢◌, ◌⊎◌, refl, true, false, [], ◌∷◌, some, none, arith}
use packetbeat.Base.Find.{index}
use packetbeat.Base.GoMap.{lookup, put, bytes_instance}
use packetbeat.Base.Text.{Bytes, codes}
use packetbeat.Http.{message_parser}
use packetbeat.Http.Hiding.{hide_headers, has_authorization, block_with, hidden, hide_headers_hides}
use packetbeat.Http.Message.{start_state, HttpMessage, new_message, Cursor, Options}
use packetbeat.Http.Parameters.{
  Urls, Values, is_secret_parameter, hide_values, hide_secrets, extract_parameters,
}
use packetbeat.Http.Secrets.{ShowsNone, extract_parameters-ShowsNone}
use packetbeat.Http.Termination.{Ends, message_parser-Ends}
use packetbeat.Http.Correlation.{Tells, http_request_response}
use packetbeat.Http.State.{Http, HttpEvent}
use packetbeat.Http.Transactions.{done, handle_http}
use packetbeat.Base.Slice.{Buffer}
use packetbeat.Protos.{TcpTuple}
use packetbeat.Redis.Transactions.{Lookups}
use packetbeat.Transaction.{endpoints}

abbrev options : Options
options = record {
  send_headers = true;
  send_all_headers = true;
  whitelist = [];
  real_ip_header = [];
}

abbrev get_text : Bytes
get_text = codes "GET / HTTP/1.1\r\nHost: a\r\n\r\n"

abbrev get_buffer : Buffer
get_buffer = record { bytes = get_text; spare = [] }

abbrev at_start : Cursor
at_start = record {
  parse_offset = 0;
  parse_state = start_state;
  body_received = 0;
  message = new_message 5;
}

message_parser-Ends_example : Ends options get_buffer (message_parser options get_buffer at_start)
message_parser-Ends_example = message_parser-Ends options get_buffer at_start (omega arith, tt)

abbrev with_credentials : HttpMessage
with_credentials = record (new_message 5) {
  is_request = true;
  header_offset = 3;
  body_offset = 31;
  headers = (codes "authorization", codes "Basic") ∷ [];
}

abbrev before : Bytes
before = codes "A: b\r\n"

abbrev value : Bytes
value = codes " Basic"

abbrev rest_of : Bytes
rest_of = []

credentials_stored :
    has_authorization (lookup (codes "authorization") with_credentials.headers) ≡ true
unfolding has_authorization lookup
credentials_stored = refl

credentials_first : index (codes "Authorization:") (block_with before value rest_of) ≡ some 6
unfolding index
credentials_first = refl

hide_headers_hides_example :
    hide_headers true with_credentials
      (record { bytes = codes "G\r\n" ++ (block_with before value rest_of ++ []); spare = [] })
    ≡ some (
      record with_credentials {
        headers = put (codes "authorization") (codes "*") with_credentials.headers;
      },
      codes "G\r\n" ++ (block_with before (hidden 0 value) rest_of ++ []),
    )
hide_headers_hides_example =
    hide_headers_hides with_credentials (codes "G\r\n") before value rest_of [] [] refl
      credentials_stored refl refl credentials_first
      (refl, (refl, (refl, (refl, (refl, (refl, tt))))))

-- A request with a password; `urls` gives the values that net/url finds in it.
abbrev urls : Urls
urls = record {
  parse = λ u. some (codes "/login", (codes "Pass", codes "secret" ∷ []) ∷ []);
  parse_query = λ s. none;
  encode = λ v. codes "Pass=xxxxx";
}

login_shown :
    extract_parameters urls (codes "pass" ∷ []) (new_message 5) get_buffer
    ≡ some (codes "/login", codes "Pass=xxxxx")
unfolding extract_parameters hide_secrets hide_values is_secret_parameter
login_shown = refl

extract_parameters-ShowsNone_example :
    (codes "Pass=xxxxx" ≡ [])
    ⊎ ((values : Values) × (codes "Pass=xxxxx" ≡ urls.encode values)
        × ShowsNone (codes "pass" ∷ []) values)
extract_parameters-ShowsNone_example =
    extract_parameters-ShowsNone urls (codes "pass" ∷ []) (new_message 5) get_buffer
      (codes "/login") (codes "Pass=xxxxx") login_shown

abbrev lookups : Lookups
lookups = record {
  hashable = λ t. t.src_ip ++ (t.src_port ∷ t.dst_ip) ++ (t.dst_port ∷ t.stream_id ∷ []);
  find_processes_tuple = λ t. record { src = codes "curl"; dst = codes "nginx" };
}

abbrev tuple : TcpTuple
tuple = record {
  ip_length = 4;
  src_ip = 1 ∷ [];
  dst_ip = 2 ∷ [];
  src_port = 1024;
  dst_port = 80;
  stream_id = 1;
}

abbrev empty_http : Http
empty_http = record {
  ports = 80 ∷ [];
  send_request = true;
  send_response = true;
  options = options;
  split_cookie = false;
  hide_keywords = codes "pass" ∷ [];
  strip_authorization = true;
  include_body_for = [];
  transactions_map = [];
  results = some [];
}

abbrev get_request : HttpMessage
get_request = record (new_message 7) { is_request = true; method = codes "GET"; body_offset = 27 }

abbrev ok_text : Bytes
ok_text = codes "HTTP/1.1 204 OK\r\n\r\n"

abbrev ok_buffer : Buffer
ok_buffer = record { bytes = ok_text; spare = [] }

abbrev ok_response : HttpMessage
ok_response = record (new_message 3_000_007) { status_code = 204; body_offset = 19 }

http_request_response_example :
    (left left' : Buffer) × (asked after : Http) × (e : HttpEvent) × (handle_http lookups urls tuple
        1 get_request get_buffer empty_http
      ≡ done left asked)
    × (handle_http lookups urls tuple 0 ok_response ok_buffer asked ≡ done left' after)
    × (lookup (lookups.hashable tuple) after.transactions_map ≡ none)
    × ((k : Bytes)
        → k ≢ lookups.hashable tuple
        → lookup k after.transactions_map ≡ lookup k empty_http.transactions_map)
    × (after.results ≡ some ([] ++ e ∷ []))
    × Tells empty_http
        (endpoints tuple (lookups.find_processes_tuple tuple) 1)
        get_request
        ok_response
        e
http_request_response_example =
    http_request_response lookups urls tuple 1 0 get_request ok_response get_buffer ok_buffer
      empty_http [] refl refl (omega arith) (omega arith) refl
