-- ===== src/Http/Transactions.antt =====
-- protos/http/http.go: `handleHttp` and what it calls. The map holds the transactions themselves: a
-- transaction is reached through it and by its own timer, which is stopped when it leaves the map.
use packetbeat.Base.{ℕ, ◌/◌, ◌++◌, true, [], ◌∷◌, Option, none, some, length, ltb, if◌then◌else◌}
use packetbeat.Base.GoMap.{lookup, put, delete, bytes_instance}
use packetbeat.Base.Text.{Bytes, codes}
use packetbeat.Http.Message.{HttpMessage}
use packetbeat.Http.Parameters.{Urls, shown_headers, extract_parameters, cut_message_body}
use packetbeat.Http.State.{
  HttpResponse, HttpDetails, HttpTransaction, HttpEvent, Http, new_transaction,
}
use packetbeat.Base.Slice.{Buffer}
use packetbeat.Protos.{TcpTuple}
use packetbeat.Redis.Transactions.{Lookups}
use packetbeat.Transaction.{CmdlineTuple, endpoints, response_time}

-- What handling a message does: it returns, or panics, with the state that it leaves, and with the
-- bytes of the message as it leaves them.
pub data Handled : Type 0 where
  done : Buffer → Http → Handled
  crashed : Http → Handled

unfoldable pub store : Bytes → HttpTransaction → Http → Http
store key trans http = record http { transactions_map = put key trans http.transactions_map }

unfoldable pub found_or_new : TcpTuple → Option HttpTransaction → HttpTransaction
found_or_new tuple none = new_transaction tuple
found_or_new tuple (some trans) = trans

-- The time and the end points of a request.
unfoldable pub begin_request :
    HttpMessage → TcpTuple → ℕ → CmdlineTuple → HttpTransaction → HttpTransaction
begin_request msg tuple direction cmdline trans =
    let ends = endpoints tuple cmdline direction in
    record trans { ts = msg.ts; ts_micros = msg.ts / 1000; src = ends.src; dst = ends.dst }

-- `trans.Request_raw` and the bytes behind it, where they are asked for.
unfoldable pub cut_request :
    Http → HttpMessage → Buffer → HttpTransaction → Option (HttpTransaction × Buffer)
cut_request http msg raw trans =
    if http.send_request
    then elim (cut_message_body http.include_body_for msg raw) [
      | none ↦ none
      | some (cut, raw') ↦ some (record trans { request_raw = cut }, raw')
    ]
    else some (trans, raw)

-- The headers of a message in an event.
unfoldable pub event_headers : Http → Bytes → HttpMessage → HttpDetails
event_headers http name msg = record {
  request_headers =
      if http.options.send_headers
      then some (shown_headers http.split_cookie name msg.headers)
      else none;
  response = none;
}

unfoldable pub request_details : Http → HttpMessage → HttpTransaction → HttpTransaction
request_details http msg trans = record trans {
  method = msg.method;
  request_uri = msg.request_uri;
  http = some (event_headers http (codes "cookie") msg);
  real_ip = msg.real_ip;
}

-- `receivedHttpRequest`, with the raw bytes of the message.
unfoldable pub received_http_request :
    Lookups → Urls → HttpMessage → Buffer → TcpTuple → ℕ → CmdlineTuple → Http → Handled
received_http_request env urls msg raw tuple direction cmdline http =
    let key = env.hashable tuple in
    let begun =
      begin_request msg tuple direction cmdline
        (found_or_new tuple (lookup key http.transactions_map)) in
    elim (cut_request http msg raw begun) [
      | none ↦ crashed (store key begun http)
      | some (trans, raw') ↦
          let filled = request_details http msg trans in
          elim (extract_parameters urls http.hide_keywords msg raw') [
            | none ↦ crashed (store key filled http)
            | some (path, params) ↦
                done raw'
                  (store key (record filled { path = path; params = params; timer = true }) http)
          ]
    ]

-- `expireTransaction`, and the removal behind a response.
unfoldable pub expire_transaction : Bytes → Http → Http
expire_transaction key http = record http { transactions_map = delete key http.transactions_map }

unfoldable pub shown_real_ip : Bytes → Option Bytes
shown_real_ip ip = if ltb 0 (length ip) then some ip else none

unfoldable pub event_of : Http → HttpDetails → HttpResponse → HttpTransaction → HttpEvent
event_of http details response t = record {
  status_ok = ltb response.code 400;
  responsetime = t.response_time;
  request = if http.send_request then some t.request_raw else none;
  response = if http.send_response then some t.response_raw else none;
  http = details;
  real_ip = shown_real_ip t.real_ip;
  method = t.method;
  path = t.path;
  params = t.params;
  timestamp = t.ts;
  src = t.src;
  dst = t.dst;
}

-- `PublishTransaction`, on a transaction whose map holds the details and the response.
unfoldable pub publish_transaction : HttpDetails → HttpResponse → HttpTransaction → Http → Http
publish_transaction details response t http = elim (http.results) [
  | none ↦ http
  | some events ↦ record http { results = some (events ++ (event_of http details response t ∷ [])) }
]

unfoldable pub response_of : Http → HttpMessage → HttpResponse
response_of http msg = record {
  phrase = msg.status_phrase;
  code = msg.status_code;
  content_length = msg.content_length;
  response_headers =
      if http.options.send_headers
      then some (shown_headers http.split_cookie (codes "set-cookie") msg.headers)
      else none;
}

-- `trans.Response_raw`, where it is asked for.
unfoldable pub cut_response :
    Http → HttpMessage → Buffer → HttpTransaction → Option (HttpTransaction × Buffer)
cut_response http msg raw trans =
    if http.send_response
    then elim (cut_message_body http.include_body_for msg raw) [
      | none ↦ none
      | some (cut, raw') ↦ some (record trans { response_raw = cut }, raw')
    ]
    else some (trans, raw)

-- The end of `receivedHttpResponse`, for a transaction whose request is known.
unfoldable pub complete_http :
    HttpMessage → Buffer → Bytes → HttpDetails → HttpTransaction → Http → Handled
complete_http msg raw key old trans http =
    let response = response_of http msg in
    let details = record old { response = some response } in
    let filled = record trans {
      http = some details;
      response_time = response_time trans.ts msg.ts;
    } in
    elim (cut_response http msg raw filled) [
      | none ↦ crashed (store key filled http)
      | some (trans', raw') ↦
          done raw' (expire_transaction key (publish_transaction details response trans' http))
    ]

-- `receivedHttpResponse`
unfoldable pub received_http_response : Lookups → HttpMessage → Buffer → TcpTuple → Http → Handled
received_http_response env msg raw tuple http =
    let key = env.hashable tuple in
    elim (lookup key http.transactions_map) [
      | none ↦ done raw http
      | some trans ↦ elim (trans.http) [
        | none ↦ done raw http
        | some details ↦ complete_http msg raw key details trans http
      ]
    ]

-- `handleHttp`
unfoldable pub handle_http : Lookups → Urls → TcpTuple → ℕ → HttpMessage → Buffer → Http → Handled
handle_http env urls tuple direction msg raw http =
    if msg.is_request
    then received_http_request env urls msg raw tuple direction (env.find_processes_tuple tuple)
        http
    else received_http_response env msg raw tuple http
