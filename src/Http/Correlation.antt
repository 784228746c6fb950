-- ===== src/Http/Correlation.antt =====
-- protos/http/http.go: a request and its response become one event.
use packetbeat.Base.{
  ℕ, ◌≤◌, ◌++◌, ◌≡◌, ◌≢◌, refl, sym, ◌∙◌, true, false, List, [], ◌∷◌, none, some, length, ltb,
}
use packetbeat.Base.GoMap.{
  lookup, put, delete, lookup-put, lookup-delete, beq_refl, beq_ne, bytes_eq, bytes_instance,
}
use packetbeat.Base.Text.{Bytes, codes}
use packetbeat.Http.Message.{HttpMessage}
use packetbeat.Http.Parameters.{Urls}
use packetbeat.Http.State.{HttpDetails, HttpTransaction, HttpEvent, Http}
use packetbeat.Http.Transactions.{
  done, store, found_or_new, begin_request, event_headers, request_details, received_http_request,
  expire_transaction, event_of, publish_transaction, response_of, complete_http,
  received_http_response, handle_http,
}
use packetbeat.Base.Slice.{Buffer}
use packetbeat.Protos.{TcpTuple}
use packetbeat.Redis.Transactions.{Lookups}
use packetbeat.Transaction.{Endpoints, endpoints, response_time}
use packetbeat.Http.Cutting.{cut_request-some, cut_response-some, extract_parameters-some}

-- The transaction tells of the request.
record Asked (http : Http) (req : HttpMessage) (ends : Endpoints) (t : HttpTransaction)
    : Type 0 where
  details_is : t.http ≡ some (event_headers http (codes "cookie") req)
  ts_is : t.ts ≡ req.ts
  method_is : t.method ≡ req.method
  src_is : t.src ≡ ends.src
  dst_is : t.dst ≡ ends.dst

module _ (env : Lookups) (urls : Urls) (tuple : TcpTuple) where
  abbrev key : Bytes
  key = env.hashable tuple

  -- What is stored for a request, with the texts that were cut and parsed.
  abbrev stored : ℕ → HttpMessage → Http → Bytes → Bytes × Bytes → HttpTransaction
  stored dir req http x shown =
      record (request_details http req
        (record (begin_request req tuple dir (env.find_processes_tuple tuple)
          (found_or_new tuple (lookup key http.transactions_map))) { request_raw = x })) {
            path = shown.0;
            params = shown.1;
            timer = true;
          }

  stored-Asked :
      (dir : ℕ) (req : HttpMessage) (http : Http) (x : Bytes) (shown : Bytes × Bytes)
      → Asked http req
          (endpoints tuple (env.find_processes_tuple tuple) dir)
          (stored dir req http x shown)
  unfolding begin_request request_details
  stored-Asked dir req http x shown = record {
    details_is = refl;
    ts_is = refl;
    method_is = refl;
    src_is = refl;
    dst_is = refl;
  }

  received_stores :
      (dir : ℕ) (req : HttpMessage) (raw : Buffer) (http : Http)
      → req.body_offset ≤ length raw.bytes
      → (left : Buffer) × (x : Bytes) × (shown : Bytes × Bytes) × (received_http_request env urls
            req raw tuple dir
            (env.find_processes_tuple tuple)
            http
          ≡ done left (store key (stored dir req http x shown) http))
  unfolding received_http_request
  received_stores dir req raw http h =
      let begun =
        begin_request req tuple dir (env.find_processes_tuple tuple)
          (found_or_new tuple (lookup key http.transactions_map)) in
      let (x, raw', cut, l) = cut_request-some http req raw begun h in
      let (shown, parsed) = extract_parameters-some urls http.hide_keywords req raw' l in
      (raw', x, shown, rw (received_http_request, cut, parsed) refl)

  -- A response to a transaction of the map publishes one event of both, and removes it.
  response_answers :
      (dir : ℕ) (res : HttpMessage) (raw : Buffer) (http : Http) (t : HttpTransaction)
      (d : HttpDetails) (es : List HttpEvent)
      → res.is_request ≡ false
      → res.body_offset ≤ length raw.bytes
      → lookup key http.transactions_map ≡ some t
      → t.http ≡ some d
      → http.results ≡ some es
      → (left : Buffer) × (x : Bytes) × (handle_http env urls tuple dir res raw http
          ≡ done left (
              expire_transaction key (record http {
                results = some (
                    es
                    ++ event_of http
                        (record d { response = some (response_of http res) })
                        (response_of http res)
                        (record t {
                          http = some (record d { response = some (response_of http res) });
                          response_time = response_time t.ts res.ts;
                          response_raw = x;
                        })
                      ∷ []);
              })))
  unfolding handle_http received_http_response complete_http publish_transaction
  response_answers dir res raw http t d es q h found known results =
      let details : HttpDetails = record d { response = some (response_of http res) } in
      let filled = record t { http = some details; response_time = response_time t.ts res.ts } in
      let (x, raw', cut) = cut_response-some http res raw filled h in
      (
        raw',
        x,
        simp (
          handle_http, q, received_http_response, found, known, complete_http, cut,
          publish_transaction, results,
        ),
      )

handle_request :
    (env : Lookups) (urls : Urls) (tuple : TcpTuple) (dir : ℕ) (req : HttpMessage) (raw : Buffer)
    (http : Http)
    → req.is_request ≡ true
    → handle_http env urls tuple dir req raw http
      ≡ received_http_request env urls req raw tuple dir (env.find_processes_tuple tuple) http
unfolding handle_http
handle_request env urls tuple dir req raw http q = simp q

other_keys :
    (k j : Bytes) (t : HttpTransaction) (m : List (Bytes × HttpTransaction))
    → j ≢ k
    → lookup j (delete k (put k t m)) ≡ lookup j m
other_keys k j t m ne =
    let other : bytes_eq k j ≡ false = beq_ne k j (λ e. ne (sym e)) in
    lookup-delete k j (put k t m) ∙ rw other (lookup-put k j t m ∙ rw other refl)

-- The event tells of the request and of the response.
pub record Tells (http : Http) (ends : Endpoints) (req res : HttpMessage) (e : HttpEvent)
    : Type 0 where
  pub status_is : e.status_ok ≡ ltb res.status_code 400
  pub time_is : e.responsetime ≡ response_time req.ts res.ts
  pub timestamp_is : e.timestamp ≡ req.ts
  pub method_is : e.method ≡ req.method
  pub request_headers_are :
      e.http.request_headers ≡ (event_headers http (codes "cookie") req).request_headers
  pub response_is : e.http.response ≡ some (response_of http res)
  pub src_is : e.src ≡ ends.src
  pub dst_is : e.dst ≡ ends.dst

-- A request and then a response on the same tuple, each with its headers inside its bytes: neither
-- panics, and they publish exactly one event, which tells of both; the tuple is then out of the
-- map, and the other keys of the map are as they were.
pub http_request_response :
    (env : Lookups) (urls : Urls) (tuple : TcpTuple) (dir dir' : ℕ) (req res : HttpMessage)
    (raw raw' : Buffer) (http : Http) (es : List HttpEvent)
    → req.is_request ≡ true
    → res.is_request ≡ false
    → req.body_offset ≤ length raw.bytes
    → res.body_offset ≤ length raw'.bytes
    → http.results ≡ some es
    → (left left' : Buffer) × (asked after : Http) × (e : HttpEvent) × (handle_http env urls tuple
          dir req raw http
        ≡ done left asked)
      × (handle_http env urls tuple dir' res raw' asked ≡ done left' after)
      × (lookup (env.hashable tuple) after.transactions_map ≡ none)
      × ((k : Bytes)
          → k ≢ env.hashable tuple
          → lookup k after.transactions_map ≡ lookup k http.transactions_map)
      × (after.results ≡ some (es ++ e ∷ []))
      × Tells http (endpoints tuple (env.find_processes_tuple tuple) dir) req res e
unfolding store expire_transaction event_of response_of begin_request request_details
http_request_response env urls tuple dir dir' req res raw raw' http es q r h h' results =
    let k = env.hashable tuple in
    let (left, x, shown, e) = received_stores env urls tuple dir req raw http h in
    let t = stored env urls tuple dir req http x shown in
    let told = stored-Asked env urls tuple dir req http x shown in
    let asked = store k t http in
    let d = event_headers http (codes "cookie") req in
    let found : lookup k asked.transactions_map ≡ some t =
      lookup-put k k t http.transactions_map ∙ rw (beq_refl k) refl in
    let (left', y, e') =
      response_answers env urls tuple dir' res raw' asked t d es r h' found told.details_is
        results in
    (
      left,
      left',
      asked,
      _,
      _,
      handle_request env urls tuple dir req raw http q ∙ e,
      e',
      lookup-delete k k asked.transactions_map ∙ rw (beq_refl k) refl,
      λ j ne. other_keys k j t http.transactions_map ne,
      refl,
      record {
        status_is = refl;
        time_is = refl;
        timestamp_is = refl;
        method_is = refl;
        request_headers_are = refl;
        response_is = refl;
        src_is = refl;
        dst_is = refl;
      },
    )
