-- ===== src/Thrift/Correlation.antt =====
-- protos/thrift/thrift.go: a call and its reply become one event.
use packetbeat.Base.{
  ℕ, ◌++◌, ◌≡◌, ◌≢◌, refl, sym, ap, ◌∙◌, true, false, not, List, [], ◌∷◌, Option, none, some, map,
  append-nil, append_assoc,
}
use packetbeat.Base.GoMap.{
  lookup, put, lookup-put, beq_refl, beq_ne, bytes_eq, bytes_eq_iff, bytes_instance, nat_eq,
}
use packetbeat.Base.Text.{Bytes}
use packetbeat.Protos.{TcpTuple}
use packetbeat.Redis.Transactions.{Lookups}
use packetbeat.Thrift.Message.{ThriftMessage}
use packetbeat.Thrift.State.{ThriftTransaction, ThriftEvent, Thrift}
use packetbeat.Thrift.Transactions.{
  pointer, transaction_at, send, send_old, stop_timer, call_transaction, arm, received_request,
  answered, forget, complete_call, received_reply, handle_thrift, exceptions_of, reply_failed,
  return_value_of, bytes_out_of, event_of, publish, publish_all, publish_transactions,
}
use packetbeat.Transaction.{Endpoints, endpoints, response_time}

pub pointer-put :
    (k : Bytes) (v : Option ThriftTransaction) (m : List (Bytes × Option ThriftTransaction))
    → pointer (lookup k (put k v m)) ≡ v
unfolding pointer
pointer-put k v m =
    let e : lookup k (put k v m) ≡ some v = lookup-put k k v m ∙ rw (beq_refl k) refl in rw e refl

module _ (env : Lookups) (tuple : TcpTuple) where
  abbrev key : Bytes
  key = env.hashable tuple

  pub handle_call :
      (dir : ℕ) (msg : ThriftMessage) (thrift : Thrift)
      → msg.is_request ≡ true
      → handle_thrift env tuple dir msg thrift
        ≡ received_request env msg tuple dir (env.find_processes_tuple tuple) thrift
  unfolding handle_thrift
  handle_call dir msg thrift q = simp q

  pub handle_reply :
      (dir : ℕ) (msg : ThriftMessage) (thrift : Thrift)
      → msg.is_request ≡ false
      → handle_thrift env tuple dir msg thrift ≡ received_reply env msg tuple thrift
  unfolding handle_thrift
  handle_reply dir msg thrift q = simp q

  -- The transaction that a call leaves in the map.
  abbrev pub asked : ℕ → ThriftMessage → Thrift → ThriftTransaction
  asked dir msg thrift =
      call_transaction msg tuple dir (env.find_processes_tuple tuple) thrift.next_timer

  -- A reply with the method of the call in the map.
  received_reply-answers :
      (msg : ThriftMessage) (thrift : Thrift) (t : ThriftTransaction)
      → transaction_at key thrift ≡ some t
      → t.request.method ≡ msg.method
      → received_reply env msg tuple thrift
        ≡ stop_timer t (forget key (send (answered msg t) thrift))
  unfolding received_reply complete_call
  received_reply-answers msg thrift t e m =
      let same : bytes_eq t.request.method msg.method ≡ true =
        (bytes_eq_iff t.request.method msg.method).1 m in
      simp (received_reply, e, complete_call, same)

-- Other keys are left alone.
other_key :
    (k j : Bytes) (v w : Option ThriftTransaction) (m : List (Bytes × Option ThriftTransaction))
    → j ≢ k
    → pointer (lookup j (put k v (put k w m))) ≡ pointer (lookup j m)
other_key k j v w m ne =
    let other : bytes_eq k j ≡ false = beq_ne k j (λ e. ne (sym e)) in
    ap pointer (lookup-put k j v (put k w m) ∙ rw other (lookup-put k j w m ∙ rw other refl))

-- The queue is published in its order.
publish_all-events :
    (queue : List ThriftTransaction) (thrift : Thrift) (es : List ThriftEvent)
    → thrift.results ≡ some es
    → publish_all queue thrift
      ≡ record thrift { publish_queue = []; results = some (es ++ map (event_of thrift) queue) }
unfolding publish_all publish event_of
publish_all-events [] thrift es e =
    ap (λ z. record thrift { publish_queue = []; results = z }) (e ∙ ap some (sym (append-nil es)))
publish_all-events (t ∷ queue) thrift es e =
    let step : publish t thrift
        ≡ record thrift { results = some (es ++ (event_of thrift t ∷ [])) } =
      simp (publish, e) in
    ap (publish_all queue) step
    ∙ publish_all-events queue (record thrift { results = some (es ++ (event_of thrift t ∷ [])) })
        (es ++ (event_of thrift t ∷ [])) refl
    ∙ ap (λ z. record thrift { publish_queue = []; results = some z })
        (append_assoc es (event_of thrift t ∷ []) (map (event_of thrift) queue))

-- A call that waits, as the part of the queue that it becomes.
abbrev pub waiting : Option ThriftTransaction → List ThriftTransaction
waiting none = []
waiting (some t) = t ∷ []

pub send_old-waiting :
    (old : Option ThriftTransaction) (thrift : Thrift)
    → send_old old thrift ≡ record thrift { publish_queue = thrift.publish_queue ++ waiting old }
unfolding send_old send
send_old-waiting none thrift =
    ap (λ z. record thrift { publish_queue = z }) (sym (append-nil thrift.publish_queue))
send_old-waiting (some t) thrift = refl

-- The event tells of the call and of the reply.
pub record Tells (ends : Endpoints) (call reply : ThriftMessage) (e : ThriftEvent) : Type 0 where
  pub status_is : e.status_ok ≡ not reply.has_exception
  pub time_is : e.responsetime ≡ response_time call.ts reply.ts
  pub timestamp_is : e.timestamp ≡ call.ts
  pub method_is : e.method ≡ call.method
  pub query_is : e.query ≡ call.method ++ call.params
  pub return_value_is : e.return_value ≡ some reply.return_value
  pub bytes_in_is : e.bytes_in ≡ call.frame_size
  pub bytes_out_is : e.bytes_out ≡ reply.frame_size
  pub src_is : e.src ≡ ends.src
  pub dst_is : e.dst ≡ ends.dst

-- A call and then a reply with its method on the same tuple: once the queue is published, the last
-- event tells of both, and those before it are of what the queue held, with the call that waited on
-- the tuple, which is taken to be one-way; no call waits on the tuple then, and the other keys are as
-- they were.
pub thrift_call_and_reply :
    (env : Lookups) (tuple : TcpTuple) (dir dir' : ℕ) (call reply : ThriftMessage) (thrift : Thrift)
    (es : List ThriftEvent)
    → call.is_request ≡ true
    → reply.is_request ≡ false
    → call.method ≡ reply.method
    → thrift.results ≡ some es
    → (after : Thrift) × (e : ThriftEvent) × (publish_transactions
          (handle_thrift env tuple dir' reply (handle_thrift env tuple dir call thrift))
        ≡ after)
      × (after.results
          ≡ some (
              es
              ++ map (event_of thrift) (
                  (thrift.publish_queue ++ waiting (transaction_at (env.hashable tuple) thrift))
                  ++ (answered reply (asked env tuple dir call thrift) ∷ []))))
      × (event_of thrift (answered reply (asked env tuple dir call thrift)) ≡ e)
      × Tells (endpoints tuple (env.find_processes_tuple tuple) dir) call reply e
      × (transaction_at (env.hashable tuple) after ≡ none)
      × ((k : Bytes) → k ≢ env.hashable tuple → transaction_at k after ≡ transaction_at k thrift)
unfolding publish_transactions transaction_at stop_timer forget send received_request arm event_of
    call_transaction answered exceptions_of
thrift_call_and_reply env tuple dir dir' call reply thrift es q r m results =
    let k = env.hashable tuple in
    let t = asked env tuple dir call thrift in
    let called = handle_thrift env tuple dir call thrift in
    let old = transaction_at k thrift in
    let sent : Thrift = record thrift { publish_queue = thrift.publish_queue ++ waiting old } in
    let first : called ≡ arm k t sent =
      handle_call env tuple dir call thrift q ∙ ap (arm k t) (send_old-waiting old thrift) in
    let found : transaction_at k (arm k t sent) ≡ some t =
      pointer-put k (some t) thrift.trans_map in
    let answer : Thrift = stop_timer t (forget k (send (answered reply t) (arm k t sent))) in
    let second : handle_thrift env tuple dir' reply called ≡ answer =
      ap (handle_thrift env tuple dir' reply) first
      ∙ handle_reply env tuple dir' reply (arm k t sent) r
      ∙ received_reply-answers env tuple reply (arm k t sent) t found m in
    (
      _,
      _,
      ap publish_transactions second ∙ publish_all-events answer.publish_queue answer es results,
      refl,
      refl,
      record {
        status_is = unfold reply_failed in refl;
        time_is = refl;
        timestamp_is = refl;
        method_is = refl;
        query_is = refl;
        return_value_is = unfold return_value_of in refl;
        bytes_in_is = refl;
        bytes_out_is = unfold bytes_out_of in refl;
        src_is = refl;
        dst_is = refl;
      },
      pointer-put k none (put k (some t) thrift.trans_map),
      λ j ne. other_key k j none (some t) thrift.trans_map ne,
    )
