-- ===== src/Thrift/Expiry.antt =====
-- protos/thrift/thrift.go: calls that no reply comes for, at the end of a connection and when a timer
-- fires.
use packetbeat.Base.{
  ℕ, suc, ◌++◌, ◌≡◌, refl, ap, ◌∙◌, true, false, [], ◌∷◌, Option, none, some, ◌==◌, if◌then◌else◌,
  arith,
}
use packetbeat.Base.GoMap.{lookup, put, lookup-delete, beq_refl, bytes_instance, nat_eq}
use packetbeat.Protos.{TcpTuple}
use packetbeat.Redis.Transactions.{Lookups}
use packetbeat.Thrift.Correlation.{
  asked, handle_call, handle_reply, pointer-put, send_old-waiting, waiting,
}
use packetbeat.Thrift.Message.{ThriftMessage}
use packetbeat.Thrift.State.{ThriftTransaction, Thrift}
use packetbeat.Thrift.Transactions.{
  transaction_at, send, send_old, stop_timer, call_transaction, arm, received_request,
  complete_call, received_reply, handle_thrift, delete_key, close_call, finish_connection,
  expire_transaction, timer_fires,
}
use packetbeat.Thrift.Timers.{at_delete, sent-next}

module _ (env : Lookups) (tuple : TcpTuple) where
  -- The state after a call.
  abbrev called : ℕ → ThriftMessage → Thrift → Thrift
  called dir call thrift =
      received_request env call tuple dir (env.find_processes_tuple tuple) thrift

  called-next :
      (dir : ℕ) (call : ThriftMessage) (thrift : Thrift)
      → (called dir call thrift).next_timer ≡ suc thrift.next_timer
  unfolding received_request arm
  called-next dir call thrift = ap suc (sent-next env _ thrift)

  called-rings :
      (dir n : ℕ) (call : ThriftMessage) (thrift : Thrift)
      → lookup n (called dir call thrift).timers
        ≡ (if thrift.next_timer == n then some tuple else lookup n thrift.timers)
  unfolding received_request arm lookup call_transaction send_old send
  called-rings dir n call thrift =
      let old = transaction_at (env.hashable tuple) thrift in
      ap (λ z. if z == n then some tuple else lookup n (send_old old thrift).timers)
        (sent-next env old thrift)
      ∙ ap (λ z. if thrift.next_timer == n then some tuple else lookup n z) (sent-timers old)
    where
      sent-timers : (old : Option ThriftTransaction) → (send_old old thrift).timers ≡ thrift.timers
      sent-timers none = refl
      sent-timers (some t) = refl

  timer_fires-gone :
      (n : ℕ) (thrift : Thrift)
      → lookup n thrift.timers ≡ some tuple
      → transaction_at (env.hashable tuple) (timer_fires env n thrift) ≡ none
  unfolding timer_fires expire_transaction delete_key transaction_at
  timer_fires-gone n thrift e =
      let k = env.hashable tuple in
      rw (timer_fires, e) (at_delete k k thrift.trans_map ∙ rw (beq_refl k) refl)

  received_reply-ignored :
      (reply : ThriftMessage) (thrift : Thrift)
      → transaction_at (env.hashable tuple) thrift ≡ none
      → received_reply env reply tuple thrift ≡ thrift
  unfolding received_reply complete_call
  received_reply-ignored reply thrift e = simp (received_reply, e)

-- The end of a connection sends a call that waits as one-way, takes its key out of the map and stops
-- its timer.
pub fin_sends_call :
    (env : Lookups) (tuple : TcpTuple) (dir : ℕ) (call : ThriftMessage) (thrift : Thrift)
    → call.is_request ≡ true
    → let t = asked env tuple dir call thrift in
      let ended = finish_connection env tuple (handle_thrift env tuple dir call thrift) in
      (ended.publish_queue
        ≡ (thrift.publish_queue ++ waiting (transaction_at (env.hashable tuple) thrift))
          ++ (t ∷ []))
      × (lookup (env.hashable tuple) ended.trans_map ≡ none)
      × (lookup t.timer ended.timers ≡ none)
unfolding finish_connection close_call stop_timer delete_key send received_request arm
    call_transaction transaction_at
fin_sends_call env tuple dir call thrift q =
    let k = env.hashable tuple in
    let t = asked env tuple dir call thrift in
    let old = transaction_at k thrift in
    let sent : Thrift = record thrift { publish_queue = thrift.publish_queue ++ waiting old } in
    let first : handle_thrift env tuple dir call thrift ≡ arm k t sent =
      handle_call env tuple dir call thrift q ∙ ap (arm k t) (send_old-waiting old thrift) in
    let found : transaction_at k (arm k t sent) ≡ some t =
      pointer-put k (some t) thrift.trans_map in
    let last : finish_connection env tuple (arm k t sent)
        ≡ stop_timer t (delete_key k (send t (arm k t sent))) =
      ap (λ z. close_call env z (arm k t sent)) found in
    let own : (thrift.next_timer == thrift.next_timer) ≡ true = ground arith in
    rw (ap (finish_connection env tuple) first ∙ last) (
      refl,
      lookup-delete k k (put k (some t) thrift.trans_map) ∙ rw (beq_refl k) refl,
      lookup-delete thrift.next_timer thrift.next_timer _ ∙ rw own refl,
    )

-- The timer of a call that another call has taken the place of is not stopped: where it fires, it
-- deletes the newer call, and the reply to that one is ignored. The state and the queue are as before
-- the reply.
pub old_timer_loses_call :
    (env : Lookups) (tuple : TcpTuple) (dir dir' : ℕ) (call call' reply : ThriftMessage)
    (thrift : Thrift)
    → call.is_request ≡ true
    → call'.is_request ≡ true
    → reply.is_request ≡ false
    → let lost =
        timer_fires env thrift.next_timer
          (handle_thrift env tuple dir call' (handle_thrift env tuple dir call thrift)) in
      (transaction_at (env.hashable tuple) lost ≡ none)
      × (handle_thrift env tuple dir' reply lost ≡ lost)
old_timer_loses_call env tuple dir dir' call call' reply thrift q q' r =
    let first = called env tuple dir call thrift in
    let second = called env tuple dir call' first in
    let both : handle_thrift env tuple dir call' (handle_thrift env tuple dir call thrift)
        ≡ second =
      ap (handle_thrift env tuple dir call') (handle_call env tuple dir call thrift q)
      ∙ handle_call env tuple dir call' first q' in
    let next = called-next env tuple dir call thrift in
    let later : (first.next_timer == thrift.next_timer) ≡ false = ground arith in
    let own : (thrift.next_timer == thrift.next_timer) ≡ true = ground arith in
    let rings : lookup thrift.next_timer second.timers ≡ some tuple =
      called-rings env tuple dir thrift.next_timer call' first
      ∙ rw later (called-rings env tuple dir thrift.next_timer call thrift ∙ rw own refl) in
    let lost = timer_fires env thrift.next_timer second in
    let gone : transaction_at (env.hashable tuple) lost ≡ none =
      timer_fires-gone env tuple thrift.next_timer second rings in
    rw both (
      gone,
      handle_reply env tuple dir' reply lost r ∙ received_reply-ignored env tuple reply lost gone,
    )
