-- ===== src/Pgsql/Refinement.antt =====
-- protos/pgsql/pgsql.go: `handlePgsql` and `expireTransaction` against queues: each connection has
-- a queue of the queries that wait for an answer.
use packetbeat.Base.{
  ℕ, ◌+◌, ◌++◌, ◌≡◌, refl, sym, ap, ◌∙◌, subst, inl, inr, Bool, true, false, List, [], ◌∷◌, Option,
  none, some, length, if◌then◌else◌, arith, Bool-cases,
}
use packetbeat.Base.GoMap.{bytes_eq, bytes_eq_iff, put, bytes_instance}
use packetbeat.Base.Text.{Bytes}
use packetbeat.Protos.{TcpTuple}
use packetbeat.Pgsql.Message.{PgsqlMessage}
use packetbeat.Pgsql.State.{PgsqlDetails, PgsqlTransaction, Pgsql, query_parser}
use packetbeat.Pgsql.Transactions.{
  waiting, query_transaction, received_request, event_of, publish_transaction, details_of,
  fill_response, answer_first, received_response, handle_pgsql, expire_transaction,
  remove_transaction, remove_at, store_list,
}
use packetbeat.Pgsql.Lists.{
  SameRest, made, without, waiting-put, store_list-waiting, store_list-SameRest,
  add_queries-waiting, add_queries-SameRest, expire_transaction-waiting,
  expire_transaction-SameRest,
}
use packetbeat.Pgsql.Queues.{
  Queues, set_queue, told_more, Op, message, expiry, step, run, answer, ask, queue_step, replay,
  AllAsked, Shows,
}
use packetbeat.Redis.Transactions.{Lookups}
use packetbeat.Mysql.Transactions.{Dump}

AllAsked-append : (xs ys : List PgsqlTransaction) → AllAsked xs → AllAsked ys → AllAsked (xs ++ ys)
AllAsked-append [] ys a b = b
AllAsked-append (x ∷ xs) ys (a, rest) b = (a, AllAsked-append xs ys rest b)

AllAsked-without : (id : ℕ) (ts : List PgsqlTransaction) → AllAsked ts → AllAsked (without id ts)
unfolding without
AllAsked-without id [] a = tt
AllAsked-without id (t ∷ ts) (a, rest) = ground (arith, AllAsked-without id ts rest)

made-AllAsked :
    (make : ℕ → Bytes → PgsqlTransaction)
    → ((id : ℕ) (q : Bytes) → (f : Option PgsqlDetails) × ((make id q).pgsql ≡ some f))
    → (id : ℕ) (qs : List Bytes) → AllAsked (made make id qs)
unfolding made
made-AllAsked make h id [] = tt
made-AllAsked make h id (q ∷ qs) = (h id q, made-AllAsked make h (id + 1) qs)

set_queue-AllAsked :
    (k : Bytes) (ts : List PgsqlTransaction) (q : Bytes → List PgsqlTransaction)
    → AllAsked ts
    → ((j : Bytes) → AllAsked (q j))
    → (j : Bytes) → AllAsked (set_queue k ts q j)
set_queue-AllAsked k ts q a all j = elim (Bool-cases (bytes_eq k j)) [
  | inl e ↦ rw e a
  | inr e ↦ rw e (all j)
]

tell_again :
    {p p' : Pgsql}
    → SameRest p p'
    → (d : PgsqlDetails) (t : PgsqlTransaction) → event_of p' d t ≡ event_of p d t
unfolding event_of
tell_again same d t = rw (same.request_same, same.response_same) refl

module _ (d : PgsqlDetails) (t : PgsqlTransaction) (p : Pgsql) where
  publish_results : (publish_transaction d t p).results ≡ told_more p.results (event_of p d t)
  unfolding publish_transaction
  publish_results = ground arith

  publish_rest :
      ((publish_transaction d t p).transactions_map ≡ p.transactions_map)
      × ((publish_transaction d t p).next_id ≡ p.next_id)
      × ((publish_transaction d t p).send_request ≡ p.send_request)
      × ((publish_transaction d t p).send_response ≡ p.send_response)
  unfolding publish_transaction
  publish_rest = ground arith

  publish_tells :
      (d' : PgsqlDetails) (t' : PgsqlTransaction)
      → event_of (publish_transaction d t p) d' t' ≡ event_of p d' t'
  unfolding event_of
  publish_tells d' t' = rw (publish_rest.2, publish_rest.3) refl

  publish-Shows :
      (s : Queues)
      → Shows p s
      → Shows (publish_transaction d t p) (record s { told = told_more s.told (s.tell d t) })
  publish-Shows s h = record {
    queue_is = λ k. ap (waiting k) (publish_rest.0) ∙ h.queue_is k;
    told_is =
        publish_results
        ∙ ap (λ r. told_more r (event_of p d t)) h.told_is
        ∙ ap (told_more s.told) (h.tell_is d t);
    fresh_is = publish_rest.1 ∙ h.fresh_is;
    tell_is = λ d' t'. publish_tells d' t' ∙ h.tell_is d' t';
    asked = h.asked;
  }

module _ (env : Lookups) (dump : Dump) (tuple : TcpTuple) where
  abbrev key : Bytes
  key = env.hashable tuple

  module _ (dir : ℕ) (m : PgsqlMessage) (p : Pgsql) (s : Queues) (h : Shows p s) where
    abbrev make : ℕ → Bytes → PgsqlTransaction
    make = query_transaction m tuple dir (env.find_processes_tuple tuple)

    -- The state with an entry for the key.
    abbrev entered : Pgsql
    entered = record p {
      transactions_map = put key (waiting key p.transactions_map) p.transactions_map;
    }

    entered-waiting :
        (j : Bytes) → waiting j entered.transactions_map ≡ waiting j p.transactions_map
    entered-waiting j =
        waiting-put key j (waiting key p.transactions_map) p.transactions_map ∙ again
      where
        again :
            (if bytes_eq key j
              then waiting key p.transactions_map
              else waiting j p.transactions_map)
            ≡ waiting j p.transactions_map
        again = elim (Bool-cases (bytes_eq key j)) [
          | inl e ↦ rw e (ap (λ x. waiting x p.transactions_map) ((bytes_eq_iff key j).0 e))
          | inr e ↦ rw e refl
        ]

    make-asked : (id : ℕ) (q : Bytes) → (f : Option PgsqlDetails) × ((make id q).pgsql ≡ some f)
    unfolding query_transaction
    make-asked id q = (none, refl)

    ask-Shows :
        Shows
          (received_request env m tuple dir (env.find_processes_tuple tuple) p)
          (ask env dump tuple dir m s)
    unfolding received_request event_of
    ask-Shows =
        let qs = query_parser m.query in
        let (same, next) = add_queries-SameRest key make qs entered in
        record {
          queue_is = λ j.
              add_queries-waiting key make qs entered j
              ∙ rw
                  (entered-waiting key, entered-waiting j, h.queue_is key, h.queue_is j, h.fresh_is)
                  refl;
          told_is = same.results_same ∙ h.told_is;
          fresh_is = next ∙ ap (λ n. n + length qs) h.fresh_is;
          tell_is = λ d t. tell_again same d t ∙ h.tell_is d t;
          asked =
              set_queue-AllAsked key _ s.queue
                (AllAsked-append _ _ (h.asked key) (made-AllAsked make make-asked s.fresh qs))
                h.asked;
        }

  store_list-Shows :
      (ts : List PgsqlTransaction) (p : Pgsql) (s : Queues)
      → Shows p s
      → AllAsked ts
      → Shows (store_list key ts p) (record s { queue = set_queue key ts s.queue })
  store_list-Shows ts p s h a =
      let (same, next) = store_list-SameRest key ts p in
      record {
        queue_is = λ j. store_list-waiting key j ts p ∙ rw (h.queue_is j) refl;
        told_is = same.results_same ∙ h.told_is;
        fresh_is = next ∙ h.fresh_is;
        tell_is = λ d t. tell_again same d t ∙ h.tell_is d t;
        asked = set_queue-AllAsked key ts s.queue a h.asked;
      }

  answer-Shows :
      (m : PgsqlMessage) (p : Pgsql) (s : Queues) (ts : List PgsqlTransaction)
      → Shows p s
      → s.queue key ≡ ts
      → Shows (answer_first dump m key ts p) (answer env dump key m ts s)
  unfolding answer_first
  answer-Shows m p s [] h e = h
  answer-Shows m p s (t ∷ ts) h e =
      let (a, rest) = subst AllAsked e (h.asked key) in
      let (f, is_f) = a in
      subst (λ x. Shows x (answer env dump key m (t ∷ ts) s)) (sym (simp is_f))
        (publish-Shows (details_of m) (fill_response dump m t) (remove_transaction key 0 p)
          (record s { queue = set_queue key ts s.queue })
          (unfold remove_transaction in
            subst
              (λ l.
                Shows (store_list key (remove_at 0 l) p)
                  (record s { queue = set_queue key ts s.queue }))
              (sym (h.queue_is key ∙ e)) (unfold remove_at in store_list-Shows ts p s h rest)))

  expire-Shows :
      (id : ℕ) (p : Pgsql) (s : Queues)
      → Shows p s
      → Shows
          (expire_transaction key id p)
          (record s { queue = set_queue key (without id (s.queue key)) s.queue })
  expire-Shows id p s h =
      let (same, next) = expire_transaction-SameRest key id p in
      record {
        queue_is =
            λ j. expire_transaction-waiting key id p j ∙ rw (h.queue_is key, h.queue_is j) refl;
        told_is = same.results_same ∙ h.told_is;
        fresh_is = next ∙ h.fresh_is;
        tell_is = λ d t. tell_again same d t ∙ h.tell_is d t;
        asked = set_queue-AllAsked key _ s.queue (AllAsked-without id _ (h.asked key)) h.asked;
      }

step-Shows :
    (env : Lookups) (dump : Dump) (op : Op) (p : Pgsql) (s : Queues)
    → Shows p s
    → Shows (step env dump op p) (queue_step env dump op s)
unfolding handle_pgsql received_response
step-Shows env dump (message tuple dir m) p s h = go m.is_request
  where
    k : Bytes
    k = env.hashable tuple

    go :
        (b : Bool)
        → Shows
            (if b
              then received_request env m tuple dir (env.find_processes_tuple tuple) p
              else answer_first dump m k (waiting k p.transactions_map) p)
            (if b then ask env dump tuple dir m s else answer env dump k m (s.queue k) s)
    go true = ask-Shows env dump tuple dir m p s h
    go false = rw (h.queue_is k) (answer-Shows env dump tuple m p s (s.queue k) h refl)
step-Shows env dump (expiry tuple id) p s h = expire-Shows env dump tuple id p s h

-- Whatever messages are handled and whatever timers fire, in any order, from a state that shows some
-- queues the code comes to a state that shows the same queues after the same operations on them: a
-- request adds its queries at the end of its connection's queue, an answer takes the oldest query
-- and tells of it, a timer removes its own query, and the queues of other connections stay.
pub run_refines :
    (env : Lookups) (dump : Dump) (ops : List Op) (p : Pgsql) (s : Queues)
    → Shows p s
    → Shows (run env dump ops p) (replay env dump ops s)
run_refines env dump [] p s h = h
run_refines env dump (op ∷ ops) p s h = run_refines env dump ops _ _ (step-Shows env dump op p s h)
