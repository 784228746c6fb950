-- ===== src/Redis/Transactions/Laws.antt =====
-- protos/redis/redis.go: how requests and responses are correlated.
use packetbeat.Base.{
  ℕ, ◌++◌, ◌≡◌, ◌≢◌, refl, sym, ◌∙◌, ap, inl, inr, true, false, not, List, [], ◌∷◌, Option, none,
  some, if◌then◌else◌, arith, Option-cases, Bool-cases,
}
use packetbeat.Base.GoMap.{
  lookup, put, delete, lookup-put, lookup-delete, bytes_instance, bytes_eq, bytes_eq_iff, beq_refl,
  beq_ne,
}
use packetbeat.Base.Text.{Bytes, codes, to_upper}
use packetbeat.Protos.{TcpTuple}
use packetbeat.Redis.{RedisMessage}
use packetbeat.Redis.Transactions.{
  Redis, RedisTransaction, RedisEvent, Lookups, fill_request, fill_response, found_or_new,
  new_transaction, event_of, publish_transaction, expire_transaction, complete_transaction,
  received_redis_request, received_redis_response, handle_redis,
}
use packetbeat.Transaction.{response_time}

-- Every transaction in the map stands under the key of its own tuple, holds a request, and has
-- its timer armed.
pub record IsWellFormed (env : Lookups) (redis : Redis) : Type 0 where
  pub entries :
      (k : Bytes) (t : RedisTransaction)
      → lookup k redis.transactions_map ≡ some t
      → (env.hashable t.tuple ≡ k)
        × (t.timer ≡ true)
        × ((f : List (Bytes × Bytes)) × (t.redis ≡ some f))

module _ (env : Lookups) (tuple : TcpTuple) (dir : ℕ) where
  abbrev pub key : Bytes
  key = env.hashable tuple

  -- The transaction that a request leaves in the map.
  requested : RedisMessage → Redis → RedisTransaction
  requested m redis =
      fill_request m tuple dir (env.find_processes_tuple tuple)
        (found_or_new tuple (lookup key redis.transactions_map))

  requested_tuple :
      (m : RedisMessage) (redis : Redis)
      → IsWellFormed env redis
      → env.hashable (requested m redis).tuple ≡ key
  unfolding requested fill_request
  requested_tuple m redis wf = elim (Option-cases (lookup key redis.transactions_map)) [
    | inl e ↦ rw e (unfold found_or_new new_transaction in refl)
    | inr (t, e) ↦ rw e (unfold found_or_new in (wf.entries key t e).0)
  ]

  request_map :
      (m : RedisMessage) (redis : Redis)
      → m.is_request ≡ true
      → handle_redis env tuple dir m redis
        ≡ record redis { transactions_map = put key (requested m redis) redis.transactions_map }
  unfolding handle_redis received_redis_request requested
  request_map m redis q = rw q

  response_map :
      (m : RedisMessage) (redis : Redis)
      → m.is_request ≡ false
      → handle_redis env tuple dir m redis
        ≡ complete_transaction env m (lookup key redis.transactions_map) redis
  unfolding handle_redis received_redis_response
  response_map m redis r = simp r

  put-entries :
      (m : RedisMessage) (redis : Redis)
      → IsWellFormed env redis
      → (k : Bytes) (t : RedisTransaction)
      → lookup k (put key (requested m redis) redis.transactions_map) ≡ some t
      → (env.hashable t.tuple ≡ k)
        × (t.timer ≡ true)
        × ((f : List (Bytes × Bytes)) × (t.redis ≡ some f))
  put-entries m redis wf k t e = elim (Bool-cases (bytes_eq key k)) [
    | inl same ↦
        let t_is : requested m redis ≡ t =
          ground (arith, lookup-put key k (requested m redis) redis.transactions_map) in
        rw (← t_is) (
          requested_tuple m redis wf ∙ (bytes_eq_iff key k).0 same,
          unfold requested fill_request in refl,
          ([], unfold requested fill_request in refl),
        )
    | inr differ ↦
        wf.entries k t (ground (arith, lookup-put key k (requested m redis) redis.transactions_map))
  ]

  delete-IsWellFormed :
      (k : Bytes) (redis redis' : Redis)
      → redis'.transactions_map ≡ delete k redis.transactions_map
      → IsWellFormed env redis
      → IsWellFormed env redis'
  delete-IsWellFormed k redis redis' m wf = record {
    entries = λ j t e. wf.entries j t (ground (arith, m, lookup-delete k j redis.transactions_map));
  }

  publish_transaction_map :
      (t : RedisTransaction) (redis : Redis)
      → (publish_transaction t redis).transactions_map ≡ redis.transactions_map
  unfolding publish_transaction
  publish_transaction_map t redis = ground arith

  complete_transaction-IsWellFormed :
      (m : RedisMessage) (o : Option RedisTransaction) (redis : Redis)
      → IsWellFormed env redis
      → IsWellFormed env (complete_transaction env m o redis)
  complete_transaction-IsWellFormed m none redis wf = unfold complete_transaction in wf
  complete_transaction-IsWellFormed m (some t) redis wf = elim (Option-cases t.redis) [
    | inl e ↦ unfold complete_transaction in rw (e, complete_transaction) wf
    | inr (f, e) ↦
        unfold complete_transaction in
        rw (e, complete_transaction)
          (delete-IsWellFormed (env.hashable t.tuple) redis _
            (unfold expire_transaction in
              ap (delete (env.hashable t.tuple))
                (publish_transaction_map (fill_response m f t) redis))
            wf)
  ]

  -- Whatever message of whatever stream is handled, the map of transactions stays well formed.
  handle_redis-IsWellFormed :
      (m : RedisMessage) (redis : Redis)
      → IsWellFormed env redis
      → IsWellFormed env (handle_redis env tuple dir m redis)
  handle_redis-IsWellFormed m redis wf = elim (Bool-cases m.is_request) [
    | inl q ↦ rw (request_map m redis q) (record { entries = put-entries m redis wf })
    | inr r ↦
        rw (response_map m redis r)
          (complete_transaction-IsWellFormed m (lookup key redis.transactions_map) redis wf)
  ]

-- What the event of a request and its response tells of the two.
pub record Answers (q r : RedisMessage) (e : RedisEvent) : Type 0 where
  pub method_is : e.method ≡ to_upper q.method
  pub resource_is : e.resource ≡ q.path
  pub query_is : e.query ≡ q.message
  pub bytes_in_is : e.bytes_in ≡ q.size
  pub bytes_out_is : e.bytes_out ≡ r.size
  pub timestamp_is : e.timestamp ≡ q.ts
  pub responsetime_is : e.responsetime ≡ response_time q.ts r.ts
  pub status_is : e.status_ok ≡ not r.is_error
  pub redis_is :
      e.redis ≡ some ((if r.is_error then codes "error" else codes "return_value", r.message) ∷ [])

complete_transaction-some :
    (env : Lookups) (m : RedisMessage) (t : RedisTransaction) (redis : Redis)
    (f : List (Bytes × Bytes)) (events : List RedisEvent)
    → t.redis ≡ some f
    → redis.results ≡ some events
    → complete_transaction env m (some t) redis ≡ record redis {
      transactions_map = delete (env.hashable t.tuple) redis.transactions_map;
      results = some (events ++ event_of redis (fill_response m f t) ∷ []);
    }
unfolding complete_transaction expire_transaction publish_transaction fill_response
complete_transaction-some env m t redis f events h k = ground arith

module _ (env : Lookups) (tuple : TcpTuple) (dir dir' : ℕ) where
  -- A request and then a response on the same tuple publish exactly one event, which tells of
  -- both. The transaction leaves the map, whose other keys stay as they were.
  pub request_response :
      (q r : RedisMessage) (redis : Redis) (events : List RedisEvent)
      → IsWellFormed env redis
      → q.is_request ≡ true
      → r.is_request ≡ false
      → redis.results ≡ some events
      → let after = handle_redis env tuple dir' r (handle_redis env tuple dir q redis) in
        (lookup (env.hashable tuple) after.transactions_map ≡ none)
        × ((k : Bytes)
            → k ≢ env.hashable tuple
            → lookup k after.transactions_map ≡ lookup k redis.transactions_map)
        × ((e : RedisEvent) × (after.results ≡ some (events ++ e ∷ [])) × Answers q r e)
  request_response q r redis events wf is_q is_r res = rw step (
    lookup-delete key key _ ∙ rw (beq_refl key),
    λ k ne.
        lookup-delete key k _
        ∙ rw (beq_ne key k (λ x. ne (sym x)))
            (lookup-put key k t redis.transactions_map ∙ rw (beq_ne key k (λ x. ne (sym x)))),
    (event_of asked (fill_response r [] t), refl, answers),
  )
    where
      key : Bytes
      key = env.hashable tuple

      t : RedisTransaction
      t = requested env tuple dir q redis

      asked : Redis
      asked = record redis { transactions_map = put key t redis.transactions_map }

      step : handle_redis env tuple dir' r (handle_redis env tuple dir q redis) ≡ record asked {
        transactions_map = delete key asked.transactions_map;
        results = some (events ++ event_of asked (fill_response r [] t) ∷ []);
      }
      step =
          ap (handle_redis env tuple dir' r) (request_map env tuple dir q redis is_q)
          ∙ response_map env tuple dir' r asked is_r
          ∙ ap (λ o. complete_transaction env r o asked)
              (lookup-put key key t redis.transactions_map ∙ rw (beq_refl key))
          ∙ complete_transaction-some env r t asked [] events
              (unfold requested fill_request in refl) res
          ∙ ap
              (λ k. record asked {
                transactions_map = delete k asked.transactions_map;
                results = some (events ++ event_of asked (fill_response r [] t) ∷ []);
              })
              (requested_tuple env tuple dir q redis wf)

      answers : Answers q r (event_of asked (fill_response r [] t))
      answers =
          unfold event_of fill_response requested fill_request put in
          record {
            method_is = refl;
            resource_is = refl;
            query_is = refl;
            bytes_in_is = refl;
            bytes_out_is = refl;
            timestamp_is = refl;
            responsetime_is = refl;
            status_is = ground arith;
            redis_is = refl;
          }
