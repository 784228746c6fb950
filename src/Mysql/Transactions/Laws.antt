-- ===== src/Mysql/Transactions/Laws.antt =====
-- protos/mysql/mysql.go: how requests and responses are correlated.
use packetbeat.Base.{
  ℕ, ◌++◌, ◌≡◌, ◌≢◌, refl, sym, ◌∙◌, ap, inl, inr, true, false, not, List, [], ◌∷◌, Option, none,
  some, arith, Option-cases, Bool-cases, length, ◌==◌,
}
use packetbeat.Base.GoMap.{
  lookup, put, delete, lookup-put, lookup-delete, bytes_instance, bytes_eq, bytes_eq_iff, beq_refl,
  beq_ne,
}
use packetbeat.Base.Text.{Bytes}
use packetbeat.Protos.{TcpTuple}
use packetbeat.Redis.Transactions.{Lookups}
use packetbeat.Mysql.Message.{MysqlMessage}
use packetbeat.Mysql.Response.{Response, returns, panics, endless, parse_mysql_response}
use packetbeat.Mysql.State.{
  MysqlDetails, MysqlTransaction, MysqlEvent, Mysql, new_mysql_transaction, trim, method_of,
}
use packetbeat.Mysql.Stream.{Handled, done, crashed, hangs}
use packetbeat.Mysql.Transactions.{
  Dump, fill_mysql_request, found_or_new_mysql, received_mysql_request, expire_mysql,
  mysql_event_of, publish_mysql, details_of, fill_mysql_response, finish_mysql, finish_raw,
  complete_mysql, received_mysql_response, handle_mysql,
}
use packetbeat.Transaction.{response_time}

-- A transaction that stands under its own key, holds a request, and has its timer armed.
abbrev pub IsPending : Lookups → Bytes → MysqlTransaction → Type 0
IsPending env k t =
    (env.hashable t.tuple ≡ k) × (t.timer ≡ true) × ((f : Option MysqlDetails) × (t.mysql ≡ some f))

-- Every transaction in the map is pending under its key.
pub record IsWellFormed (env : Lookups) (mysql : Mysql) : Type 0 where
  pub entries :
      (k : Bytes) (t : MysqlTransaction)
      → lookup k mysql.transactions_map ≡ some t
      → IsPending env k t

-- The state that handling leaves is well formed.
abbrev pub LeavesWellFormed : Lookups → Handled Mysql → Type 0
LeavesWellFormed env (done mysql) = IsWellFormed env mysql
LeavesWellFormed env (crashed mysql) = IsWellFormed env mysql
LeavesWellFormed env hangs = Unit

module _ (env : Lookups) where
  put-IsWellFormed :
      (k : Bytes) (t : MysqlTransaction) (mysql : Mysql)
      → IsPending env k t
      → IsWellFormed env mysql
      → IsWellFormed env (record mysql { transactions_map = put k t mysql.transactions_map })
  put-IsWellFormed k t mysql p wf = record {
    entries = λ j u e. elim (Bool-cases (bytes_eq k j)) [
      | inl same ↦
          let t_is : t ≡ u = ground (arith, lookup-put k j t mysql.transactions_map) in
          rw (← t_is) (p.0 ∙ (bytes_eq_iff k j).0 same, p.1, p.2)
      | inr differ ↦ wf.entries j u (ground (arith, lookup-put k j t mysql.transactions_map))
    ];
  }

  delete-IsWellFormed :
      (k : Bytes) (mysql mysql' : Mysql)
      → mysql'.transactions_map ≡ delete k mysql.transactions_map
      → IsWellFormed env mysql
      → IsWellFormed env mysql'
  delete-IsWellFormed k mysql mysql' m wf = record {
    entries = λ j t e. wf.entries j t (ground (arith, m, lookup-delete k j mysql.transactions_map));
  }

  published_map :
      (d : MysqlDetails) (t u : MysqlTransaction) (mysql : Mysql)
      → (expire_mysql env u (publish_mysql d t mysql)).transactions_map
        ≡ delete (env.hashable u.tuple) mysql.transactions_map
  unfolding expire_mysql publish_mysql
  published_map d t u mysql = elim (Option-cases mysql.results) [
    | inl e ↦ rw e refl
    | inr (events, e) ↦ rw e refl
  ]

  finish_raw-IsWellFormed :
      (dump : Dump) (raw : Bytes) (d : MysqlDetails) (t : MysqlTransaction) (mysql : Mysql)
      → IsPending env (env.hashable t.tuple) t
      → IsWellFormed env mysql
      → LeavesWellFormed env (finish_raw env dump raw d t mysql)
  unfolding finish_raw finish_mysql
  finish_raw-IsWellFormed dump raw d t mysql p wf = elim (Bool-cases (length raw == 0)) [
    | inl e ↦ rw e (delete-IsWellFormed _ mysql _ (published_map d t t mysql) wf)
    | inr e ↦ rw e (go (parse_mysql_response mysql.max_row_length mysql.max_store_rows raw))
  ]
    where
      go : (r : Response) → LeavesWellFormed env (finish_mysql env dump d t mysql r)
      go (returns fields rows) = delete-IsWellFormed _ mysql _ (published_map d _ t mysql) wf
      go panics = put-IsWellFormed _ t mysql p wf
      go endless = tt

module _ (env : Lookups) (dump : Dump) (tuple : TcpTuple) where
  abbrev key : Bytes
  key = env.hashable tuple

  -- The transaction that a request leaves in the map.
  requested : ℕ → MysqlMessage → Mysql → MysqlTransaction
  requested dir m mysql =
      fill_mysql_request m tuple dir (env.find_processes_tuple tuple)
        (found_or_new_mysql tuple (lookup key mysql.transactions_map))

  requested-IsPending :
      (dir : ℕ) (m : MysqlMessage) (mysql : Mysql)
      → IsWellFormed env mysql
      → IsPending env key (requested dir m mysql)
  unfolding requested fill_mysql_request
  requested-IsPending dir m mysql wf = elim (Option-cases (lookup key mysql.transactions_map)) [
    | inl e ↦ rw e (unfold found_or_new_mysql new_mysql_transaction in (refl, refl, (none, refl)))
    | inr (t, e) ↦ rw e (unfold found_or_new_mysql in ((wf.entries key t e).0, refl, (none, refl)))
  ]

  complete_mysql-IsWellFormed :
      (m : MysqlMessage) (raw : Bytes) (o : Option MysqlTransaction) (mysql : Mysql)
      → lookup key mysql.transactions_map ≡ o
      → IsWellFormed env mysql
      → LeavesWellFormed env (complete_mysql env dump m raw o mysql)
  unfolding complete_mysql
  complete_mysql-IsWellFormed m raw none mysql l wf = wf
  complete_mysql-IsWellFormed m raw (some t) mysql l wf =
      let (stands, armed, (f, e)) = wf.entries key t l in
      rw (e, complete_mysql)
        (finish_raw-IsWellFormed env dump raw (details_of m) (fill_mysql_response m t) mysql
          (unfold fill_mysql_response in (refl, armed, (some (details_of m), refl))) wf)

  request_map :
      (dir : ℕ) (m : MysqlMessage) (raw : Bytes) (mysql : Mysql)
      → m.is_request ≡ true
      → handle_mysql env dump tuple dir m raw mysql
        ≡ done (record mysql {
          transactions_map = put key (requested dir m mysql) mysql.transactions_map;
        })
  unfolding handle_mysql received_mysql_request requested
  request_map dir m raw mysql q = simp q

  response_map :
      (dir : ℕ) (m : MysqlMessage) (raw : Bytes) (mysql : Mysql)
      → m.is_request ≡ false
      → handle_mysql env dump tuple dir m raw mysql
        ≡ complete_mysql env dump m raw (lookup key mysql.transactions_map) mysql
  unfolding handle_mysql received_mysql_response
  response_map dir m raw mysql r = simp r

  -- Whatever message is handled, and also where the handling panics, the map of transactions stays well formed.
  handle_mysql-IsWellFormed :
      (dir : ℕ) (m : MysqlMessage) (raw : Bytes) (mysql : Mysql)
      → IsWellFormed env mysql
      → LeavesWellFormed env (handle_mysql env dump tuple dir m raw mysql)
  handle_mysql-IsWellFormed dir m raw mysql wf = elim (Bool-cases m.is_request) [
    | inl q ↦ rw (request_map dir m raw mysql q) (
        put-IsWellFormed env key (requested dir m mysql) mysql (requested-IsPending dir m mysql wf)
          wf)
    | inr r ↦
        rw (response_map dir m raw mysql r) (complete_mysql-IsWellFormed m raw _ mysql refl wf)
  ]

-- What the event of a query and its response tells of the two.
pub record Answers (q r : MysqlMessage) (e : MysqlEvent) : Type 0 where
  pub method_is : e.method ≡ method_of (trim q.query)
  pub query_is : e.query ≡ trim q.query
  pub path_is : e.path ≡ r.tables
  pub bytes_out_is : e.bytes_out ≡ r.size
  pub timestamp_is : e.timestamp ≡ q.ts
  pub responsetime_is : e.responsetime ≡ response_time q.ts r.ts
  pub status_is : e.status_ok ≡ not r.is_error
  pub details_is : e.mysql ≡ details_of r

-- The transaction as it is published.
abbrev answered :
    Dump → MysqlMessage → List Bytes → List (List Bytes) → MysqlTransaction → MysqlTransaction
answered dump r fields rows t = record (fill_mysql_response r t) { response_raw = dump fields rows }

complete_mysql-some :
    (env : Lookups) (dump : Dump) (r : MysqlMessage) (raw : Bytes) (t : MysqlTransaction)
    (mysql : Mysql) (f : Option MysqlDetails) (fields : List Bytes) (rows : List (List Bytes))
    (events : List MysqlEvent)
    → t.mysql ≡ some f
    → (length raw == 0) ≡ false
    → parse_mysql_response mysql.max_row_length mysql.max_store_rows raw ≡ returns fields rows
    → mysql.results ≡ some events
    → complete_mysql env dump r raw (some t) mysql
      ≡ done (record mysql {
        transactions_map = delete (env.hashable t.tuple) mysql.transactions_map;
        results =
            some
              (events ++ mysql_event_of mysql (details_of r) (answered dump r fields rows t) ∷ []);
      })
unfolding complete_mysql finish_raw finish_mysql expire_mysql publish_mysql fill_mysql_response
complete_mysql-some env dump r raw t mysql f fields rows events h some_raw parsed res = ground arith

module _ (env : Lookups) (dump : Dump) (tuple : TcpTuple) (dir dir' : ℕ) where
  -- A query and then a response on the same tuple, whose raw bytes `parseMysqlResponse` reads, publish
  -- exactly one event, which tells of both. The transaction leaves the map, whose other keys stay
  -- as they were.
  pub mysql_request_response :
      (q r : MysqlMessage) (sent raw : Bytes) (fields : List Bytes) (rows : List (List Bytes))
      (mysql : Mysql) (events : List MysqlEvent)
      → IsWellFormed env mysql
      → q.is_request ≡ true
      → r.is_request ≡ false
      → (length raw == 0) ≡ false
      → parse_mysql_response mysql.max_row_length mysql.max_store_rows raw ≡ returns fields rows
      → mysql.results ≡ some events
      → (asked : Mysql) × (after : Mysql) × (e : MysqlEvent) × (handle_mysql env dump tuple dir q
            sent mysql
          ≡ done asked)
        × (handle_mysql env dump tuple dir' r raw asked ≡ done after)
        × (lookup (env.hashable tuple) after.transactions_map ≡ none)
        × ((k : Bytes)
            → k ≢ env.hashable tuple
            → lookup k after.transactions_map ≡ lookup k mysql.transactions_map)
        × (after.results ≡ some (events ++ e ∷ []))
        × Answers q r e
  mysql_request_response q r sent raw fields rows mysql events wf is_q is_r some_raw parsed res = (
    asked,
    after,
    event,
    request_map env dump tuple dir q sent mysql is_q,
    step,
    lookup-delete key key _ ∙ rw (beq_refl key),
    λ k ne.
        lookup-delete key k _
        ∙ rw (beq_ne key k (λ x. ne (sym x)))
            (lookup-put key k t mysql.transactions_map ∙ rw (beq_ne key k (λ x. ne (sym x)))),
    refl,
    answers,
  )
    where
      key : Bytes
      key = env.hashable tuple

      t : MysqlTransaction
      t = requested env dump tuple dir q mysql

      asked : Mysql
      asked = record mysql { transactions_map = put key t mysql.transactions_map }

      event : MysqlEvent
      event = mysql_event_of asked (details_of r) (answered dump r fields rows t)

      removed : Bytes → Mysql
      removed k = record asked {
        transactions_map = delete k asked.transactions_map;
        results = some (events ++ event ∷ []);
      }

      after : Mysql
      after = removed key

      step : handle_mysql env dump tuple dir' r raw asked ≡ done after
      step =
          response_map env dump tuple dir' r raw asked is_r
          ∙ ap (λ o. complete_mysql env dump r raw o asked)
              (lookup-put key key t mysql.transactions_map ∙ rw (beq_refl key))
          ∙ complete_mysql-some env dump r raw t asked none fields rows events
              (unfold requested fill_mysql_request in refl) some_raw parsed res
          ∙ ap (λ k. done (removed k)) (requested-IsPending env dump tuple dir q mysql wf).0

      answers : Answers q r event
      answers =
          unfold mysql_event_of fill_mysql_response requested fill_mysql_request in
          record {
            method_is = refl;
            query_is = refl;
            path_is = refl;
            bytes_out_is = refl;
            timestamp_is = refl;
            responsetime_is = refl;
            status_is = unfold details_of in ground arith;
            details_is = refl;
          }
