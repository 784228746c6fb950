-- ===== src/Pgsql/Queues.antt =====
-- protos/pgsql/pgsql.go: the abstract view of the transactions: each connection has
-- a queue of the queries that wait for an answer.
use packetbeat.Base.{ℕ, ◌+◌, ◌++◌, ◌≡◌, List, [], ◌∷◌, Option, none, some, length, if◌then◌else◌}
use packetbeat.Base.GoMap.{bytes_eq, bytes_instance}
use packetbeat.Base.Text.{Bytes}
use packetbeat.Protos.{TcpTuple}
use packetbeat.Pgsql.Message.{PgsqlMessage}
use packetbeat.Pgsql.State.{PgsqlDetails, PgsqlTransaction, PgsqlEvent, Pgsql, query_parser}
use packetbeat.Pgsql.Transactions.{
  waiting, query_transaction, event_of, details_of, fill_response, handle_pgsql, expire_transaction,
}
use packetbeat.Pgsql.Lists.{made, without}
use packetbeat.Redis.Transactions.{Lookups}
use packetbeat.Mysql.Transactions.{Dump}

-- The abstract view: the queue of each key, oldest first, the events told so far, and how an
-- answered query is told.
pub record Queues : Type 0 where
  pub queue : Bytes → List PgsqlTransaction
  pub told : Option (List PgsqlEvent)
  pub fresh : ℕ
  pub tell : PgsqlDetails → PgsqlTransaction → PgsqlEvent

abbrev pub set_queue :
    Bytes → List PgsqlTransaction → (Bytes → List PgsqlTransaction) → Bytes → List PgsqlTransaction
set_queue k ts q j = if bytes_eq k j then ts else q j

abbrev pub told_more : Option (List PgsqlEvent) → PgsqlEvent → Option (List PgsqlEvent)
told_more none e = none
told_more (some es) e = some (es ++ e ∷ [])

-- What happens to a connection: a message of it is handled, or the timer of a query fires.
pub data Op : Type 0 where
  message : TcpTuple → ℕ → PgsqlMessage → Op
  expiry : TcpTuple → ℕ → Op

module _ (env : Lookups) (dump : Dump) where
  abbrev pub step : Op → Pgsql → Pgsql
  step (message tuple dir m) p = handle_pgsql env dump tuple dir m p
  step (expiry tuple id) p = expire_transaction (env.hashable tuple) id p

  abbrev pub run : List Op → Pgsql → Pgsql
  run [] p = p
  run (op ∷ ops) p = run ops (step op p)

  -- An answer takes the oldest query off the queue, and tells of it.
  abbrev pub answer : Bytes → PgsqlMessage → List PgsqlTransaction → Queues → Queues
  answer k m [] s = s
  answer k m (t ∷ ts) s = record s {
    queue = set_queue k ts s.queue;
    told = told_more s.told (s.tell (details_of m) (fill_response dump m t));
  }

  -- The queries of a request, in their order.
  abbrev pub queries : TcpTuple → ℕ → PgsqlMessage → ℕ → List PgsqlTransaction
  queries tuple dir m fresh =
      made (query_transaction m tuple dir (env.find_processes_tuple tuple)) fresh
        (query_parser m.query)

  abbrev pub ask : TcpTuple → ℕ → PgsqlMessage → Queues → Queues
  ask tuple dir m s = record s {
    queue =
        set_queue (env.hashable tuple) (s.queue (env.hashable tuple) ++ queries tuple dir m s.fresh)
          s.queue;
    fresh = s.fresh + length (query_parser m.query);
  }

  abbrev pub queue_step : Op → Queues → Queues
  queue_step (message tuple dir m) s =
      if m.is_request
      then ask tuple dir m s
      else answer (env.hashable tuple) m (s.queue (env.hashable tuple)) s
  queue_step (expiry tuple id) s = record s {
    queue = set_queue (env.hashable tuple) (without id (s.queue (env.hashable tuple))) s.queue;
  }

  abbrev pub replay : List Op → Queues → Queues
  replay [] s = s
  replay (op ∷ ops) s = replay ops (queue_step op s)

-- The query was asked: its map is not nil.
abbrev pub AllAsked : List PgsqlTransaction → Type 0
AllAsked [] = Unit
AllAsked (t ∷ ts) = ((f : Option PgsqlDetails) × (t.pgsql ≡ some f)) × AllAsked ts

-- The state of the code shows the queues.
pub record Shows (p : Pgsql) (s : Queues) : Type 0 where
  pub queue_is : (k : Bytes) → waiting k p.transactions_map ≡ s.queue k
  pub told_is : p.results ≡ s.told
  pub fresh_is : p.next_id ≡ s.fresh
  pub tell_is : (d : PgsqlDetails) (t : PgsqlTransaction) → event_of p d t ≡ s.tell d t
  pub asked : (k : Bytes) → AllAsked (s.queue k)

-- The queues that the state shows.
abbrev pub queues_of : Pgsql → Queues
queues_of p = record {
  queue = λ k. waiting k p.transactions_map;
  told = p.results;
  fresh = p.next_id;
  tell = event_of p;
}
