-- ===== src/Pgsql/Pipeline.antt =====
-- protos/pgsql/pgsql.go: the queries of one message, and the answers to them.
use packetbeat.Base.{
  ℕ, suc, ◌+◌, ◌++◌, ◌≡◌, refl, sym, ap, subst, ◌∙◌, true, false, List, [], ◌∷◌, map, some, length,
  arith, append_assoc, append-nil,
}
use packetbeat.Base.GoMap.{beq_refl, bytes_instance}
use packetbeat.Base.Text.{Bytes}
use packetbeat.Protos.{TcpTuple}
use packetbeat.Pgsql.Message.{PgsqlMessage}
use packetbeat.Pgsql.State.{PgsqlDetails, PgsqlTransaction, PgsqlEvent, Pgsql, query_parser}
use packetbeat.Pgsql.Transactions.{waiting, event_of, details_of, fill_response}
use packetbeat.Pgsql.Lists.{made}
use packetbeat.Pgsql.Queues.{
  Queues, message, run, replay, queue_step, queries, ask, queues_of, set_queue, told_more, Shows,
}
use packetbeat.Pgsql.Refinement.{run_refines}
use packetbeat.Redis.Transactions.{Lookups}
use packetbeat.Mysql.Transactions.{Dump}

-- One event for each query, with the answer that stands at its place.
abbrev pub events_for :
    (PgsqlDetails → PgsqlTransaction → PgsqlEvent)
    → Dump
    → List PgsqlTransaction
    → List PgsqlMessage
    → List PgsqlEvent
events_for tell dump [] rs = []
events_for tell dump (t ∷ ts) [] = []
events_for tell dump (t ∷ ts) (r ∷ rs) =
    tell (details_of r) (fill_response dump r t) ∷ events_for tell dump ts rs

abbrev pub AllResponses : List PgsqlMessage → Type 0
AllResponses [] = Unit
AllResponses (r ∷ rs) = (r.is_request ≡ false) × AllResponses rs

module _ (env : Lookups) (dump : Dump) (tuple : TcpTuple) (dir : ℕ) where
  abbrev key : Bytes
  key = env.hashable tuple

  replay_answers :
      (rs : List PgsqlMessage) (ts : List PgsqlTransaction) (s : Queues) (es : List PgsqlEvent)
      → AllResponses rs
      → length rs ≡ length ts
      → s.queue key ≡ ts
      → s.told ≡ some es
      → ((replay env dump (map (message tuple dir) rs) s).told
          ≡ some (es ++ events_for s.tell dump ts rs))
        × ((replay env dump (map (message tuple dir) rs) s).queue key ≡ [])
  replay_answers [] [] s es all len q told = (told ∙ ap some (sym (append-nil es)), q)
  replay_answers [] (t ∷ ts) s es all len q told = absurd (omega arith)
  replay_answers (r ∷ rs) [] s es all len q told = absurd (omega arith)
  replay_answers (r ∷ rs) (t ∷ ts) s es (is_r, all) len q told =
      let e = s.tell (details_of r) (fill_response dump r t) in
      let s' : Queues = record s { queue = set_queue key ts s.queue; told = told_more s.told e } in
      let taken : queue_step env dump (message tuple dir r) s ≡ s' = simp (is_r, q) in
      let (told_all, empty) =
        replay_answers rs ts s' (es ++ e ∷ []) all (omega arith) (rw (beq_refl key) refl)
          (ap (λ o. told_more o e) told) in
      subst
        (λ x.
          ((replay env dump (map (message tuple dir) rs) x).told
            ≡ some (es ++ events_for s.tell dump (t ∷ ts) (r ∷ rs)))
          × ((replay env dump (map (message tuple dir) rs) x).queue key ≡ []))
        (sym taken)
        (told_all ∙ ap some (append_assoc es (e ∷ []) (events_for s.tell dump ts rs)), empty)

length-made :
    (make : ℕ → Bytes → PgsqlTransaction) (id : ℕ) (qs : List Bytes)
    → length (made make id qs) ≡ length qs
unfolding made
length-made make id [] = refl
length-made make id (q ∷ qs) = ap suc (length-made make (id + 1) qs)

-- On a connection where no query waits, a message with some queries and then as many answers publish
-- exactly one event for each query, in the order of the queries, with the answer that came at its
-- place; no query waits then.
pub pipelined_queries :
    (env : Lookups) (dump : Dump) (tuple : TcpTuple) (dir dir' : ℕ) (q : PgsqlMessage)
    (rs : List PgsqlMessage) (p : Pgsql) (es : List PgsqlEvent)
    → Shows p (queues_of p)
    → waiting (env.hashable tuple) p.transactions_map ≡ []
    → p.results ≡ some es
    → q.is_request ≡ true
    → AllResponses rs
    → length rs ≡ length (query_parser q.query)
    → let after = run env dump (message tuple dir q ∷ map (message tuple dir') rs) p in
      (after.results
        ≡ some (es ++ events_for (event_of p) dump (queries env dump tuple dir q p.next_id) rs))
      × (waiting (env.hashable tuple) after.transactions_map ≡ [])
pipelined_queries env dump tuple dir dir' q rs p es h empty res is_q all len =
    let k = env.hashable tuple in
    let qs = queries env dump tuple dir q p.next_id in
    let asked : queue_step env dump (message tuple dir q) (queues_of p)
        ≡ ask env dump tuple dir q (queues_of p) =
      simp is_q in
    let answers = map (message tuple dir') rs in
    let shown = run_refines env dump (message tuple dir q ∷ answers) p (queues_of p) h in
    let (told, none_waits) =
      replay_answers env dump tuple dir' rs qs (ask env dump tuple dir q (queues_of p)) es all
        (len ∙ sym (length-made _ _ _)) (rw (beq_refl k, empty) refl) res in
    (
      shown.told_is ∙ ap (λ x. (replay env dump answers x).told) asked ∙ told,
      shown.queue_is k ∙ ap (λ x. (replay env dump answers x).queue k) asked ∙ none_waits,
    )
