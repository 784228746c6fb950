-- ===== src/Thrift/Timers.antt =====
-- protos/thrift/thrift.go: the timers of the transactions, whatever messages, ends of connections and
-- timers come.
use packetbeat.Base.{
  ℕ, ◌<◌, ◌≡◌, inl, inr, refl, sym, ap, subst, ◌∙◌, Bool, true, false, List, [], ◌∷◌, Option, none,
  some, ◌==◌, if◌then◌else◌, ==_iff, arith, Bool-cases, Option-cases,
}
use packetbeat.Base.GoMap.{
  lookup, put, delete, lookup-put, lookup-delete, bytes_eq, bytes_eq_iff, bytes_instance, nat_eq,
}
use packetbeat.Base.Text.{Bytes}
use packetbeat.Protos.{TcpTuple}
use packetbeat.Redis.Transactions.{Lookups}
use packetbeat.Thrift.Message.{ThriftMessage}
use packetbeat.Thrift.State.{ThriftTransaction, Thrift}
use packetbeat.Thrift.Transactions.{
  pointer, transaction_at, send, send_old, stop_timer, call_transaction, arm, received_request,
  forget, complete_call, received_reply, handle_thrift, delete_key, close_call, finish_connection,
  expire_transaction, timer_fires, publish, publish_all, publish_transactions,
}

-- What may happen to the state: a message, the end of a connection, a timer, or the queue is published.
pub data Event : Type 0 where
  message : TcpTuple → ℕ → ThriftMessage → Event
  connection_ends : TcpTuple → Event
  timer : ℕ → Event
  published : Event

unfoldable pub step : Lookups → Thrift → Event → Thrift
step env thrift (message tuple dir msg) = handle_thrift env tuple dir msg thrift
step env thrift (connection_ends tuple) = finish_connection env tuple thrift
step env thrift (timer n) = timer_fires env n thrift
step env thrift published = publish_transactions thrift

unfoldable pub run : Lookups → List Event → Thrift → Thrift
run env [] thrift = thrift
run env (e ∷ es) thrift = run env es (step env thrift e)

-- A call that waits stands at the key of its tuple, and its timer is armed for that tuple.
pub record IsTimed (env : Lookups) (thrift : Thrift) : Type 0 where
  pub armed :
      (k : Bytes) (t : ThriftTransaction)
      → transaction_at k thrift ≡ some t
      → (env.hashable t.tuple ≡ k) × (lookup t.timer thrift.timers ≡ some t.tuple)
  pub numbered :
      (n : ℕ) (tuple : TcpTuple) → lookup n thrift.timers ≡ some tuple → n < thrift.next_timer

at_put :
    (k j : Bytes) (v : Option ThriftTransaction) (m : List (Bytes × Option ThriftTransaction))
    → pointer (lookup j (put k v m)) ≡ (if bytes_eq k j then v else pointer (lookup j m))
unfolding pointer
at_put k j v m = elim (Bool-cases (bytes_eq k j)) [
  | inl e ↦ rw (lookup-put k j v m, e) refl
  | inr e ↦ rw (lookup-put k j v m, e) refl
]

pub at_delete :
    (k j : Bytes) (m : List (Bytes × Option ThriftTransaction))
    → pointer (lookup j (delete k m)) ≡ (if bytes_eq k j then none else pointer (lookup j m))
unfolding pointer
at_delete k j m = elim (Bool-cases (bytes_eq k j)) [
  | inl e ↦ rw (lookup-delete k j m, e) refl
  | inr e ↦ rw (lookup-delete k j m, e) refl
]

delete-absent : (n : ℕ) (m : List (ℕ × TcpTuple)) → lookup n m ≡ none → delete n m ≡ m
unfolding lookup delete
delete-absent n [] e = refl
delete-absent n ((j, v) ∷ m) e = elim (Bool-cases (j == n)) [
  | inl f ↦ let there : some v ≡ none = rw f at e in absurd (cc there)
  | inr f ↦
      let behind : lookup n m ≡ none = rw f at e in
      rw f (ap (λ z. (j, v) ∷ z) (delete-absent n m behind))
]

module _ (env : Lookups) where
  -- The call at a key leaves the map, and the timer of that key is gone.
  leaves-IsTimed :
      (thrift thrift' : Thrift) (k : Bytes) (n : ℕ) (tuple : TcpTuple)
      → IsTimed env thrift
      → ((j : Bytes)
          → transaction_at j thrift' ≡ (if bytes_eq k j then none else transaction_at j thrift))
      → thrift'.timers ≡ delete n thrift.timers
      → thrift'.next_timer ≡ thrift.next_timer
      → lookup n thrift.timers ≡ some tuple
      → env.hashable tuple ≡ k
      → IsTimed env thrift'
  leaves-IsTimed thrift thrift' k n tuple i at ts next found same = record {
    armed = λ j t e. elim (Bool-cases (bytes_eq k j)) [
      | inl q ↦
          let gone : transaction_at j thrift' ≡ none = at j ∙ rw q refl in absurd (cc (gone, e))
      | inr q ↦
          let was : transaction_at j thrift ≡ some t = sym (at j ∙ rw q refl) ∙ e in
          let (stands, rings) = i.armed j t was in (stands, another_timer t j stands rings q)
    ];
    numbered = λ m tup e.
        let still = sym (ap (lookup m) ts ∙ lookup-delete n m thrift.timers) ∙ e in
        subst (λ z. m < z) (sym next) (i.numbered m tup (kept_timer m tup (n == m) still));
  }
    where
      kept_timer :
          (m : ℕ) (tup : TcpTuple) (b : Bool)
          → (if b then none else lookup m thrift.timers) ≡ some tup
          → lookup m thrift.timers ≡ some tup
      kept_timer m tup true e = absurd (cc e)
      kept_timer m tup false e = e

      another_timer :
          (t : ThriftTransaction) (j : Bytes)
          → env.hashable t.tuple ≡ j
          → lookup t.timer thrift.timers ≡ some t.tuple
          → bytes_eq k j ≡ false
          → lookup t.timer thrift'.timers ≡ some t.tuple
      another_timer t j stands rings q = elim (Bool-cases (n == t.timer)) [
        | inr f ↦ ap (lookup t.timer) ts ∙ lookup-delete n t.timer thrift.timers ∙ rw f rings
        | inl f ↦
            let one : n ≡ t.timer = (==_iff n t.timer).0 f in
            let tuples : tuple ≡ t.tuple = cc (found, rings, one) in
            let keys : k ≡ j = sym same ∙ ap env.hashable tuples ∙ stands in
            let both : bytes_eq k j ≡ true = (bytes_eq_iff k j).1 keys in absurd (cc (both, q))
      ]

  armed-IsTimed :
      (thrift : Thrift) (t : ThriftTransaction)
      → IsTimed env thrift
      → t.timer ≡ thrift.next_timer
      → IsTimed env (arm (env.hashable t.tuple) t thrift)
  unfolding arm transaction_at lookup
  armed-IsTimed thrift t i n = record {
    armed = λ j t' e. elim (Bool-cases (bytes_eq (env.hashable t.tuple) j)) [
      | inl q ↦
          let same : some t ≡ some t' =
            sym (at_put (env.hashable t.tuple) j (some t) thrift.trans_map ∙ rw q refl) ∙ e in
          let new : t ≡ t' = cc same in
          let rings : (thrift.next_timer == t'.timer) ≡ true =
            (==_iff _ _).1 (sym n ∙ ap (λ z. z.timer) new) in
          (
            ap (λ z. env.hashable z.tuple) (sym new) ∙ (bytes_eq_iff (env.hashable t.tuple) j).0 q,
            rw rings (ap (λ z. some z.tuple) new),
          )
      | inr q ↦
          let was : transaction_at j thrift ≡ some t' =
            sym (at_put (env.hashable t.tuple) j (some t) thrift.trans_map ∙ rw q refl) ∙ e in
          let (stands, rings) = i.armed j t' was in
          let older = i.numbered t'.timer t'.tuple rings in
          let other : (thrift.next_timer == t'.timer) ≡ false = ground arith in
          (stands, rw other rings)
    ];
    numbered = λ m tup e. elim (Bool-cases (thrift.next_timer == m)) [
      | inl f ↦ omega (arith, (==_iff thrift.next_timer m).0 f)
      | inr f ↦
          let was : lookup m thrift.timers ≡ some tup = rw f at e in
          omega (arith, i.numbered m tup was)
    ];
  }

  -- The queue is not looked at.
  same-IsTimed :
      (thrift thrift' : Thrift)
      → thrift'.trans_map ≡ thrift.trans_map
      → thrift'.timers ≡ thrift.timers
      → thrift'.next_timer ≡ thrift.next_timer
      → IsTimed env thrift
      → IsTimed env thrift'
  unfolding transaction_at
  same-IsTimed thrift thrift' m ts n i = record {
    armed = λ k t e.
        let (stands, rings) = i.armed k t (ap (λ z. pointer (lookup k z)) (sym m) ∙ e) in
        (stands, ap (lookup t.timer) ts ∙ rings);
    numbered =
        λ k tup e. subst (λ z. k < z) (sym n) (i.numbered k tup (ap (lookup k) (sym ts) ∙ e));
  }

  pub sent-next :
      (old : Option ThriftTransaction) (thrift : Thrift)
      → (send_old old thrift).next_timer ≡ thrift.next_timer
  unfolding send_old send
  sent-next none thrift = refl
  sent-next (some t) thrift = refl

  sent-IsTimed :
      (old : Option ThriftTransaction) (thrift : Thrift)
      → IsTimed env thrift
      → IsTimed env (send_old old thrift)
  unfolding send_old send
  sent-IsTimed none thrift i = i
  sent-IsTimed (some t) thrift i = same-IsTimed thrift _ refl refl refl i

  complete_call-IsTimed :
      (msg : ThriftMessage) (tuple : TcpTuple) (old : Option ThriftTransaction) (thrift : Thrift)
      → transaction_at (env.hashable tuple) thrift ≡ old
      → IsTimed env thrift
      → IsTimed env (complete_call env msg tuple old thrift)
  unfolding complete_call stop_timer forget send transaction_at
  complete_call-IsTimed msg tuple none thrift e i = i
  complete_call-IsTimed msg tuple (some t) thrift e i =
      elim (Bool-cases (bytes_eq t.request.method msg.method)) [
        | inr f ↦ simp f i
        | inl f ↦
            let (stands, rings) = i.armed (env.hashable tuple) t e in
            simp f (
              leaves-IsTimed thrift _ (env.hashable tuple) t.timer t.tuple i
                (λ j. at_put (env.hashable tuple) j none thrift.trans_map) refl refl rings stands)
      ]

  close_call-IsTimed :
      (tuple : TcpTuple) (old : Option ThriftTransaction) (thrift : Thrift)
      → transaction_at (env.hashable tuple) thrift ≡ old
      → IsTimed env thrift
      → IsTimed env (close_call env old thrift)
  unfolding close_call stop_timer delete_key send transaction_at
  close_call-IsTimed tuple none thrift e i = i
  close_call-IsTimed tuple (some t) thrift e i = elim (Option-cases t.reply) [
    | inr (msg, f) ↦ simp f i
    | inl f ↦
        let (stands, rings) = i.armed (env.hashable tuple) t e in
        rw f (
          leaves-IsTimed thrift _ (env.hashable t.tuple) t.timer t.tuple i
            (λ j. at_delete (env.hashable t.tuple) j thrift.trans_map) refl refl rings refl)
  ]

  timer_fires-IsTimed :
      (n : ℕ) (thrift : Thrift) → IsTimed env thrift → IsTimed env (timer_fires env n thrift)
  unfolding timer_fires expire_transaction delete_key transaction_at
  timer_fires-IsTimed n thrift i = elim (Option-cases (lookup n thrift.timers)) [
    | inr (tuple, f) ↦
        rw (timer_fires, f)
          (leaves-IsTimed thrift _ (env.hashable tuple) n tuple i
            (λ j. at_delete (env.hashable tuple) j thrift.trans_map) refl refl f refl)
    | inl f ↦
        rw (timer_fires, f) (same-IsTimed thrift _ refl (delete-absent n thrift.timers f) refl i)
  ]

  publish_all-IsTimed :
      (queue : List ThriftTransaction) (thrift : Thrift)
      → IsTimed env thrift
      → IsTimed env (publish_all queue thrift)
  unfolding publish_all publish
  publish_all-IsTimed [] thrift i = same-IsTimed thrift _ refl refl refl i
  publish_all-IsTimed (t ∷ queue) thrift i =
      publish_all-IsTimed queue (publish t thrift) (elim (Option-cases thrift.results) [
        | inl e ↦ rw (publish, e) i
        | inr (es, e) ↦ simp (publish, e) (same-IsTimed thrift _ refl refl refl i)
      ])

  step-IsTimed :
      (e : Event) (thrift : Thrift) → IsTimed env thrift → IsTimed env (step env thrift e)
  unfolding step handle_thrift received_request call_transaction received_reply finish_connection
      publish_transactions
  step-IsTimed (message tuple dir msg) thrift i = elim (Bool-cases msg.is_request) [
    | inl q ↦
        let old = transaction_at (env.hashable tuple) thrift in
        simp q (
          armed-IsTimed (send_old old thrift) _ (sent-IsTimed old thrift i)
            (sym (sent-next old thrift)))
    | inr q ↦ simp q (complete_call-IsTimed msg tuple _ thrift refl i)
  ]
  step-IsTimed (connection_ends tuple) thrift i = close_call-IsTimed tuple _ thrift refl i
  step-IsTimed (timer n) thrift i = timer_fires-IsTimed n thrift i
  step-IsTimed published thrift i = publish_all-IsTimed thrift.publish_queue thrift i

-- Whatever messages, ends of connections and timers come, and whenever the queue is published: a call
-- that waits stands at the key of its tuple with its timer armed for that tuple, so it cannot stay for
-- good, and no armed timer has the number of one to come.
pub run-IsTimed :
    (env : Lookups) (es : List Event) (thrift : Thrift)
    → IsTimed env thrift
    → IsTimed env (run env es thrift)
unfolding run
run-IsTimed env [] thrift i = i
run-IsTimed env (e ∷ es) thrift i = run-IsTimed env es _ (step-IsTimed env e thrift i)
