-- ===== src/Pgsql/Lists.antt =====
-- protos/pgsql/pgsql.go: how the operations on `transactionsMap` read through the list of a key.
use packetbeat.Base.{
  ℕ, ◌+◌, ◌++◌, ◌≡◌, refl, sym, ap, ◌∙◌, inl, inr, List, [], ◌∷◌, none, some, length, ◌==◌,
  if◌then◌else◌, arith, Option-cases, Bool-cases, append-nil, append_assoc,
}
use packetbeat.Base.GoMap.{
  put, delete, lookup-put, lookup-delete, bytes_instance, bytes_eq, bytes_eq_iff, beq_refl,
}
use packetbeat.Base.Text.{Bytes}
use packetbeat.Pgsql.State.{PgsqlTransaction, Pgsql}
use packetbeat.Pgsql.Transactions.{
  waiting, add_queries, remove_at, store_list, remove_transaction, index_of, delete_empty,
  remove_found, expire_transaction,
}

abbrev pub Table : Type 0
Table = List (Bytes × List PgsqlTransaction)

pub waiting-put :
    (k j : Bytes) (ts : List PgsqlTransaction) (m : Table)
    → waiting j (put k ts m) ≡ (if bytes_eq k j then ts else waiting j m)
unfolding waiting
waiting-put k j ts m = ground (arith, lookup-put k j ts m)

pub waiting-delete :
    (k j : Bytes) (m : Table) → waiting j (delete k m) ≡ (if bytes_eq k j then [] else waiting j m)
unfolding waiting
waiting-delete k j m = ground (arith, lookup-delete k j m)

-- The part of the state that is no list: nothing but responses changes the results.
pub record SameRest (p p' : Pgsql) : Type 0 where
  pub results_same : p'.results ≡ p.results
  pub request_same : p'.send_request ≡ p.send_request
  pub response_same : p'.send_response ≡ p.send_response

pub store_list-waiting :
    (k j : Bytes) (ts : List PgsqlTransaction) (p : Pgsql)
    → waiting j (store_list k ts p).transactions_map
      ≡ (if bytes_eq k j then ts else waiting j p.transactions_map)
unfolding store_list
store_list-waiting k j [] p = waiting-delete k j p.transactions_map
store_list-waiting k j (t ∷ ts) p = waiting-put k j (t ∷ ts) p.transactions_map

pub store_list-SameRest :
    (k : Bytes) (ts : List PgsqlTransaction) (p : Pgsql)
    → SameRest p (store_list k ts p) × ((store_list k ts p).next_id ≡ p.next_id)
unfolding store_list
store_list-SameRest k [] p =
    (record { results_same = refl; request_same = refl; response_same = refl }, refl)
store_list-SameRest k (t ∷ ts) p =
    (record { results_same = refl; request_same = refl; response_same = refl }, refl)

-- The transactions of some queries, with the addresses from `id` on.
unfoldable pub made : (ℕ → Bytes → PgsqlTransaction) → ℕ → List Bytes → List PgsqlTransaction
made make id [] = []
made make id (q ∷ qs) = make id q ∷ made make (id + 1) qs

module _ (k : Bytes) (make : ℕ → Bytes → PgsqlTransaction) where
  pub add_queries-waiting :
      (qs : List Bytes) (p : Pgsql) (j : Bytes)
      → waiting j (add_queries k make qs p).transactions_map ≡ (
          if bytes_eq k j
          then waiting k p.transactions_map ++ made make p.next_id qs
          else waiting j p.transactions_map)
  unfolding add_queries made
  add_queries-waiting [] p j = elim (Bool-cases (bytes_eq k j)) [
    | inl e ↦
        rw (e, append-nil (waiting k p.transactions_map))
          (ap (λ x. waiting x p.transactions_map) (sym ((bytes_eq_iff k j).0 e)))
    | inr e ↦ rw e refl
  ]
  add_queries-waiting (q ∷ qs) p j = ground (
    arith,
    add_queries-waiting qs
        (record p {
          transactions_map =
              put k (waiting k p.transactions_map ++ make p.next_id q ∷ []) p.transactions_map;
          next_id = p.next_id + 1;
        })
        j,
    waiting-put k k (waiting k p.transactions_map ++ make p.next_id q ∷ []) p.transactions_map,
    waiting-put k j (waiting k p.transactions_map ++ make p.next_id q ∷ []) p.transactions_map,
    beq_refl k,
    append_assoc (waiting k p.transactions_map) (make p.next_id q ∷ [])
        (made make (p.next_id + 1) qs),
  )

  pub add_queries-SameRest :
      (qs : List Bytes) (p : Pgsql)
      → SameRest p (add_queries k make qs p)
        × ((add_queries k make qs p).next_id ≡ p.next_id + length qs)
  unfolding add_queries
  add_queries-SameRest [] p =
      (record { results_same = refl; request_same = refl; response_same = refl }, omega arith)
  add_queries-SameRest (q ∷ qs) p =
      let ih = add_queries-SameRest qs (record p {
        transactions_map =
            put k (waiting k p.transactions_map ++ make p.next_id q ∷ []) p.transactions_map;
        next_id = p.next_id + 1;
      }) in
      (
        record {
          results_same = ih.0.results_same;
          request_same = ih.0.request_same;
          response_same = ih.0.response_same;
        },
        omega (arith, ih.1),
      )

-- The list without the first transaction of the address.
unfoldable pub without : ℕ → List PgsqlTransaction → List PgsqlTransaction
without id [] = []
without id (t ∷ ts) = let rest = without id ts in if t.id == id then ts else t ∷ rest

without-none : (id : ℕ) (ts : List PgsqlTransaction) → index_of id ts ≡ none → without id ts ≡ ts
unfolding without index_of
without-none id [] e = refl
without-none id (t ∷ ts) e = ground (arith, without-none id ts)

without-some :
    (id : ℕ) (ts : List PgsqlTransaction) (i : ℕ)
    → index_of id ts ≡ some i
    → without id ts ≡ remove_at i ts
unfolding without index_of remove_at
without-some id [] i e = cc
without-some id (t ∷ ts) i e = elim (Option-cases (index_of id ts)) [
  | inl n ↦ ground (arith, n)
  | inr (j, f) ↦ ground (arith, f, without-some id ts j f)
]

module _ (k : Bytes) (id : ℕ) (p : Pgsql) where
  abbrev found : Pgsql
  found = remove_found k (index_of id (waiting k p.transactions_map)) p

  found-waiting :
      (j : Bytes)
      → waiting j found.transactions_map ≡ (
          if bytes_eq k j
          then without id (waiting k p.transactions_map)
          else waiting j p.transactions_map)
  unfolding remove_found remove_transaction
  found-waiting j = elim (Option-cases (index_of id (waiting k p.transactions_map))) [
    | inl e ↦
        rw (e, without-none id (waiting k p.transactions_map) e)
          (elim (Bool-cases (bytes_eq k j)) [
            | inl b ↦ rw b (ap (λ x. waiting x p.transactions_map) (sym ((bytes_eq_iff k j).0 b)))
            | inr b ↦ rw b refl
          ])
    | inr (i, e) ↦
        rw (e, without-some id (waiting k p.transactions_map) i e)
          (store_list-waiting k j (remove_at i (waiting k p.transactions_map)) p)
  ]

  found-SameRest : SameRest p found × (found.next_id ≡ p.next_id)
  unfolding remove_found remove_transaction
  found-SameRest = elim (Option-cases (index_of id (waiting k p.transactions_map))) [
    | inl e ↦ rw e (record { results_same = refl; request_same = refl; response_same = refl }, refl)
    | inr (i, e) ↦ rw e (store_list-SameRest k (remove_at i (waiting k p.transactions_map)) p)
  ]

delete_empty-waiting :
    (k j : Bytes) (ts : List PgsqlTransaction) (p : Pgsql)
    → waiting k p.transactions_map ≡ ts
    → waiting j (delete_empty k ts p).transactions_map ≡ waiting j p.transactions_map
unfolding delete_empty
delete_empty-waiting k j [] p e = elim (Bool-cases (bytes_eq k j)) [
  | inl b ↦
      waiting-delete k j p.transactions_map
      ∙ rw b (sym e ∙ ap (λ x. waiting x p.transactions_map) ((bytes_eq_iff k j).0 b))
  | inr b ↦ waiting-delete k j p.transactions_map ∙ rw b refl
]
delete_empty-waiting k j (t ∷ ts) p e = refl

delete_empty-SameRest :
    (k : Bytes) (ts : List PgsqlTransaction) (p : Pgsql)
    → SameRest p (delete_empty k ts p) × ((delete_empty k ts p).next_id ≡ p.next_id)
unfolding delete_empty
delete_empty-SameRest k [] p =
    (record { results_same = refl; request_same = refl; response_same = refl }, refl)
delete_empty-SameRest k (t ∷ ts) p =
    (record { results_same = refl; request_same = refl; response_same = refl }, refl)

SameRest-trans : {a b c : Pgsql} → SameRest a b → SameRest b c → SameRest a c
SameRest-trans p q = record {
  results_same = q.results_same ∙ p.results_same;
  request_same = q.request_same ∙ p.request_same;
  response_same = q.response_same ∙ p.response_same;
}

pub expire_transaction-waiting :
    (k : Bytes) (id : ℕ) (p : Pgsql) (j : Bytes)
    → waiting j (expire_transaction k id p).transactions_map ≡ (
        if bytes_eq k j
        then without id (waiting k p.transactions_map)
        else waiting j p.transactions_map)
unfolding expire_transaction
expire_transaction-waiting k id p j =
    delete_empty-waiting k j (waiting k (found k id p).transactions_map) (found k id p) refl
    ∙ found-waiting k id p j

pub expire_transaction-SameRest :
    (k : Bytes) (id : ℕ) (p : Pgsql)
    → SameRest p (expire_transaction k id p) × ((expire_transaction k id p).next_id ≡ p.next_id)
unfolding expire_transaction
expire_transaction-SameRest k id p =
    let (same, id_same) = found-SameRest k id p in
    let (same', id_same') =
      delete_empty-SameRest k (waiting k (found k id p).transactions_map) (found k id p) in
    (SameRest-trans same same', id_same' ∙ id_same)
