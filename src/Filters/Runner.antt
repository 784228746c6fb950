-- ===== src/Filters/Runner.antt =====
-- filters_runner.go, `Run`: what becomes of the events.
use packetbeat.Base.{suc, ◌≡◌, refl, ap, true, false, List, [], ◌∷◌, ◌++◌, length, arith}
use packetbeat.Filters.{Filter, apply_filters, run}

module _ {P E : Type 0} where
  -- The filters pass the event, and turn it into `event'`.
  abbrev pub Passes : Filter P E → List P → E → E → Type 0
  Passes filter [] event event' = event ≡ event'
  Passes filter (plugin ∷ plugins) event event' =
      ((filter plugin event).1 ≡ true) × Passes filter plugins (filter plugin event).0 event'

  -- An event that the filters `done` pass and that the next one fails is forwarded as that one
  -- returned it; the later filters do not see it.
  apply_filters_failed :
      (filter : Filter P E) (done : List P) (plugin : P) (later : List P) (event event' : E)
      → Passes filter done event event'
      → (filter plugin event').1 ≡ false
      → apply_filters filter (done ++ plugin ∷ later) event ≡ (filter plugin event').0
  unfolding apply_filters
  apply_filters_failed filter [] plugin later event event' passes fails = ground arith
  apply_filters_failed filter (d ∷ done) plugin later event event' (fine, passes) fails =
      rw fine (apply_filters_failed filter done plugin later (filter d event).0 event' passes fails)

  -- An event that every filter passes is forwarded as the last one returned it.
  apply_filters_passed :
      (filter : Filter P E) (order : List P) (event event' : E)
      → Passes filter order event event'
      → apply_filters filter order event ≡ event'
  unfolding apply_filters
  apply_filters_passed filter [] event event' passes = passes
  apply_filters_passed filter (d ∷ order) event event' (fine, passes) =
      rw fine (apply_filters_passed filter order (filter d event).0 event' passes)

  -- Whatever the filters answer, as many events are written to the results as were read from the
  -- queue: an error drops no event.
  length-run :
      (filter : Filter P E) (order : List P) (queue : List E)
      → length (run filter order queue) ≡ length queue
  unfolding run
  length-run filter order [] = refl
  length-run filter order (event ∷ queue) = ap suc (length-run filter order queue)
