-- ===== src/Worker/Polling.antt =====
-- `try_recv` as a sequence of steps of the owner.
use herdr_context.Base.{
  ◌≡◌, refl, sym, subst, Option, some, List, [], ◌∷◌, arith, inl, inr, Bool-cases, Option-cases,
  map,
}
use herdr_context.Base.Map
use herdr_context.Base.KeySet
use herdr_context.Worker.Job.{JobKey, job_key_eq, Priority, high, low, RawCompletion, CompletedJob}
use herdr_context.Worker.Lane
use herdr_context.Worker.Lane.{Lane}
use herdr_context.Worker.Runtime.{
  WorkerRuntime, lane, set_lane, pump_key, pump_keys, pump_pending, accept_completion, recv_loop,
  try_recv,
}
use herdr_context.Worker.Threads.{
  ThreadEvent, run_event, run_events, first_result, Reach, here, next, accepts, pumps, runs,
}

module _ {T O : Type 0} where
  pub Reach-trans : {u v w : WorkerRuntime T O} → Reach u v → Reach v w → Reach u w
  Reach-trans r here = r
  Reach-trans r (next s st) = next (Reach-trans r s) st

  results-set_lane :
      (w : WorkerRuntime T O) (p : Priority) (l : Lane T) → (set_lane w p l).results ≡ w.results
  unfolding set_lane
  results-set_lane w high l = refl
  results-set_lane w low l = refl

  pub results-pump_key :
      (w : WorkerRuntime T O) (key : JobKey) → (pump_key w key).results ≡ w.results
  unfolding pump_key
  results-pump_key w key = elim (Option-cases (Map.lookup key w.pending)) [
    | inl e ↦ rw (e, pump_key)
    | inr (job, e) ↦ elim (Option-cases (Lane.try_send (lane w job.priority) job)) [
      | inl full ↦ rw (e, full, pump_key)
      | inr (l, sends) ↦
          rw (e, sends, pump_key)
            (results-set_lane
              (record w { pending = Map.remove key w.pending; active = KeySet.insert key w.active })
              job.priority l)
    ]
  ]

  pump_keys-Reach : (keys : List JobKey) (w : WorkerRuntime T O) → Reach w (pump_keys keys w)
  unfolding pump_keys
  pump_keys-Reach [] w = here
  pump_keys-Reach (key ∷ keys) w = elim (Bool-cases (KeySet.contains key w.active)) [
    | inl on ↦ rw on (pump_keys-Reach keys w)
    | inr off ↦
        rw off (Reach-trans (next here (pumps w key off)) (pump_keys-Reach keys (pump_key w key)))
  ]

  pump_pending-Reach : (w : WorkerRuntime T O) → Reach w (pump_pending w)
  unfolding pump_pending
  pump_pending-Reach w = pump_keys-Reach (map (λ (k, _). k) w.pending) w

  pub results-accept :
      (w : WorkerRuntime T O) (r : RawCompletion O) (rs : List (RawCompletion O))
      → (accept_completion (record w { results = rs }) r).0.results ≡ rs
  unfolding accept_completion
  results-accept w r rs = results-pump_key _ r.key

  pub emptied : (w : WorkerRuntime T O) → w.results ≡ [] → record w { results = [] } ≡ w
  emptied w e = λ i. record w { results = sym e i }

  recv_loop-Reach :
      (rs : List (RawCompletion O)) (w : WorkerRuntime T O)
      → w.results ≡ rs
      → Reach w (recv_loop rs w).0
  unfolding recv_loop
  recv_loop-Reach [] w e =
      subst (λ v. Reach w (pump_pending v)) (sym (emptied w e)) (pump_pending-Reach w)
  recv_loop-Reach (r ∷ rs) w e =
      let after = accept_completion (record w { results = rs }) r in
      let first : Reach w after.0 = next here (accepts w r rs e) in
      elim (Option-cases after.1) [
        | inl dropped ↦
            rw (dropped, recv_loop)
              (Reach-trans first (recv_loop-Reach rs after.0 (results-accept w r rs)))
        | inr (job, given) ↦ rw (given, recv_loop) first
      ]

  -- `try_recv` is a sequence of steps of the owner.
  pub try_recv-Reach : (w : WorkerRuntime T O) → Reach w (try_recv w).0
  unfolding try_recv
  try_recv-Reach w = recv_loop-Reach w.results w refl

  run_events-Reach : (es : List (ThreadEvent O)) (w : WorkerRuntime T O) → Reach w (run_events es w)
  unfolding run_events
  run_events-Reach [] w = here
  run_events-Reach (e ∷ es) w =
      Reach-trans (next here (runs w e)) (run_events-Reach es (run_event e w))

  first_result-Reach :
      (w u : WorkerRuntime T O) (rs : List (RawCompletion O)) (d : Option (CompletedJob O))
      → w.results ≡ rs
      → first_result w rs ≡ some (u, d)
      → Reach w u
  first_result-Reach w u [] d e f = absurd (ground arith)
  first_result-Reach w u (r ∷ rs) d e f =
      subst (Reach w) (ground arith) (next here (accepts w r rs e))
