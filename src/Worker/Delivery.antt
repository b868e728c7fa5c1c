-- ===== src/Worker/Delivery.antt =====
-- What the owner of the runtime can rely on: latest wins, nothing newer is lost, and the threads
-- are never blocked on the channel of results.
use herdr_context.Base.{
  ℕ, ◌<◌, ◌≤◌, ◌≡◌, ◌⊎◌, refl, true, Option, none, some, List, [], ◌∷◌, arith, length, option_eq,
  nat_eq, inl, inr, Option-cases,
}
use herdr_context.Base.Map
use herdr_context.Base.KeySet
use herdr_context.Worker.Job.{
  Job, JobKey, job_key_eq, Priority, high, low, RawCompletion, CompletedJob,
}
use herdr_context.Worker.Lane
use herdr_context.Worker.Lane.{Lane}
use herdr_context.Worker.Runtime.{
  outstanding_len, WorkerRuntime, lane, pump_key, accept_completion, with_capacities,
}
use herdr_context.Worker.Threads.{Reach}
use herdr_context.Worker.Load.{each, age, load, load-age, result_load, lane_load, running_load}
use herdr_context.Worker.Slot.{Inv}
use herdr_context.Worker.Started.{set_lane-fields}
use herdr_context.Worker.Steps.{Reach-Inv, with_capacities-Inv, released, released_active}

module _ {O : Type 0} where
  result-each : (rs : List (RawCompletion O)) → result_load each rs ≡ length rs
  unfolding result_load
  result-each [] = refl
  result-each (r ∷ rs) = omega (arith, result-each rs)

  abbrev pub delivered : RawCompletion O → CompletedJob O
  delivered r = record { key = r.key; generation = r.generation; completion = r.completion }

module _ {T O : Type 0} where
  length-active-le : (w : WorkerRuntime T O) → Inv w → length w.active ≤ w.outstanding_capacity
  unfolding outstanding_len
  length-active-le w h = ground (arith, h.bounded)

  -- In every state that is reached from a new runtime, a thread that has ended a task finds room
  -- in the channel of results, so its send does not block.
  pub send_never_blocks :
      (high_capacity low_capacity : ℕ) {w : WorkerRuntime T O} (p : Priority) {job : Job T}
      → Reach (with_capacities high_capacity low_capacity) w
      → (lane w p).running ≡ some job
      → length w.results < w.result_capacity
  unfolding lane load lane_load running_load
  send_never_blocks hc lc {w} p {job} r e =
      let h = Reach-Inv (with_capacities-Inv hc lc) r in go p e h
    where
      go :
          (p : Priority)
          → (lane w p).running ≡ some job
          → Inv w
          → length w.results < w.result_capacity
      go high e h = ground (arith, h.total, h.matched, length-active-le w h, result-each w.results)
      go low e h = ground (arith, h.total, h.matched, length-active-le w h, result-each w.results)

  pub latest-pump_key : (w : WorkerRuntime T O) (key : JobKey) → (pump_key w key).latest ≡ w.latest
  unfolding pump_key
  latest-pump_key w key = elim (Option-cases (Map.lookup key w.pending)) [
    | inl e ↦ rw (e, pump_key)
    | inr (job, e) ↦ elim (Option-cases (Lane.try_send (lane w job.priority) job)) [
      | inl full ↦ rw (e, full, pump_key)
      | inr (l, sends) ↦
          rw (e, sends, pump_key)
            (set_lane-fields
              (record w { pending = Map.remove key w.pending; active = KeySet.insert key w.active })
              job.priority l).2
    ]
  ]

  -- A pending job that is pumped is active or still pending.
  pub pump_key_keeps :
      (w : WorkerRuntime T O) (key : JobKey) (job : Job T)
      → Map.lookup key w.pending ≡ some job
      → (KeySet.contains key (pump_key w key).active ≡ true)
        ⊎ (Map.lookup key (pump_key w key).pending ≡ some job)
  unfolding pump_key
  pump_key_keeps w key job e = elim (Option-cases (Lane.try_send (lane w job.priority) job)) [
    | inl full ↦
        rw (e, full, pump_key)
          (inr (ground (arith, Map.lookup-insert key key job (Map.remove key w.pending))))
    | inr (l, sends) ↦
        let fs =
          set_lane-fields
            (record w { pending = Map.remove key w.pending; active = KeySet.insert key w.active })
            job.priority l in
        rw (e, sends, pump_key)
          (inl (ground (arith, fs.0, KeySet.contains-insert key key w.active)))
  ]

  -- A result is delivered exactly where its key has no newer job, and then its generation is the
  -- latest of the key; otherwise it is dropped, and the newer job is active or pending.
  abbrev pub LatestWins :
      WorkerRuntime T O → RawCompletion O → WorkerRuntime T O → Option (CompletedJob O) → Type 0
  LatestWins w r w' d =
      ((Map.lookup r.key w.pending ≡ none)
        × (d ≡ some (delivered r))
        × (Map.lookup r.key w'.latest ≡ some r.generation))
      ⊎ ((p : Job T) × (Map.lookup r.key w.pending ≡ some p)
          × (r.generation < p.generation)
          × (d ≡ none)
          × (Map.lookup r.key w'.latest ≡ some p.generation)
          × ((KeySet.contains r.key w'.active ≡ true) ⊎ (Map.lookup r.key w'.pending ≡ some p)))

  head_generation :
      (w : WorkerRuntime T O) (r : RawCompletion O) (rs : List (RawCompletion O))
      → Inv w
      → w.results ≡ r ∷ rs
      → load (age r.key) w ≡ r.generation
  unfolding load result_load
  head_generation w r rs h e =
      ground (arith, e, h.slot r.key, released_active w r rs h e, load-age r.key (released w r rs))

  accept-LatestWins :
      (w : WorkerRuntime T O) (r : RawCompletion O) (rs : List (RawCompletion O))
      → Inv w
      → w.results ≡ r ∷ rs
      → let after = accept_completion (record w { results = rs }) r in
        LatestWins w r after.0 after.1
  unfolding accept_completion option_eq nat_eq
  accept-LatestWins w r rs h e =
      let same = latest-pump_key (released w r rs) r.key in
      let age_r = head_generation w r rs h e in
      let on = released_active w r rs h e in
      elim (Option-cases (Map.lookup r.key w.pending)) [
        | inl gone ↦ inl (
          gone,
          ground (arith, same, age_r, on, h.slot r.key),
          ground (arith, same, age_r, on, h.slot r.key),
        )
        | inr (p, found) ↦ inr (
          p,
          found,
          ground (arith, age_r, on, h.slot r.key),
          ground (arith, same, age_r, on, h.slot r.key),
          ground (arith, same, on, h.slot r.key),
          pump_key_keeps (released w r rs) r.key p found,
        )
      ]

  -- In every state that is reached from a new runtime, a result that the owner takes from the
  -- channel is delivered exactly where no newer job of its key is pending, and then its generation
  -- is the latest of the key. Otherwise it is dropped, and the newer job of the key, whose
  -- generation is the latest, is active or still pending.
  pub latest_wins :
      (high_capacity low_capacity : ℕ) {w : WorkerRuntime T O} (r : RawCompletion O)
      (rs : List (RawCompletion O))
      → Reach (with_capacities high_capacity low_capacity) w
      → w.results ≡ r ∷ rs
      → let after = accept_completion (record w { results = rs }) r in
        LatestWins w r after.0 after.1
  latest_wins hc lc {w} r rs reached e =
      accept-LatestWins w r rs (Reach-Inv (with_capacities-Inv hc lc) reached) e
