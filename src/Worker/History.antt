-- ===== src/Worker/History.antt =====
-- What the runtime never takes back: the latest generation of a key while it is up, and the stop.
use herdr_context.Base.{
  ℕ, ◌≤◌, ◌≡◌, refl, sym, subst, true, false, none, some, [], arith, inl, inr, ◌⊎◌, Bool-cases,
  Option-cases, ◌==◌, ◌||◌, leb,
}
use herdr_context.Base.Map
use herdr_context.Base.KeySet
use herdr_context.Worker.Job.{Job, JobKey, job_key_eq, high, low, SubmitStatus}
use herdr_context.Worker.Lane
use herdr_context.Worker.Lane.{Lane}
use herdr_context.Worker.Runtime.{
  WorkerRuntime, lane, recorded, submit, queue_new, is_stale, has_job, pump_key, accept_completion,
  shutdown, outstanding_len,
}
use herdr_context.Worker.Threads.{
  wait, receive, finish, run_event, Step, submits, accepts, pumps, runs, shuts_down, Reach, here,
  next,
}
use herdr_context.Worker.Submits.{
  coalesced_state, submit_down, submit_stale, submit_coalesced, submit_queued,
}
use herdr_context.Worker.Started.{set_lane-fields}
use herdr_context.Worker.Events.{run_event-fields}
use herdr_context.Worker.Steps.{shutdown_state, released}
use herdr_context.Worker.Delivery.{latest-pump_key}

module _ {T O : Type 0} where
  -- The latest generation of the key is there, and not below `g`.
  abbrev pub AtLeast : JobKey → ℕ → WorkerRuntime T O → Type 0
  AtLeast k g w = (g' : ℕ) × (Map.lookup k w.latest ≡ some g') × (g ≤ g')

  raised :
      (k : JobKey) (g : ℕ) (w : WorkerRuntime T O) (job : Job T) (v : WorkerRuntime T O)
      → is_stale (Map.lookup job.key w.latest) job.generation ≡ false
      → Map.lookup k w.latest ≡ some g
      → v.latest ≡ Map.insert job.key job.generation w.latest
      → AtLeast k g v
  unfolding is_stale
  raised k g w job v fresh e same = elim (Bool-cases (k == job.key)) [
    | inl hit ↦ (
      job.generation,
      ground (arith, same, Map.lookup-insert k job.key job.generation w.latest),
      ground arith,
    )
    | inr miss ↦
        (g, ground (arith, same, Map.lookup-insert k job.key job.generation w.latest), omega arith)
  ]

  queue_new-latest :
      (w : WorkerRuntime T O) (job : Job T)
      → ((queue_new w job).0 ≡ w)
        ⊎ ((queue_new w job).0.latest ≡ Map.insert job.key job.generation w.latest)
  unfolding queue_new
  queue_new-latest w job = elim (Bool-cases (leb w.outstanding_capacity (outstanding_len w))) [
    | inl full ↦ rw full (inl refl)
    | inr room ↦ elim (Option-cases (Lane.try_send (lane w job.priority) job)) [
      | inl e ↦ rw (room, e, queue_new) (inl refl)
      | inr (l, e) ↦
          rw (room, e, queue_new) (inr (set_lane-fields (recorded w job) job.priority l).2)
    ]
  ]

  submit-AtLeast :
      (k : JobKey) (g : ℕ) (w : WorkerRuntime T O) (job : Job T)
      → Map.lookup k w.latest ≡ some g
      → AtLeast k g (submit w job).0
  submit-AtLeast k g w job e = elim (Bool-cases w.shutting_down) [
    | inl down ↦ subst Shows (sym (submit_down w job down)) (g, e, omega arith)
    | inr up ↦ elim (Bool-cases (is_stale (Map.lookup job.key w.latest) job.generation)) [
      | inl stale ↦ subst Shows (sym (submit_stale w job up stale)) (g, e, omega arith)
      | inr fresh ↦
          elim (Bool-cases
            (KeySet.contains job.key w.active || has_job (Map.lookup job.key w.pending))) [
              | inl there ↦
                  subst Shows (sym (submit_coalesced w job up fresh there))
                    (raised k g w job (coalesced_state w job) fresh e refl)
              | inr away ↦
                  subst Shows (sym (submit_queued w job up fresh away))
                    (elim (queue_new-latest w job) [
                      | inl same ↦ subst (AtLeast k g) (sym same) (g, e, omega arith)
                      | inr new ↦ raised k g w job (queue_new w job).0 fresh e new
                    ])
            ]
    ]
  ]
    where
      Shows : WorkerRuntime T O × SubmitStatus → Type 0
      Shows r = AtLeast k g r.0

  -- While the runtime is up, no step lowers or forgets the latest generation of a key: a
  -- generation once superseded stays superseded.
  pub latest_never_falls :
      (k : JobKey) (g : ℕ) {w v : WorkerRuntime T O}
      → Step w v
      → v.shutting_down ≡ false
      → Map.lookup k w.latest ≡ some g
      → AtLeast k g v
  unfolding accept_completion shutdown
  latest_never_falls k g (submits w job) up e = submit-AtLeast k g w job e
  latest_never_falls k g (accepts w r rs _) up e =
      (g, rw (latest-pump_key (released w r rs) r.key) e, omega arith)
  latest_never_falls k g (pumps w key _) up e = (g, rw (latest-pump_key w key) e, omega arith)
  latest_never_falls k g (runs w ev) up e = (g, rw ((run_event-fields ev w).2) e, omega arith)
  latest_never_falls k g (shuts_down w) up e = (g, ground arith, omega arith)

  -- Nothing is queued, running, pending or waiting to be received.
  pub record IsDown (w : WorkerRuntime T O) : Type 0 where
    pub down : w.shutting_down ≡ true
    pub no_active : w.active ≡ []
    pub no_pending : w.pending ≡ []
    pub no_latest : w.latest ≡ []
    pub no_results : w.results ≡ []
    pub no_high : (w.high_lane.queue ≡ []) × (w.high_lane.running ≡ none)
    pub no_low : (w.low_lane.queue ≡ []) × (w.low_lane.running ≡ none)

  Step-IsDown : {w v : WorkerRuntime T O} → Step w v → IsDown w → IsDown v
  unfolding run_event shutdown pump_key Map.lookup
  Step-IsDown (submits w job) d = subst (λ s. IsDown s.0) (sym (submit_down w job d.down)) d
  Step-IsDown (accepts w r rs e) d = absurd (ground (arith, d.no_results))
  Step-IsDown (pumps w key off) d = subst IsDown (ground (arith, d.no_pending)) d
  Step-IsDown (runs w (wait high)) d = ground arith
  Step-IsDown (runs w (wait low)) d = ground arith
  Step-IsDown (runs w (receive high)) d = ground arith
  Step-IsDown (runs w (receive low)) d = ground arith
  Step-IsDown (runs w (finish high c)) d = ground arith
  Step-IsDown (runs w (finish low c)) d = ground arith
  Step-IsDown (shuts_down w) d = subst IsDown (ground (arith, d.down)) d

  Reach-IsDown : {w v : WorkerRuntime T O} → IsDown w → Reach w v → IsDown v
  Reach-IsDown d here = d
  Reach-IsDown d (next r s) = Step-IsDown s (Reach-IsDown d r)

  -- After a shutdown no step of the owner or of a thread makes work again: nothing is active,
  -- pending, queued, running or waiting to be received.
  pub shutdown_is_final :
      (w v : WorkerRuntime T O) → w.shutting_down ≡ false → Reach (shutdown w) v → IsDown v
  unfolding Lane.stop
  shutdown_is_final w v up r =
      Reach-IsDown (subst IsDown (sym (shutdown_state w up)) (ground arith)) r
