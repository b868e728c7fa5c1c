-- ===== src/Worker/Submission.antt =====
-- What `submit` does on each of its branches, and what it never undoes.
use herdr_context.Base.{
  ap, ◌∙◌, ◌==◌, if◌then◌else◌, List, [], ◌∷◌, ◌++◌, append_nil, ◌<◌, ◌≤◌, ◌≡◌, ◌⊎◌, refl, true,
  false, ◌&&◌, ◌||◌, none, some, arith, inl, inr, subst, sym, Bool-cases, Option-cases, leb,
}
use herdr_context.Base.Map
use herdr_context.Base.KeySet
use herdr_context.Worker.Job.{
  Job, JobKey, job_key_eq, Priority, high, low, SubmitStatus, queued, coalesced, rejected_stale,
  backpressure, shutting_down,
}
use herdr_context.Worker.Lane
use herdr_context.Worker.Lane.{Lane}
use herdr_context.Worker.Runtime.{
  WorkerRuntime, lane, set_lane, recorded, submit, queue_new, is_stale, has_job, outstanding_len,
}
use herdr_context.Worker.Submits.{
  coalesced_state, coalesced-outstanding_len, submit_down, submit_stale, submit_coalesced,
  submit_queued,
}
use herdr_context.Worker.Started.{set_lane-fields}

module _ {T : Type 0} where
  -- What a lane receives of a job that is sent to a lane.
  abbrev pub sent : (lane target : Priority) → Job T → List (Job T)
  sent high high job = job ∷ []
  sent low low job = job ∷ []
  sent _ _ job = []

  queue-try_send :
      (before after : Lane T) (job : Job T)
      → Lane.try_send before job ≡ some after
      → after.queue ≡ before.queue ++ job ∷ []
  unfolding Lane.try_send
  queue-try_send before after job e = elim (Bool-cases (before.sender && Lane.has_room before)) [
    | inl takes ↦ ground (arith, rw takes at e)
    | inr full ↦ absurd (ground (arith, rw full at e))
  ]

module _ {T O : Type 0} where
  -- The key of the job has it as its newest job, in flight or pending.
  abbrev pub Holds : WorkerRuntime T O → Job T → Type 0
  Holds w job =
      (Map.lookup job.key w.latest ≡ some job.generation)
      × ((KeySet.contains job.key w.active ≡ true) ⊎ (Map.lookup job.key w.pending ≡ some job))

  -- The newest generation of each key: the job's at its own key, and else what it was.
  abbrev pub Renewed : WorkerRuntime T O → Job T → WorkerRuntime T O → Type 0
  Renewed w job v =
      (k : JobKey)
      → Map.lookup k v.latest
        ≡ (if k == job.key then some job.generation else Map.lookup k w.latest)

  -- What each status says of the state before and after.
  abbrev pub Outcome : SubmitStatus → WorkerRuntime T O → Job T → WorkerRuntime T O → Type 0
  Outcome shutting_down w job v = (w.shutting_down ≡ true) × (v ≡ w)
  Outcome rejected_stale w job v =
      (w.shutting_down ≡ false)
      × (is_stale (Map.lookup job.key w.latest) job.generation ≡ true)
      × (v ≡ w)
  Outcome coalesced w job v =
      (w.shutting_down ≡ false)
      × (is_stale (Map.lookup job.key w.latest) job.generation ≡ false)
      × (Map.lookup job.key v.pending ≡ some job)
      × Holds v job
      × (outstanding_len v ≡ outstanding_len w)
      × Renewed w job v
      × ((k : JobKey)
          → Map.lookup k v.pending ≡ (if k == job.key then some job else Map.lookup k w.pending))
      × (v.active ≡ w.active)
      × ((p : Priority) → lane v p ≡ lane w p)
  Outcome backpressure w job v =
      (w.shutting_down ≡ false)
      × (is_stale (Map.lookup job.key w.latest) job.generation ≡ false)
      × (KeySet.contains job.key w.active ≡ false)
      × (Map.lookup job.key w.pending ≡ none)
      × ((w.outstanding_capacity ≤ outstanding_len w)
          ⊎ (Lane.try_send (lane w job.priority) job ≡ none))
      × (v ≡ w)
  Outcome queued w job v =
      (w.shutting_down ≡ false)
      × (is_stale (Map.lookup job.key w.latest) job.generation ≡ false)
      × (KeySet.contains job.key v.active ≡ true)
      × Holds v job
      × (outstanding_len w < w.outstanding_capacity)
      × Renewed w job v
      × (v.pending ≡ w.pending)
      × ((k : JobKey) → KeySet.contains k v.active ≡ (k == job.key || KeySet.contains k w.active))
      × ((p : Priority) → (lane v p).queue ≡ (lane w p).queue ++ sent p job.priority job)

  queue-sent :
      (w u : WorkerRuntime T O) (job : Job T) (target p : Priority) (l : Lane T)
      → ((q : Priority) → lane u q ≡ lane w q)
      → Lane.try_send (lane w target) job ≡ some l
      → (lane (set_lane u target l) p).queue ≡ (lane w p).queue ++ sent p target job
  unfolding lane set_lane
  queue-sent w u job high high l same e = queue-try_send w.high_lane l job e
  queue-sent w u job low low l same e = queue-try_send w.low_lane l job e
  queue-sent w u job high low l same e = ap (λ x. x.queue) (same low) ∙ sym (append_nil _)
  queue-sent w u job low high l same e = ap (λ x. x.queue) (same high) ∙ sym (append_nil _)

  recorded-lane :
      (w : WorkerRuntime T O) (job : Job T) (p : Priority) → lane (recorded w job) p ≡ lane w p
  unfolding lane
  recorded-lane w job high = refl
  recorded-lane w job low = refl

  coalesced-lane :
      (w : WorkerRuntime T O) (job : Job T) (p : Priority)
      → lane (coalesced_state w job) p ≡ lane w p
  unfolding lane
  coalesced-lane w job high = refl
  coalesced-lane w job low = refl

  queue_new-Outcome :
      (w : WorkerRuntime T O) (job : Job T)
      → w.shutting_down ≡ false
      → is_stale (Map.lookup job.key w.latest) job.generation ≡ false
      → KeySet.contains job.key w.active ≡ false
      → Map.lookup job.key w.pending ≡ none
      → Outcome (queue_new w job).1 w job (queue_new w job).0
  unfolding queue_new
  queue_new-Outcome w job up fresh off absent =
      elim (Bool-cases (leb w.outstanding_capacity (outstanding_len w))) [
        | inl full ↦ rw full (up, fresh, off, absent, inl (ground arith), refl)
        | inr room ↦ elim (Option-cases (Lane.try_send (lane w job.priority) job)) [
          | inl e ↦ rw (room, e, queue_new) (up, fresh, off, absent, inr e, refl)
          | inr (l, e) ↦
              let fs = set_lane-fields (recorded w job) job.priority l in
              let on = KeySet.contains-insert job.key job.key w.active in
              rw (room, e, queue_new)
                (
                  up,
                  fresh,
                  ground (arith, fs.0, on),
                  (
                    ground (arith, fs.2, Map.lookup-insert job.key job.key job.generation w.latest),
                    inl (ground (arith, fs.0, on)),
                  ),
                  ground arith,
                  (λ k.
                      ap (Map.lookup k) fs.2 ∙ Map.lookup-insert k job.key job.generation w.latest),
                  fs.1,
                  (λ k. ap (KeySet.contains k) fs.0 ∙ KeySet.contains-insert k job.key w.active),
                  (λ p. queue-sent w (recorded w job) job job.priority p l (recorded-lane w job) e),
                )
        ]
      ]

  coalesced-Outcome :
      (w : WorkerRuntime T O) (job : Job T)
      → w.shutting_down ≡ false
      → is_stale (Map.lookup job.key w.latest) job.generation ≡ false
      → (KeySet.contains job.key w.active || has_job (Map.lookup job.key w.pending)) ≡ true
      → Outcome coalesced w job (coalesced_state w job)
  coalesced-Outcome w job up fresh there = (
    up,
    fresh,
    ground (arith, Map.lookup-insert job.key job.key job w.pending),
    (
      ground (arith, Map.lookup-insert job.key job.key job.generation w.latest),
      inr (ground (arith, Map.lookup-insert job.key job.key job w.pending)),
    ),
    coalesced-outstanding_len w job there,
    (λ k. Map.lookup-insert k job.key job.generation w.latest),
    (λ k. Map.lookup-insert k job.key job w.pending),
    refl,
    coalesced-lane w job,
  )

  -- For every status of `submit`: shutting_down, given only by a runtime that is shutting down,
  -- and rejected_stale, given only to a job that is not newer than the latest of its key, change
  -- nothing; backpressure changes nothing and is given only to a new key where the runtime is full
  -- or the lane takes no job; queued, given only below the capacity, puts the job last in the queue
  -- of its lane, makes its key active and changes no pending job and no other queue; coalesced makes
  -- the job the pending one of its key, takes no further place, and changes no other pending job, no
  -- active key and no lane. Queued and coalesced make the generation the newest of the key, and
  -- change that of no other key.
  pub submit-Outcome :
      (w : WorkerRuntime T O) (job : Job T) → Outcome (submit w job).1 w job (submit w job).0
  submit-Outcome w job = elim (Bool-cases w.shutting_down) [
    | inl down ↦ subst Shows (sym (submit_down w job down)) (down, refl)
    | inr up ↦ elim (Bool-cases (is_stale (Map.lookup job.key w.latest) job.generation)) [
      | inl stale ↦ subst Shows (sym (submit_stale w job up stale)) (up, stale, refl)
      | inr fresh ↦
          elim (Bool-cases
            (KeySet.contains job.key w.active || has_job (Map.lookup job.key w.pending))) [
              | inl there ↦
                  subst Shows (sym (submit_coalesced w job up fresh there))
                    (coalesced-Outcome w job up fresh there)
              | inr away ↦
                  subst Shows (sym (submit_queued w job up fresh away))
                    (queue_new-Outcome w job up fresh (ground arith) (ground arith))
            ]
    ]
  ]
    where
      Shows : WorkerRuntime T O × SubmitStatus → Type 0
      Shows r = Outcome r.1 w job r.0
