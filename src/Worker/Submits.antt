-- ===== src/Worker/Submits.antt =====
-- The invariant across `submit`.
use herdr_context.Base.{
  ◌<◌, ◌≡◌, refl, true, false, ◌||◌, none, some, arith, leb, inl, inr, subst, sym, Bool-cases,
  Option-cases,
}
use herdr_context.Base.Map
use herdr_context.Base.KeySet
use herdr_context.Worker.Job.{Job, JobKey, job_key_eq, coalesced, rejected_stale, shutting_down}
use herdr_context.Worker.Lane
use herdr_context.Worker.Lane.{Lane}
use herdr_context.Worker.Runtime.{
  WorkerRuntime, lane, set_lane, outstanding_len, is_stale, has_job, recorded, submit, queue_new,
}
use herdr_context.Worker.Load.{load}
use herdr_context.Worker.Slot.{SlotOf, Inv}
use herdr_context.Worker.Sizes.{idle_len-insert_active, idle_len-insert_present, idle_len-activate}
use herdr_context.Worker.Started.{Started, Started-slot, Started-total, set_lane-fields, sent-load}

module _ {T O : Type 0} (w : WorkerRuntime T O) (job : Job T) where
  abbrev pub coalesced_state : WorkerRuntime T O
  coalesced_state = record w {
    latest = Map.insert job.key job.generation w.latest;
    pending = Map.insert job.key job w.pending;
  }

  coalesced-slot :
      Inv w
      → is_stale (Map.lookup job.key w.latest) job.generation ≡ false
      → (k : JobKey) → SlotOf coalesced_state k
  unfolding load is_stale
  coalesced-slot h fresh k = ground (
    arith,
    h.slot k,
    Map.lookup-insert k job.key job w.pending,
    Map.lookup-insert k job.key job.generation w.latest,
  )

  pub coalesced-outstanding_len :
      (KeySet.contains job.key w.active || has_job (Map.lookup job.key w.pending)) ≡ true
      → outstanding_len coalesced_state ≡ outstanding_len w
  unfolding outstanding_len
  coalesced-outstanding_len there = elim (Bool-cases (KeySet.contains job.key w.active)) [
    | inl on ↦ omega (arith, idle_len-insert_active job.key w.active job w.pending on)
    | inr off ↦ elim (Option-cases (Map.lookup job.key w.pending)) [
      | inl e ↦ absurd (ground arith)
      | inr (p, e) ↦ omega (arith, idle_len-insert_present job.key w.active job p w.pending e)
    ]
  ]

  coalesced-Inv :
      Inv w
      → w.shutting_down ≡ false
      → is_stale (Map.lookup job.key w.latest) job.generation ≡ false
      → (KeySet.contains job.key w.active || has_job (Map.lookup job.key w.pending)) ≡ true
      → Inv coalesced_state
  unfolding load
  coalesced-Inv h up fresh there = record {
    slot = coalesced-slot h fresh;
    total = h.total;
    distinct_active = h.distinct_active;
    distinct_pending = Map.insert-IsDistinct job.key job w.pending h.distinct_pending;
    bounded = rw (coalesced-outstanding_len there) h.bounded;
    matched = h.matched;
    stopped_when_cancelled = h.stopped_when_cancelled;
    no_pending = λ c. ground (arith, h.stopped_when_cancelled c);
    no_queue = h.no_queue;
  }

module _ {T O : Type 0} (w : WorkerRuntime T O) (job : Job T) (l : Lane T) where
  sent-Started :
      KeySet.contains job.key w.active ≡ false
      → Map.lookup job.key w.pending ≡ none
      → Lane.try_send (lane w job.priority) job ≡ some l
      → Started w (set_lane (recorded w job) job.priority l) job
  sent-Started off none_pending h = record {
    was_idle = off;
    active = (set_lane-fields (recorded w job) job.priority l).0;
    pending =
        λ k. ground (arith, (set_lane-fields (recorded w job) job.priority l).1, none_pending);
    latest = λ k. ground (
      arith,
      (set_lane-fields (recorded w job) job.priority l).2,
      Map.lookup-insert k job.key job.generation w.latest,
    );
    load = sent-load w job (recorded w job) job.priority l (refl, refl, refl) h;
  }

  sent-Inv :
      Inv w
      → w.shutting_down ≡ false
      → KeySet.contains job.key w.active ≡ false
      → Map.lookup job.key w.pending ≡ none
      → outstanding_len w < w.outstanding_capacity
      → Lane.try_send (lane w job.priority) job ≡ some l
      → Inv (set_lane (recorded w job) job.priority l)
  unfolding outstanding_len
  sent-Inv h up off absent room sends =
      let fs = set_lane-fields (recorded w job) job.priority l in
      let st = sent-Started off absent sends in
      let v = set_lane (recorded w job) job.priority l in
      record {
        slot = Started-slot w v job h st;
        total = Started-total w v job h st;
        distinct_active = rw fs.0 (KeySet.insert-IsDistinct job.key w.active h.distinct_active);
        distinct_pending = rw fs.1 h.distinct_pending;
        bounded = ground (
          arith,
          fs,
          KeySet.length-insert job.key w.active,
          idle_len-activate job.key w.active w.pending absent,
        );
        matched = ground (arith, fs, h.matched);
        stopped_when_cancelled = λ c. ground (arith, fs, h.stopped_when_cancelled);
        no_pending = λ c. ground (arith, fs, h.stopped_when_cancelled);
        no_queue = λ c. absurd (ground (arith, fs, h.stopped_when_cancelled));
      }

module _ {T O : Type 0} where
  queue_new-Inv :
      (w : WorkerRuntime T O) (job : Job T)
      → Inv w
      → w.shutting_down ≡ false
      → KeySet.contains job.key w.active ≡ false
      → Map.lookup job.key w.pending ≡ none
      → Inv (queue_new w job).0
  unfolding queue_new
  queue_new-Inv w job h up off absent =
      elim (Bool-cases (leb w.outstanding_capacity (outstanding_len w))) [
        | inl full ↦ rw full h
        | inr room ↦ elim (Option-cases (Lane.try_send (lane w job.priority) job)) [
          | inl e ↦ rw (room, e, queue_new) h
          | inr (l, e) ↦ rw (room, e, queue_new) (sent-Inv w job l h up off absent (ground arith) e)
        ]
      ]

  pub submit_down :
      (w : WorkerRuntime T O) (job : Job T)
      → w.shutting_down ≡ true
      → submit w job ≡ (w, shutting_down)
  unfolding submit
  submit_down w job down = ground arith

  pub submit_stale :
      (w : WorkerRuntime T O) (job : Job T)
      → w.shutting_down ≡ false
      → is_stale (Map.lookup job.key w.latest) job.generation ≡ true
      → submit w job ≡ (w, rejected_stale)
  unfolding submit
  submit_stale w job up stale = ground arith

  pub submit_coalesced :
      (w : WorkerRuntime T O) (job : Job T)
      → w.shutting_down ≡ false
      → is_stale (Map.lookup job.key w.latest) job.generation ≡ false
      → (KeySet.contains job.key w.active || has_job (Map.lookup job.key w.pending)) ≡ true
      → submit w job ≡ (coalesced_state w job, coalesced)
  unfolding submit
  submit_coalesced w job up fresh there = ground arith

  pub submit_queued :
      (w : WorkerRuntime T O) (job : Job T)
      → w.shutting_down ≡ false
      → is_stale (Map.lookup job.key w.latest) job.generation ≡ false
      → (KeySet.contains job.key w.active || has_job (Map.lookup job.key w.pending)) ≡ false
      → submit w job ≡ queue_new w job
  unfolding submit
  submit_queued w job up fresh away = ground arith

  pub submit-Inv : (w : WorkerRuntime T O) (job : Job T) → Inv w → Inv (submit w job).0
  unfolding submit
  submit-Inv w job h = elim (Bool-cases w.shutting_down) [
    | inl down ↦ simp down h
    | inr up ↦ elim (Bool-cases (is_stale (Map.lookup job.key w.latest) job.generation)) [
      | inl stale ↦ simp (up, stale) h
      | inr fresh ↦
          elim (Bool-cases
            (KeySet.contains job.key w.active || has_job (Map.lookup job.key w.pending))) [
              | inl there ↦
                  subst (λ s. Inv s.0) (sym (submit_coalesced w job up fresh there))
                    (coalesced-Inv w job h up fresh there)
              | inr away ↦
                  subst (λ s. Inv s.0) (sym (submit_queued w job up fresh away))
                    (queue_new-Inv w job h up (ground arith) (ground arith))
            ]
    ]
  ]
