-- ===== src/Worker/Pumps.antt =====
-- The invariant across `pump_key`, `pump_pending` and the release of a result.
use herdr_context.Base.{◌≡◌, refl, false, some, arith, inl, inr, Option-cases}
use herdr_context.Base.Map
use herdr_context.Base.KeySet
use herdr_context.Worker.Job.{Job, JobKey, job_key_eq}
use herdr_context.Worker.Lane
use herdr_context.Worker.Lane.{Lane}
use herdr_context.Worker.Runtime.{WorkerRuntime, lane, set_lane, outstanding_len, pump_key}
use herdr_context.Worker.Load.{load}
use herdr_context.Worker.Slot.{Inv}
use herdr_context.Worker.Sizes.{idle_len-insert_absent, idle_len-remove, idle_len-activate}
use herdr_context.Worker.Started.{Started, Started-slot, Started-total, set_lane-fields, sent-load}

-- A job waits only while the runtime is up.
pending_while_up :
    {T O : Type 0} (w : WorkerRuntime T O) (key : JobKey) (job : Job T)
    → Inv w
    → Map.lookup key w.pending ≡ some job
    → w.cancelled ≡ false
unfolding Map.lookup
pending_while_up w key job h found = ground (arith, h.no_pending)

module _ {T O : Type 0} (w : WorkerRuntime T O) (key : JobKey) (job : Job T) (l : Lane T) where
  -- `pump_key` before it writes the lane that has taken the pending job.
  abbrev taken : WorkerRuntime T O
  taken = record w { pending = Map.remove key w.pending; active = KeySet.insert key w.active }

  pumped-Started :
      Inv w
      → KeySet.contains key w.active ≡ false
      → Map.lookup key w.pending ≡ some job
      → Lane.try_send (lane w job.priority) job ≡ some l
      → Started w (set_lane taken job.priority l) job
  pumped-Started h off found sends =
      let fs = set_lane-fields taken job.priority l in
      let same : job.key ≡ key = ground (arith, h.slot key) in
      record {
        was_idle = rw same off;
        active = rw same fs.0;
        pending = λ k. ground (arith, fs.1, same, Map.lookup-remove k key w.pending);
        latest = λ k. ground (arith, fs.2, same, h.slot key);
        load = sent-load w job taken job.priority l (refl, refl, refl) sends;
      }

  pumped-Inv :
      Inv w
      → KeySet.contains key w.active ≡ false
      → Map.lookup key w.pending ≡ some job
      → Lane.try_send (lane w job.priority) job ≡ some l
      → Inv (set_lane taken job.priority l)
  unfolding outstanding_len
  pumped-Inv h off found sends =
      let fs = set_lane-fields taken job.priority l in
      let st = pumped-Started h off found sends in
      let v = set_lane taken job.priority l in
      record {
        slot = Started-slot w v job h st;
        total = Started-total w v job h st;
        distinct_active = rw fs.0 (KeySet.insert-IsDistinct key w.active h.distinct_active);
        distinct_pending = rw fs.1 (Map.remove-IsDistinct key w.pending h.distinct_pending);
        bounded = ground (
          arith,
          fs,
          h.bounded,
          KeySet.length-insert key w.active,
          idle_len-remove key w.active job w.pending h.distinct_pending found off,
          Map.lookup-remove key key w.pending,
          idle_len-activate key w.active (Map.remove key w.pending),
        );
        matched = ground (arith, fs, h.matched);
        stopped_when_cancelled = λ c. ground (arith, fs, h.stopped_when_cancelled);
        no_pending = λ c. absurd (ground (arith, fs, pending_while_up w key job h found));
        no_queue = λ c. absurd (ground (arith, fs, pending_while_up w key job h found));
      }

module _ {T O : Type 0} where
  -- A full lane gives the job back, and `pending` holds it again.
  returned-Inv :
      (w : WorkerRuntime T O) (key : JobKey) (job : Job T)
      → Inv w
      → KeySet.contains key w.active ≡ false
      → Map.lookup key w.pending ≡ some job
      → Inv (record w { pending = Map.insert key job (Map.remove key w.pending) })
  unfolding outstanding_len load
  returned-Inv w key job h off found = record {
    slot = λ k. ground (
      arith,
      h.slot k,
      found,
      Map.lookup-insert k key job (Map.remove key w.pending),
      Map.lookup-remove k key w.pending,
    );
    total = h.total;
    distinct_active = h.distinct_active;
    distinct_pending =
        Map.insert-IsDistinct key job (Map.remove key w.pending)
          (Map.remove-IsDistinct key w.pending h.distinct_pending);
    bounded = ground (
      arith,
      h.bounded,
      idle_len-remove key w.active job w.pending h.distinct_pending found off,
      Map.lookup-remove key key w.pending,
      idle_len-insert_absent key w.active job (Map.remove key w.pending),
    );
    matched = h.matched;
    stopped_when_cancelled = h.stopped_when_cancelled;
    no_pending = λ c. absurd (ground (arith, pending_while_up w key job h found));
    no_queue = h.no_queue;
  }

  pub pump_key-Inv :
      (w : WorkerRuntime T O) (key : JobKey)
      → Inv w
      → KeySet.contains key w.active ≡ false
      → Inv (pump_key w key)
  unfolding pump_key
  pump_key-Inv w key h off = elim (Option-cases (Map.lookup key w.pending)) [
    | inl e ↦ rw (e, pump_key) h
    | inr (job, e) ↦ elim (Option-cases (Lane.try_send (lane w job.priority) job)) [
      | inl full ↦ rw (e, full, pump_key) (returned-Inv w key job h off e)
      | inr (l, sends) ↦ rw (e, sends, pump_key) (pumped-Inv w key job l h off e sends)
    ]
  ]
