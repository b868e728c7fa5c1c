-- ===== src/Worker/Slot.antt =====
-- The state of one key, and the invariant of the runtime.
use herdr_context.Base.{ℕ, ◌<◌, ◌≤◌, ◌≡◌, Bool, true, false, Option, none, some, [], length}
use herdr_context.Base.Map
use herdr_context.Base.KeySet
use herdr_context.Worker.Job.{Job, JobKey, job_key_eq}
use herdr_context.Worker.Runtime.{WorkerRuntime, outstanding_len}
use herdr_context.Worker.Load.{each, one, age, load}

-- Whether the key is active, how many of its jobs are in flight, their generation, the pending job
-- and the latest generation. An active key has one job in flight. That job is the latest one,
-- unless a newer job is pending; a pending job is the latest one.
abbrev pub Slot : {T : Type 0} → JobKey → Bool → ℕ → ℕ → Option (Job T) → Option ℕ → Type 0
Slot k false n generation none latest = n ≡ 0
Slot k false n generation (some p) latest = (n ≡ 0) × (p.key ≡ k) × (latest ≡ some p.generation)
Slot k true n generation none latest = (n ≡ 1) × (latest ≡ some generation)
Slot k true n generation (some p) latest =
    (n ≡ 1) × (p.key ≡ k) × (latest ≡ some p.generation) × (generation < p.generation)

abbrev pub SlotOf : {T O : Type 0} → WorkerRuntime T O → JobKey → Type 0
SlotOf w k =
    Slot k (KeySet.contains k w.active) (load (one k) w) (load (age k) w) (Map.lookup k w.pending)
      (Map.lookup k w.latest)

pub record Inv {T O : Type 0} (w : WorkerRuntime T O) : Type 0 where
  pub slot : (k : JobKey) → SlotOf w k
  pub total : load each w ≡ length w.active
  pub distinct_active : KeySet.IsDistinct w.active
  pub distinct_pending : Map.IsDistinct w.pending
  pub bounded : outstanding_len w ≤ w.outstanding_capacity
  pub matched : w.result_capacity ≡ w.outstanding_capacity
  pub stopped_when_cancelled : w.cancelled ≡ true → w.shutting_down ≡ true
  pub no_pending : w.cancelled ≡ true → w.pending ≡ []
  pub no_queue : w.cancelled ≡ true → (w.high_lane.queue ≡ []) × (w.low_lane.queue ≡ [])
