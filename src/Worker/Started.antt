-- ===== src/Worker/Started.antt =====
-- A job goes to its lane: what that does to the state of each key and to the load.
use herdr_context.Base.{◌+◌, ◌≡◌, refl, false, none, some, arith, length, ◌==◌, if◌then◌else◌}
use herdr_context.Base.Map
use herdr_context.Base.KeySet
use herdr_context.Worker.Job.{Job, JobKey, job_key_eq, Priority, high, low}
use herdr_context.Worker.Lane
use herdr_context.Worker.Lane.{Lane}
use herdr_context.Worker.Runtime.{WorkerRuntime, lane, set_lane}
use herdr_context.Worker.Load.{Measure, each, one, age, load, lane_load-try_send, load-age}
use herdr_context.Worker.Slot.{SlotOf, Inv}

-- `v` is `w` after `job`, whose key was not active, has gone to its lane.
pub record Started {T O : Type 0} (w v : WorkerRuntime T O) (job : Job T) : Type 0 where
  pub was_idle : KeySet.contains job.key w.active ≡ false
  pub active : v.active ≡ KeySet.insert job.key w.active
  pub pending :
      (k : JobKey)
      → Map.lookup k v.pending ≡ (if k == job.key then none else Map.lookup k w.pending)
  pub latest :
      (k : JobKey)
      → Map.lookup k v.latest
        ≡ (if k == job.key then some job.generation else Map.lookup k w.latest)
  pub load : (f : Measure) → load f v ≡ load f w + f job.key job.generation

pub Started-slot :
    {T O : Type 0} (w v : WorkerRuntime T O) (job : Job T)
    → Inv w
    → Started w v job
    → (k : JobKey) → SlotOf v k
Started-slot w v job h st k = ground (
  arith,
  st.active,
  st.pending k,
  st.latest k,
  st.load (one k),
  st.load (age k),
  h.slot k,
  KeySet.contains-insert k job.key w.active,
  load-age k w,
  st.was_idle,
)

pub Started-total :
    {T O : Type 0} (w v : WorkerRuntime T O) (job : Job T)
    → Inv w
    → Started w v job
    → load each v ≡ length v.active
Started-total w v job h st =
    ground
      (arith, st.load each, h.total, st.active, st.was_idle, KeySet.length-insert job.key w.active)

-- What a write to a lane leaves alone, and what it adds to the load.
pub set_lane-fields :
    {T O : Type 0} (w : WorkerRuntime T O) (p : Priority) (l : Lane T)
    → ((set_lane w p l).active ≡ w.active)
      × ((set_lane w p l).pending ≡ w.pending)
      × ((set_lane w p l).latest ≡ w.latest)
      × ((set_lane w p l).outstanding_capacity ≡ w.outstanding_capacity)
      × ((set_lane w p l).result_capacity ≡ w.result_capacity)
      × ((set_lane w p l).cancelled ≡ w.cancelled)
      × ((set_lane w p l).shutting_down ≡ w.shutting_down)
unfolding set_lane
set_lane-fields w high l = (refl, refl, refl, refl, refl, refl, refl)
set_lane-fields w low l = (refl, refl, refl, refl, refl, refl, refl)

module _ {T O : Type 0} (w : WorkerRuntime T O) (job : Job T) where
  -- `v` takes its lane from `u`, which has the lanes and the results of `w`.
  abbrev pub SameLanes : WorkerRuntime T O → Type 0
  SameLanes u = (u.high_lane ≡ w.high_lane) × (u.low_lane ≡ w.low_lane) × (u.results ≡ w.results)

  pub sent-load :
      (u : WorkerRuntime T O) (p : Priority) (l : Lane T)
      → SameLanes u
      → Lane.try_send (lane w p) job ≡ some l
      → (f : Measure) → load f (set_lane u p l) ≡ load f w + f job.key job.generation
  unfolding load lane set_lane
  sent-load u high l same h f = ground (arith, lane_load-try_send f w.high_lane l job h)
  sent-load u low l same h f = ground (arith, lane_load-try_send f w.low_lane l job h)
