-- ===== src/Worker/Runtime.antt =====
-- `WorkerRuntime` of src/worker/mod.rs, with the two lane threads as events.
use herdr_context.Base.{
  ℕ, ◌+◌, max, Bool, true, false, ◌||◌, Option, none, some, List, [], ◌∷◌, map, length, ltb, leb,
  saturating_add, u64_max, ◌==◌, nat_eq, option_eq, if◌then◌else◌,
}
use herdr_context.Base.Map
use herdr_context.Base.Map.{Map}
use herdr_context.Base.KeySet
use herdr_context.Worker.Job.{
  Job, JobKey, job_key_eq, Priority, high, low, SubmitStatus, queued, coalesced, rejected_stale,
  backpressure, RawCompletion, CompletedJob,
}
use herdr_context.Worker.Lane
use herdr_context.Worker.Lane.{Lane}

pub record WorkerRuntime (T O : Type 0) : Type 0 where
  pub high_lane : Lane T
  pub low_lane : Lane T
  pub results : List (RawCompletion O)
  pub result_capacity : ℕ
  pub cancelled : Bool
  pub active : List JobKey
  pub latest : Map JobKey ℕ
  pub pending : Map JobKey (Job T)
  pub outstanding_capacity : ℕ
  pub shutting_down : Bool

-- `usize` has 64 bits.
unfoldable pub result_capacity_for : ℕ → ℕ → ℕ
result_capacity_for high_capacity low_capacity =
    max (saturating_add u64_max (saturating_add u64_max high_capacity low_capacity) 2) 2

module _ {T : Type 0} where
  abbrev pub has_job : Option (Job T) → Bool
  has_job none = false
  has_job (some _) = true

  -- The number of keys of `pending` that are not active.
  unfoldable pub idle_len : Map JobKey (Job T) → List JobKey → ℕ
  idle_len [] active = 0
  idle_len ((k, _) ∷ m) active = (if KeySet.contains k active then 0 else 1) + idle_len m active

unfoldable pub is_stale : Option ℕ → ℕ → Bool
is_stale none generation = false
is_stale (some latest) generation = leb generation latest

module _ {T O : Type 0} where
  unfoldable pub with_capacities : ℕ → ℕ → WorkerRuntime T O
  unfolding Lane.spawn result_capacity_for
  with_capacities high_capacity low_capacity = record {
    high_lane = Lane.spawn high_capacity;
    low_lane = Lane.spawn low_capacity;
    results = [];
    result_capacity = result_capacity_for high_capacity low_capacity;
    cancelled = false;
    active = [];
    latest = [];
    pending = [];
    outstanding_capacity = result_capacity_for high_capacity low_capacity;
    shutting_down = false;
  }

  unfoldable pub new : WorkerRuntime T O
  unfolding with_capacities
  new = with_capacities 8 4

  unfoldable pub lane : WorkerRuntime T O → Priority → Lane T
  lane w high = w.high_lane
  lane w low = w.low_lane

  unfoldable pub set_lane : WorkerRuntime T O → Priority → Lane T → WorkerRuntime T O
  set_lane w high l = record w { high_lane = l }
  set_lane w low l = record w { low_lane = l }

  unfoldable pub outstanding_len : WorkerRuntime T O → ℕ
  outstanding_len w = length w.active + idle_len w.pending w.active

  -- `queue_new` once its lane has taken the job: the key is active with the job's generation.
  abbrev pub recorded : WorkerRuntime T O → Job T → WorkerRuntime T O
  recorded w job = record w {
    latest = Map.insert job.key job.generation w.latest;
    active = KeySet.insert job.key w.active;
  }

  unfoldable pub queue_new : WorkerRuntime T O → Job T → WorkerRuntime T O × SubmitStatus
  unfolding outstanding_len set_lane
  queue_new w job =
      if leb w.outstanding_capacity (outstanding_len w)
      then (w, backpressure)
      else elim (Lane.try_send (lane w job.priority) job) [
        | none ↦ (w, backpressure)
        | some l ↦ (set_lane (recorded w job) job.priority l, queued)
      ]

  unfoldable pub submit : WorkerRuntime T O → Job T → WorkerRuntime T O × SubmitStatus
  unfolding is_stale
  submit w job =
      if w.shutting_down
      then (w, SubmitStatus.shutting_down)
      else if is_stale (Map.lookup job.key w.latest) job.generation
      then (w, rejected_stale)
      else if KeySet.contains job.key w.active || has_job (Map.lookup job.key w.pending)
      then (
        record w {
          latest = Map.insert job.key job.generation w.latest;
          pending = Map.insert job.key job w.pending;
        },
        coalesced,
      )
      else queue_new w job

  unfoldable pub has_pending_work : WorkerRuntime T O → Bool
  has_pending_work w = ltb 0 (length w.active) || ltb 0 (length w.pending)

  -- A pending job goes to its lane, or back to `pending` where the lane is full.
  unfoldable pub pump_key : WorkerRuntime T O → JobKey → WorkerRuntime T O
  unfolding set_lane
  pump_key w key = elim (Map.lookup key w.pending) [
    | none ↦ w
    | some job ↦
        let rest = Map.remove key w.pending in
        elim (Lane.try_send (lane w job.priority) job) [
          | some l ↦
              set_lane (record w { pending = rest; active = KeySet.insert key w.active })
                job.priority l
          | none ↦ record w { pending = Map.insert key job rest }
        ]
  ]

  -- The order in which the map gives its keys is any.
  unfoldable pub pump_keys : List JobKey → WorkerRuntime T O → WorkerRuntime T O
  pump_keys [] w = w
  pump_keys (key ∷ keys) w =
      pump_keys keys (if KeySet.contains key w.active then w else pump_key w key)

  unfoldable pub pump_pending : WorkerRuntime T O → WorkerRuntime T O
  unfolding pump_keys
  pump_pending w = pump_keys (map (λ (k, _). k) w.pending) w

  unfoldable pub accept_completion :
      WorkerRuntime T O → RawCompletion O → WorkerRuntime T O × Option (CompletedJob O)
  unfolding pump_key
  accept_completion w result =
      let w' = pump_key (record w { active = KeySet.remove result.key w.active }) result.key in
      (
        w',
        if Map.lookup result.key w'.latest == some result.generation
            then some (record {
              key = result.key;
              generation = result.generation;
              completion = result.completion;
            })
            else none,
      )

  -- The loop of `try_recv` over the results that have arrived, where the threads send none meanwhile.
  unfoldable pub recv_loop :
      List (RawCompletion O) → WorkerRuntime T O → WorkerRuntime T O × Option (CompletedJob O)
  recv_loop [] w = (pump_pending (record w { results = [] }), none)
  recv_loop (result ∷ rest) w =
      let (w', delivered) = accept_completion (record w { results = rest }) result in
      elim delivered [ some job ↦ (w', some job) | none ↦ recv_loop rest w' ]

  unfoldable pub try_recv : WorkerRuntime T O → WorkerRuntime T O × Option (CompletedJob O)
  unfolding recv_loop
  try_recv w = recv_loop w.results w

  unfoldable pub shutdown : WorkerRuntime T O → WorkerRuntime T O
  unfolding Lane.stop
  shutdown w = if w.shutting_down then w else record w {
    shutting_down = true;
    cancelled = true;
    pending = [];
    high_lane = Lane.stop w.high_lane;
    low_lane = Lane.stop w.low_lane;
    results = [];
    active = [];
    latest = [];
  }
