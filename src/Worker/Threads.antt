-- ===== src/Worker/Threads.antt =====
-- `run_lane` of src/worker/mod.rs as events of the two threads, `recv_timeout` over them, and the
-- steps that the owner and the threads take in any order.
use herdr_context.Base.{
  ◌≡◌, true, false, Option, none, some, List, [], ◌∷◌, ◌++◌, length, ltb, if◌then◌else◌,
}
use herdr_context.Base.KeySet
use herdr_context.Worker.Job.{
  Job, JobKey, job_key_eq, Priority, Completion, RawCompletion, CompletedJob,
}
use herdr_context.Worker.Runtime.{
  WorkerRuntime, lane, set_lane, submit, pump_key, accept_completion, pump_pending, try_recv,
  shutdown,
}

-- What a thread does next: block in `recv`, take a job, or end the task with a completion.
pub data ThreadEvent (O : Type 0) : Type 0 where
  wait : Priority → ThreadEvent O
  receive : Priority → ThreadEvent O
  finish : Priority → Completion O → ThreadEvent O

module _ {T O : Type 0} where
  abbrev pub take_job :
      WorkerRuntime T O → Priority → List (Job T) → Option (Job T) → WorkerRuntime T O
  take_job w p (job ∷ rest) none =
      let l = lane w p in
      if w.cancelled
      then set_lane w p (record l { queue = rest; waiting = false })
      else set_lane w p (record l { queue = rest; waiting = false; running = some job })
  take_job w p _ _ = w

  -- What the thread sends when the task of the job has ended.
  abbrev pub answer : Job T → Completion O → RawCompletion O
  answer job completion = record {
    key = job.key;
    generation = job.generation;
    completion = completion;
  }

  abbrev pub send_result :
      WorkerRuntime T O → Priority → Completion O → Option (Job T) → WorkerRuntime T O
  send_result w p completion none = w
  send_result w p completion (some job) =
      if ltb (length w.results) w.result_capacity
      then (let l = lane w p in
          set_lane (record w { results = w.results ++ answer job completion ∷ [] }) p
            (record l { running = none }))
      else w

  abbrev pub block :
      WorkerRuntime T O → Priority → List (Job T) → Option (Job T) → WorkerRuntime T O
  block w p [] none = let l = lane w p in set_lane w p (record l { waiting = true })
  block w p _ _ = w

  -- An event that cannot happen, as a send to a full channel, changes nothing: the thread waits.
  unfoldable pub run_event : ThreadEvent O → WorkerRuntime T O → WorkerRuntime T O
  unfolding lane set_lane
  run_event (wait p) w = block w p (lane w p).queue (lane w p).running
  run_event (receive p) w = take_job w p (lane w p).queue (lane w p).running
  run_event (finish p completion) w = send_result w p completion (lane w p).running

  unfoldable pub run_events : List (ThreadEvent O) → WorkerRuntime T O → WorkerRuntime T O
  unfolding run_event
  run_events [] w = w
  run_events (e ∷ es) w = run_events es (run_event e w)

  abbrev pub first_result :
      WorkerRuntime T O
      → List (RawCompletion O)
      → Option (WorkerRuntime T O × Option (CompletedJob O))
  first_result w [] = none
  first_result w (result ∷ rest) = some (accept_completion (record w { results = rest }) result)

  -- The loop of `try_recv` while the threads run: what they do before each look at the channel, and
  -- nothing more from there on.
  unfoldable pub try_recv_during :
      List (List (ThreadEvent O)) → WorkerRuntime T O → WorkerRuntime T O × Option (CompletedJob O)
  try_recv_during [] w = try_recv w
  try_recv_during (events ∷ rest) w =
      let w' = run_events events w in
      elim (first_result w' w'.results) [
        | none ↦ (pump_pending w', none)
        | some (u, some job) ↦ (u, some job)
        | some (u, none) ↦ try_recv_during rest u
      ]

  -- The loop of `recv_timeout`: what the threads do before each wait ends, until the deadline.
  unfoldable pub recv_wait :
      List (List (ThreadEvent O)) → WorkerRuntime T O → WorkerRuntime T O × Option (CompletedJob O)
  recv_wait [] w = (w, none)
  recv_wait (events ∷ rest) w =
      let w' = run_events events w in
      elim (first_result w' w'.results) [
        | none ↦ (w', none)
        | some (u, some job) ↦ (u, some job)
        | some (u, none) ↦ recv_wait rest u
      ]

  unfoldable pub recv_timeout :
      (looks schedule : List (List (ThreadEvent O)))
      → WorkerRuntime T O
      → WorkerRuntime T O × Option (CompletedJob O)
  unfolding recv_wait
  recv_timeout looks schedule w =
      let (w', delivered) = try_recv_during looks w in
      elim delivered [ some job ↦ (w', some job) | none ↦ recv_wait schedule w' ]

  -- One step of the owner or of a thread.
  pub data Step : WorkerRuntime T O → WorkerRuntime T O → Type 0 where
    submits : (w : WorkerRuntime T O) (job : Job T) → Step w (submit w job).0
    accepts :
        (w : WorkerRuntime T O) (result : RawCompletion O) (rest : List (RawCompletion O))
        → w.results ≡ result ∷ rest
        → Step w (accept_completion (record w { results = rest }) result).0
    pumps :
        (w : WorkerRuntime T O) (key : JobKey)
        → KeySet.contains key w.active ≡ false
        → Step w (pump_key w key)
    runs : (w : WorkerRuntime T O) (e : ThreadEvent O) → Step w (run_event e w)
    shuts_down : (w : WorkerRuntime T O) → Step w (shutdown w)

  pub data Reach (w : WorkerRuntime T O) : WorkerRuntime T O → Type 0 where
    here : Reach w w
    next : {u v : WorkerRuntime T O} → Reach w u → Step u v → Reach w v
