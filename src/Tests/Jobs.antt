-- ===== src/Tests/Jobs.antt =====
-- A runtime with one place in each lane, and the jobs of one key.
use herdr_context.Base.{
  ◌++◌, ℕ, ◌<◌, refl, List, [], ◌∷◌, length, String-discrete, string_eq, list_eq, option_eq, nat_eq,
}
use herdr_context.Base.Map
use herdr_context.Base.KeySet
use herdr_context.Worker.Job.{Job, JobKey, job_key_eq, vcs, high, RawCompletion, success}
use herdr_context.Worker.Runtime.{
  WorkerRuntime, lane, with_capacities, submit, queue_new, accept_completion, shutdown, idle_len,
  is_stale,
}
use herdr_context.Worker.Lane
use herdr_context.Worker.Threads.{
  ThreadEvent, receive, finish, run_event, recv_timeout, submits, runs, Reach, here, next,
}
use herdr_context.Worker.Slot.{Inv}
use herdr_context.Worker.Steps.{Step-Inv, with_capacities-Inv}
use herdr_context.Worker.Delivery.{LatestWins, latest_wins, send_never_blocks}
use herdr_context.Worker.Submission.{Outcome, submit-Outcome}
use herdr_context.Worker.History.{IsDown, AtLeast, latest_never_falls, shutdown_is_final}
use herdr_context.Worker.Waiting.{Trace, given, Ended, recv_timeout-Trace}

abbrev Task : Type 0
Task = Unit

abbrev Runtime : Type 0
Runtime = WorkerRuntime Task ℕ

abbrev key : JobKey
key = record { kind = vcs; root = "/" ∷ "project" ∷ [] }

abbrev job : ℕ → Job Task
job generation = record { key = key; generation = generation; priority = high; task = tt }

abbrev empty : Runtime
empty = with_capacities 1 1

-- The first job runs.
busy : Runtime
unfolding run_event submit queue_new with_capacities lane Lane.try_send Map.lookup Map.insert
    KeySet.contains KeySet.insert idle_len is_stale job_key_eq String-discrete
busy = run_event (receive high) (submit empty (job 1)).0

-- A newer job is pending, and the first one is done.
answered : Runtime
unfolding busy
answered = run_event (finish high (success 7)) (submit busy (job 2)).0

busy_reached : Reach empty busy
unfolding busy
busy_reached = next (next here (submits empty (job 1))) (runs _ (receive high))

answered_reached : Reach empty answered
unfolding answered
answered_reached =
    next (next busy_reached (submits busy (job 2))) (runs _ (finish high (success 7)))

send_never_blocks_example : length busy.results < busy.result_capacity
unfolding busy
send_never_blocks_example = send_never_blocks 1 1 high {job = job 1} busy_reached refl

abbrev first_result : RawCompletion ℕ
first_result = record { key = key; generation = 1; completion = success 7 }

-- The result of the first job is dropped: a newer one is pending.
latest_wins_example :
    let after = accept_completion (record answered { results = [] }) first_result in
    LatestWins answered first_result after.0 after.1
unfolding answered
latest_wins_example = latest_wins 1 1 first_result [] answered_reached refl

submit-Outcome_example : Outcome (submit busy (job 1)).1 busy (job 1) (submit busy (job 1)).0
submit-Outcome_example = submit-Outcome busy (job 1)

Step-Inv_example : Inv (submit empty (job 1)).0
Step-Inv_example = Step-Inv (submits empty (job 1)) (with_capacities-Inv 1 1)

latest_never_falls_example : AtLeast key 1 (submit busy (job 2)).0
unfolding busy
latest_never_falls_example = latest_never_falls key 1 (submits busy (job 2)) refl refl

shutdown_is_final_example : IsDown (submit (shutdown busy) (job 2)).0
unfolding busy
shutdown_is_final_example = shutdown_is_final busy _ refl (next here (submits _ (job 2)))

abbrev ending : List (List (ThreadEvent ℕ))
ending = (finish high (success 7) ∷ []) ∷ []

recv_timeout-Trace_example :
    let (v, delivered) = recv_timeout [] ending busy in
    (before es : List (ThreadEvent ℕ)) × Trace busy (before ++ es) (given delivered) v
    × Ended ending es v delivered
recv_timeout-Trace_example = recv_timeout-Trace [] ending busy
