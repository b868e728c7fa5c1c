-- ===== src/Worker/Events.antt =====
-- What an event of a lane thread leaves alone.
use herdr_context.Base.{◌≡◌, refl, true, Option, none, some, [], arith}
use herdr_context.Worker.Job.{Job, job_key_eq, Priority, high, low, Completion}
use herdr_context.Worker.Runtime.{WorkerRuntime, lane, set_lane}
use herdr_context.Worker.Threads.{
  ThreadEvent, wait, receive, finish, answer, send_result, run_event,
}
use herdr_context.Worker.Load.{Measure, load, result_load, lane_load, result_load-append}

module _ {T O : Type 0} where
  send_result-load :
      (w : WorkerRuntime T O) (p : Priority) (c : Completion O) (o : Option (Job T)) (f : Measure)
      → (lane w p).running ≡ o
      → load f (send_result w p c o) ≡ load f w
  unfolding load lane_load result_load lane set_lane
  send_result-load w p c none f e = refl
  send_result-load w high c (some job) f e =
      ground (arith, result_load-append f w.results (answer job c))
  send_result-load w low c (some job) f e =
      ground (arith, result_load-append f w.results (answer job c))

  -- A thread drops a job only after a shutdown, when none is queued: an event keeps every load.
  pub run_event-load :
      (e : ThreadEvent O) (w : WorkerRuntime T O) (f : Measure)
      → (w.cancelled ≡ true → (w.high_lane.queue ≡ []) × (w.low_lane.queue ≡ []))
      → load f (run_event e w) ≡ load f w
  unfolding run_event load lane_load result_load
  run_event-load (wait high) w f up = ground arith
  run_event-load (wait low) w f up = ground arith
  run_event-load (receive high) w f up = ground arith
  run_event-load (receive low) w f up = ground arith
  run_event-load (finish p c) w f up = send_result-load w p c (lane w p).running f refl

  pub run_event-fields :
      (e : ThreadEvent O) (w : WorkerRuntime T O)
      → ((run_event e w).active ≡ w.active)
        × ((run_event e w).pending ≡ w.pending)
        × ((run_event e w).latest ≡ w.latest)
        × ((run_event e w).outstanding_capacity ≡ w.outstanding_capacity)
        × ((run_event e w).result_capacity ≡ w.result_capacity)
        × ((run_event e w).cancelled ≡ w.cancelled)
        × ((run_event e w).shutting_down ≡ w.shutting_down)
  unfolding run_event
  run_event-fields (wait high) w = ground arith
  run_event-fields (wait low) w = ground arith
  run_event-fields (receive high) w = ground arith
  run_event-fields (receive low) w = ground arith
  run_event-fields (finish high c) w = ground arith
  run_event-fields (finish low c) w = ground arith

  pub run_event-queue :
      (e : ThreadEvent O) (w : WorkerRuntime T O)
      → w.high_lane.queue ≡ []
      → w.low_lane.queue ≡ []
      → ((run_event e w).high_lane.queue ≡ []) × ((run_event e w).low_lane.queue ≡ [])
  unfolding run_event
  run_event-queue (wait high) w a b = ground arith
  run_event-queue (wait low) w a b = ground arith
  run_event-queue (receive high) w a b = ground arith
  run_event-queue (receive low) w a b = ground arith
  run_event-queue (finish high c) w a b = ground arith
  run_event-queue (finish low c) w a b = ground arith
