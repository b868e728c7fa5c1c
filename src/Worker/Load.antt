-- ===== src/Worker/Load.antt =====
-- What is in flight: the jobs in the lanes and the results that wait to be received. A measure of
-- a key and a generation adds up over them, and moving a job from queue to thread to result keeps
-- every such sum.
use herdr_context.Base.{
  ℕ, ◌+◌, ◌≡◌, refl, Option, none, some, List, [], ◌∷◌, ◌++◌, arith, ◌==◌, if◌then◌else◌,
}
use herdr_context.Worker.Job.{Job, JobKey, job_key_eq, Priority, high, low, RawCompletion}
use herdr_context.Worker.Lane
use herdr_context.Worker.Lane.{Lane}
use herdr_context.Worker.Runtime.{WorkerRuntime, lane, set_lane}

abbrev pub Measure : Type 0
Measure = JobKey → ℕ → ℕ

-- 1 for each job.
abbrev pub each : Measure
each _ _ = 1

-- 1 for each job of the key.
abbrev pub one : JobKey → Measure
one k j _ = if k == j then 1 else 0

-- The generation of each job of the key.
abbrev pub age : JobKey → Measure
age k j generation = if k == j then generation else 0

module _ {T : Type 0} where
  unfoldable pub queue_load : Measure → List (Job T) → ℕ
  queue_load f [] = 0
  queue_load f (job ∷ jobs) = f job.key job.generation + queue_load f jobs

  unfoldable pub running_load : Measure → Option (Job T) → ℕ
  running_load f none = 0
  running_load f (some job) = f job.key job.generation

  unfoldable pub lane_load : Measure → Lane T → ℕ
  unfolding queue_load running_load
  lane_load f l = running_load f l.running + queue_load f l.queue

  pub queue_load-append :
      (f : Measure) (jobs : List (Job T)) (job : Job T)
      → queue_load f (jobs ++ job ∷ []) ≡ queue_load f jobs + f job.key job.generation
  unfolding queue_load
  queue_load-append f [] job = omega arith
  queue_load-append f (_ ∷ jobs) job = omega (arith, queue_load-append f jobs job)

  -- A send that succeeds adds its job.
  pub lane_load-try_send :
      (f : Measure) (l l' : Lane T) (job : Job T)
      → Lane.try_send l job ≡ some l'
      → lane_load f l' ≡ lane_load f l + f job.key job.generation
  unfolding Lane.try_send lane_load
  lane_load-try_send f l l' job h = ground (arith, queue_load-append f l.queue job)

module _ {O : Type 0} where
  unfoldable pub result_load : Measure → List (RawCompletion O) → ℕ
  result_load f [] = 0
  result_load f (r ∷ rs) = f r.key r.generation + result_load f rs

  pub result_load-append :
      (f : Measure) (rs : List (RawCompletion O)) (r : RawCompletion O)
      → result_load f (rs ++ r ∷ []) ≡ result_load f rs + f r.key r.generation
  unfolding result_load
  result_load-append f [] r = omega arith
  result_load-append f (_ ∷ rs) r = omega (arith, result_load-append f rs r)

module _ {T O : Type 0} where
  unfoldable pub load : Measure → WorkerRuntime T O → ℕ
  load f w = result_load f w.results + lane_load f w.high_lane + lane_load f w.low_lane

  -- A job that its lane takes is in flight once more.
  pub load-try_send :
      (f : Measure) (w : WorkerRuntime T O) (job : Job T) (l : Lane T)
      → Lane.try_send (lane w job.priority) job ≡ some l
      → load f (set_lane w job.priority l) ≡ load f w + f job.key job.generation
  unfolding load lane set_lane
  load-try_send f w job l h = go job.priority h
    where
      go :
          (p : Priority)
          → Lane.try_send (lane w p) job ≡ some l
          → load f (set_lane w p l) ≡ load f w + f job.key job.generation
      go high h = omega (arith, lane_load-try_send f w.high_lane l job h)
      go low h = omega (arith, lane_load-try_send f w.low_lane l job h)

-- Where no job of the key is in flight, the generations of its jobs add up to 0.
module _ {T : Type 0} (k : JobKey) where
  queue-age : (jobs : List (Job T)) → queue_load (one k) jobs ≡ 0 → queue_load (age k) jobs ≡ 0
  unfolding queue_load
  queue-age [] h = refl
  queue-age (job ∷ jobs) h = ground (arith, queue-age jobs)

  lane-age : (l : Lane T) → lane_load (one k) l ≡ 0 → lane_load (age k) l ≡ 0
  unfolding lane_load
  lane-age l h = ground (arith, queue-age l.queue)

module _ {O : Type 0} (k : JobKey) where
  result-age :
      (rs : List (RawCompletion O)) → result_load (one k) rs ≡ 0 → result_load (age k) rs ≡ 0
  unfolding result_load
  result-age [] h = refl
  result-age (r ∷ rs) h = ground (arith, result-age rs)

module _ {T O : Type 0} where
  pub load-age : (k : JobKey) (w : WorkerRuntime T O) → load (one k) w ≡ 0 → load (age k) w ≡ 0
  unfolding load
  load-age k w h = omega (
    arith,
    result-age k w.results (omega arith),
    lane-age k w.high_lane (omega arith),
    lane-age k w.low_lane (omega arith),
  )
