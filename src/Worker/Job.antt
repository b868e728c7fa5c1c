-- ===== src/Worker/Job.antt =====
-- The jobs, statuses and completions of src/worker/mod.rs. `T` stands for the closure that a job
-- runs and `O` for the boxed value that it returns.
use herdr_context.Base.{ℕ, Bool, true, false, Eq, string_eq, list_eq}
use herdr_context.Base.Paths.{FilePath}

pub data JobKind : Type 0 where
  config bootstrap filesystem file_search file_search_projection vcs : JobKind
  conversation_discovery conversation_live conversation_launch pane_input process : JobKind

pub record JobKey : Type 0 where
  pub kind : JobKind
  pub root : FilePath

unfoldable pub JobKey-discrete : Discrete JobKey
unfolding string_eq
JobKey-discrete = hlevel string_eq.dec

instance unfoldable pub job_key_eq : Eq JobKey
unfolding JobKey-discrete
job_key_eq = record { dec = JobKey-discrete }

pub data Priority : Type 0 where
  high low : Priority

pub record Job (T : Type 0) : Type 0 where
  pub key : JobKey
  pub generation : ℕ
  pub priority : Priority
  pub task : T

pub data SubmitStatus : Type 0 where
  queued coalesced rejected_stale backpressure shutting_down : SubmitStatus

pub data Completion (O : Type 0) : Type 0 where
  success : O → Completion O
  panicked : Completion O

pub record RawCompletion (O : Type 0) : Type 0 where
  pub key : JobKey
  pub generation : ℕ
  pub completion : Completion O

pub record CompletedJob (O : Type 0) : Type 0 where
  pub key : JobKey
  pub generation : ℕ
  pub completion : Completion O

module _ {O : Type 0} where
  unfoldable pub is_panicked : CompletedJob O → Bool
  is_panicked job = elim job.completion [ success _ ↦ false | panicked ↦ true ]
