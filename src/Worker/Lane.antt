-- ===== src/Worker/Lane.antt =====
-- `Lane` of src/worker/mod.rs: a bounded channel of jobs and the thread that takes them from it.
use herdr_context.Base.{
  ℕ, Bool, true, false, ◌&&◌, ◌||◌, Option, none, some, List, [], ◌∷◌, ◌++◌, length, ltb,
  if◌then◌else◌,
}
use herdr_context.Worker.Job.{Job}

-- `sender` says whether the sender is still there. `waiting` says that the thread is blocked in
-- `recv`, which a channel of capacity 0 needs for a `try_send` to succeed; `running` is the job
-- that the thread has taken and not yet answered.
pub record Lane (T : Type 0) : Type 0 where
  pub capacity : ℕ
  pub sender : Bool
  pub queue : List (Job T)
  pub waiting : Bool
  pub running : Option (Job T)

module _ {T : Type 0} where
  unfoldable pub spawn : ℕ → Lane T
  spawn capacity = record {
    capacity = capacity;
    sender = true;
    queue = [];
    waiting = false;
    running = none;
  }

  abbrev is_empty : List (Job T) → Bool
  is_empty [] = true
  is_empty (_ ∷ _) = false

  -- Room in the channel: a free slot, or a receiver to hand the job to.
  unfoldable pub has_room : Lane T → Bool
  has_room l = ltb (length l.queue) l.capacity || (l.waiting && is_empty l.queue)

  -- `none` is the error that gives the job back.
  unfoldable pub try_send : Lane T → Job T → Option (Lane T)
  unfolding has_room
  try_send l job =
      if l.sender && has_room l then some (record l { queue = l.queue ++ job ∷ [] }) else none

  -- The thread is joined: it skips what is queued and ends.
  unfoldable pub stop : Lane T → Lane T
  stop l = record l { sender = false; queue = []; waiting = false; running = none }
