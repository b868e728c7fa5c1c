-- ===== src/Files/Refresh.antt =====
-- src/files/refresh.rs: the refresh gate of a workspace. Requests collapse to the newest one.
pub mod Gate
use herdr_context.Base.{
  ℕ, Bool, true, false, ◌||◌, Option, none, some, leb, saturating_add, u64_max, ◌==◌, nat_eq,
  option_eq, if◌then◌else◌,
}

pub record RefreshCoordinator : Type 0 where
  pub requested : ℕ  -- u64
  pub completed : ℕ  -- u64
  pub running : Option ℕ  -- u64

unfoldable pub new : RefreshCoordinator
new = record { requested = 0; completed = 0; running = none }

unfoldable pub request : RefreshCoordinator → RefreshCoordinator × ℕ
request r =
    let newest = saturating_add u64_max r.requested 1 in (record r { requested = newest }, newest)

abbrev pub is_some : Option ℕ → Bool
is_some none = false
is_some (some _) = true

-- Claims the newest generation, only where no command is running.
unfoldable pub start_next : RefreshCoordinator → RefreshCoordinator × Option ℕ
start_next r =
    if is_some r.running || leb r.requested r.completed
    then (r, none)
    else (record r { running = some r.requested }, some r.requested)

-- Releases a claimed generation that could not be queued.
unfoldable pub cancel_start : RefreshCoordinator → ℕ → RefreshCoordinator × Bool
unfolding option_eq nat_eq
cancel_start r generation =
    if r.running == some generation then (record r { running = none }, true) else (r, false)

-- Ends the running command; the flag says whether its result is still current.
unfoldable pub finish : RefreshCoordinator → ℕ → RefreshCoordinator × Bool
unfolding option_eq nat_eq
finish r generation =
    if r.running == some generation
    then (record r { running = none; completed = generation }, generation == r.requested)
    else (r, false)

unfoldable pub is_running : RefreshCoordinator → Bool
is_running r = is_some r.running
