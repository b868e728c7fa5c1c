-- ===== src/Files/Refresh/Gate.antt =====
-- The gate of src/files/refresh.rs: one command at a time, and the newest request is never lost.
use herdr_context.Base.{
  ℕ, zero, suc, ◌+◌, ◌≤◌, ◌<◌, ◌≡◌, true, Option, none, some, arith, u64_max, ◌==◌, nat_eq,
  if◌then◌else◌,
}
use herdr_context.Files.Refresh.{RefreshCoordinator, new, request, start_next, cancel_start, finish}

pub data Call : Type 0 where
  requests starts : Call
  cancels finishes : ℕ → Call

unfoldable pub step : RefreshCoordinator → Call → RefreshCoordinator
unfolding request start_next cancel_start finish
step r requests = (request r).0
step r starts = (start_next r).0
step r (cancels generation) = (cancel_start r generation).0
step r (finishes generation) = (finish r generation).0

abbrev RunsBelow : Option ℕ → ℕ → ℕ → Type 0
RunsBelow none completed requested = Unit
RunsBelow (some g) completed requested = (completed < g) × (g ≤ requested)

-- Nothing is completed that was not requested, and what runs lies between the two.
pub record Inv (r : RefreshCoordinator) : Type 0 where
  pub ordered : r.completed ≤ r.requested
  pub in_u64 : r.requested ≤ u64_max
  pub running_open : RunsBelow r.running r.completed r.requested

new-Inv : Inv new
unfolding new
new-Inv = record { ordered = omega arith; in_u64 = omega arith; running_open = tt }

-- Every call, also one for a generation that is not running, keeps completed ≤ requested ≤ the
-- greatest u64, and a running generation above completed and not above requested.
pub step-Inv : (r : RefreshCoordinator) (c : Call) → Inv r → Inv (step r c)
unfolding step nat_eq
step-Inv r requests h = ground arith
step-Inv r starts h = ground arith
step-Inv r (cancels g) h = ground arith
step-Inv r (finishes g) h = ground arith

unfoldable pub request_times : ℕ → RefreshCoordinator → RefreshCoordinator
unfolding request
request_times zero r = r
request_times (suc n) r = (request (request_times n r)).0

request_times-fields :
    (n : ℕ) (r : RefreshCoordinator)
    → r.requested + n ≤ u64_max
    → ((request_times n r).requested ≡ r.requested + n)
      × ((request_times n r).completed ≡ r.completed)
      × ((request_times n r).running ≡ r.running)
unfolding request_times
request_times-fields zero r h = ground arith
request_times-fields (suc n) r h = ground (arith, request_times-fields n r (omega arith))

-- A command that starts, n requests that arrive while it runs (fewer than the counter holds) and
-- its end: nothing else starts meanwhile, its result is current exactly where n is 0, and
-- otherwise the next start claims the newest of the n requests, skipping those between.
pub coalesces :
    (r : RefreshCoordinator) (g n : ℕ)
    → r.requested + n ≤ u64_max
    → (start_next r).1 ≡ some g
    → let busy = request_times n (start_next r).0 in
      let ended = finish busy g in
      ((start_next busy).1 ≡ none)
      × (ended.1 ≡ (n == 0))
      × ((start_next ended.0).1 ≡ (if n == 0 then none else some (r.requested + n)))
unfolding start_next finish nat_eq
coalesces r g n room started = ground (arith, request_times-fields n (start_next r).0)

-- A claim that is given back can be claimed again: after `cancel_start` of the running generation
-- the gate is as it was before `start_next`.
cancel_start-start_next :
    (r : RefreshCoordinator) (g : ℕ)
    → (start_next r).1 ≡ some g
    → cancel_start (start_next r).0 g ≡ (r, true)
unfolding start_next cancel_start
cancel_start-start_next r g started = ground arith
