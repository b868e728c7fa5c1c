-- ===== src/Tests/Gates.antt =====
-- The refresh gate at concrete inputs.
use herdr_context.Base.{◌≡◌, refl, false, none, some, arith, nat_eq}
use herdr_context.Files.Refresh.{RefreshCoordinator, start_next, finish}
use herdr_context.Files.Refresh.Gate.{starts, step, Inv, step-Inv, request_times, coalesces}

-- One request is open, and nothing runs.
abbrev open_gate : RefreshCoordinator
open_gate = record { requested = 1; completed = 0; running = none }

step-Inv_example : Inv (step open_gate starts)
step-Inv_example =
    step-Inv open_gate starts
      (record { ordered = omega arith; in_u64 = omega arith; running_open = tt })

coalesces_example :
    let busy = request_times 2 (start_next open_gate).0 in
    let ended = finish busy 1 in
    ((start_next busy).1 ≡ none) × (ended.1 ≡ false) × ((start_next ended.0).1 ≡ some 3)
unfolding start_next nat_eq
coalesces_example = coalesces open_gate 1 2 (omega arith) refl
