-- ===== src/Tests/Items.antt =====
-- A view whose items are replaced, and whose errors are set.
use herdr_context.Base.{◌≡◌, refl, Bool, true, some, List, [], ◌∷◌, any, ◌==◌, string_eq}
use herdr_context.Base.KeySet
use herdr_context.Conversations.{Conversation}
use herdr_context.Model.State.{ConversationsViewState, VisibleError, quiet}
use herdr_context.Model.Replace.{replace_items, set_live_error}
use herdr_context.Model.Replace.Consistency.{IsConsistent, replace_items-IsConsistent}
use herdr_context.Model.Replace.Errors.{Shown, set_live_error-Shown}
use herdr_context.Tests.Rows.{talk, view, ref}

-- The selected session is gone from the new items.
abbrev selecting_a : ConversationsViewState
selecting_a = record view { selection = some (ref "a") }

abbrev new_items : List Conversation
new_items = talk "pi" "b" ∷ talk "omp" "d" ∷ []

replace_items-IsConsistent_example :
    ((replace_items selecting_a new_items 2).1 ≡ true)
    × ((replace_items selecting_a new_items 2).0.items ≡ new_items)
    × ((replace_items selecting_a new_items 2).0.applied_generation ≡ 2)
    × (KeySet.contains "pi" (replace_items selecting_a new_items 2).0.providers
        ≡ any (λ c. "pi" == c.tool) new_items)
    × IsConsistent (replace_items selecting_a new_items 2).0
replace_items-IsConsistent_example = replace_items-IsConsistent selecting_a new_items 2 "pi"

abbrev with_errors : ConversationsViewState
with_errors = record view {
  source_errors = (record { severity = quiet; message = "busy" }) ∷ [];
  launch_error = some "no host";
}

abbrev is_busy : VisibleError → Bool
is_busy e = e.message == "busy"

set_live_error-Shown_example :
    (any is_busy (set_live_error with_errors (some "down")).visible_errors ≡ true)
    × Shown (some "down") (set_live_error with_errors (some "down")).visible_errors
    × Shown (some "no host") (set_live_error with_errors (some "down")).visible_errors
unfolding string_eq
set_live_error-Shown_example = set_live_error-Shown with_errors (some "down") is_busy refl
