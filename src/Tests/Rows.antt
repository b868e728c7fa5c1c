-- ===== src/Tests/Rows.antt =====
-- A view of two providers with three sessions, one provider collapsed.
use herdr_context.Base.{
  ℕ, ◌<◌, ◌≡◌, refl, String, false, none, some, List, [], ◌∷◌, arith, get_elem?, String-discrete,
  string_eq, option_eq, nat_eq, ltb, if◌then◌else◌,
}
use herdr_context.Base.KeySet
use herdr_context.Conversations.{
  Conversation, SessionReference, session_reference_eq, live, unsupported, external_local,
}
use herdr_context.Intent.{forward}
use herdr_context.Model.State.{
  ConversationsViewState, ready, RowTarget, provider, session, provider_is_visible, shown_sessions,
  conversation_matches_filter, provider_is_collapsed, provider_matches_filter,
}
use herdr_context.Model.Rows.{target_at_row, selected_row, visible_row_count}
use herdr_context.Model.RowList.{
  rows_of, rows_from, rows, visible_row_count-rows, target_at_row-rows,
}
use herdr_context.Model.SelectedRow.{selected_place, selected_row-position}
use herdr_context.Model.Select.{select_row, move_row_selection}
use herdr_context.Model.Moved.{row_target_eq, HasRows}
use herdr_context.Model.Viewport.{IsShown, select_row-IsShown, IsTarget, move_row_selection-IsShown}

abbrev pub talk : String → String → Conversation
talk tool id = record {
  tool = tool;
  session_reference = record { namespace = tool; id = id };
  project_identity = "/" ∷ "project" ∷ [];
  title = some id;
  created_at = none;
  archived_at = none;
  updated_at = 0;
  state = live;
  provenance = (record { source_id = tool; kind = external_local; path = none }) ∷ [];
  resume = unsupported;
}

-- The texts of this view have no capitals.
abbrev lower : String → String
lower text = text

abbrev pub view : ConversationsViewState
view = record {
  items = talk "omp" "a" ∷ talk "pi" "b" ∷ talk "omp" "c" ∷ [];
  providers = "omp" ∷ "pi" ∷ [];
  collapsed_providers = "pi" ∷ [];
  selected_provider = some "omp";
  selection = none;
  scroll = 0;
  filter = "";
  loading = ready;
  source_errors = [];
  live_error = none;
  launch_error = none;
  visible_errors = [];
  live_loading = false;
  requested_generation = 0;
  applied_generation = 0;
  live_requested_generation = 0;
  live_applied_generation = 0;
}

abbrev pub ref : String → SessionReference
ref id = record { namespace = "omp"; id = id }

abbrev four_rows : List RowTarget
four_rows = provider "omp" ∷ session "omp" (ref "a") ∷ session "omp" (ref "c") ∷ provider "pi" ∷ []

view-rows : rows lower view ≡ four_rows
unfolding rows_from rows_of provider_is_visible provider_is_collapsed shown_sessions
    provider_matches_filter conversation_matches_filter KeySet.contains String-discrete string_eq
view-rows = refl

view-HasRows : HasRows lower view
unfolding row_target_eq KeySet.contains String-discrete string_eq session_reference_eq
view-HasRows = record {
  numbered = rw view-rows (omega arith);
  distinct = rw view-rows (refl, (refl, (refl, (refl, tt))));
}

target_at_row-rows_example : target_at_row lower view 2 ≡ get_elem? (rows lower view) 2
target_at_row-rows_example = target_at_row-rows lower view 2 view-HasRows.numbered

selected_row-position_example : selected_row lower view ≡ selected_place lower view (some "omp")
selected_row-position_example = selected_row-position lower view view-HasRows.numbered

select_row-IsShown_example :
    if ltb 2 (visible_row_count lower view)
    then IsShown lower view (select_row lower view 2 1).0 1 2
    else (select_row lower view 2 1 ≡ (view, false))
select_row-IsShown_example = select_row-IsShown lower view 2 1 view-HasRows (omega arith)

some_rows : 0 < visible_row_count lower view
some_rows = rw (visible_row_count-rows lower view, view-rows) (omega arith)

move_row_selection-IsShown_example :
    (row : ℕ) × (row < visible_row_count lower view)
    × IsTarget (visible_row_count lower view) (selected_row lower view) (forward 1) row
    × IsShown lower view (move_row_selection lower view (forward 1) 2).0 2 row
move_row_selection-IsShown_example =
    move_row_selection-IsShown lower view (forward 1) 2 view-HasRows (omega arith) some_rows
