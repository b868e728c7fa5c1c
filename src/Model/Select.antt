-- ===== src/Model/Select.antt =====
-- The operations of `ConversationsViewState` in src/model.rs that move the selection, collapse a
-- provider or scroll, with the flag that each returns. Row numbers and heights are usize or u16.
use herdr_context.Base.{
  ℕ, ◌-◌, min, String, Bool, true, false, not, ◌&&◌, ◌||◌, Option, none, some, List, [], ◌∷◌, ltb,
  leb, saturating_add, u64_max, u16_max, ◌==◌, nat_eq, string_eq, option_eq, if◌then◌else◌,
}
use herdr_context.Base.KeySet
use herdr_context.Conversations.{SessionReference, session_reference_eq}
use herdr_context.Intent.{
  Intent, PointerAction, select, toggle, Delta, back, forward, select_previous, select_next,
  select_first, select_last, expand_or_descend, collapse_or_ascend, toggle_selected, pointer,
}
use herdr_context.Model.Geometry.{Rect}
use herdr_context.Model.State.{ConversationsViewState, RowTarget, provider, session, VisibleError}
use herdr_context.Model.Rows.{no_selection, visible_row_count, target_at_row, selected_row}

abbrev pub row_provider : RowTarget → String
row_provider (provider p) = p
row_provider (session p _) = p

abbrev pub row_session : RowTarget → Option SessionReference
row_session (provider _) = none
row_session (session _ reference) = some reference

abbrev is_provider_row : Option RowTarget → Bool
is_provider_row (some (provider _)) = true
is_provider_row _ = false

abbrev is_toggle : PointerAction → Bool
is_toggle toggle = true
is_toggle select = false

-- Whether the list of errors has one.
abbrev any_errors : List VisibleError → Bool
any_errors [] = false
any_errors (_ ∷ _) = true

-- The scroll that shows `row` in a viewport, over `count` rows.
unfoldable pub scroll_to : (scroll viewport_height count : ℕ) → Option ℕ → ℕ
scroll_to scroll viewport_height count none = 0
scroll_to scroll viewport_height count (some row) =
    let moved =
      if ltb row scroll
      then row
      else if not (viewport_height == 0) && leb (saturating_add u64_max scroll viewport_height) row
      then saturating_add u64_max row 1 - viewport_height
      else scroll in
    min moved (count - viewport_height)

-- The row after a step of the selection.
unfoldable pub step_row : (count : ℕ) → Option ℕ → Delta → ℕ
step_row count none (back _) = count - 1
step_row count none (forward _) = 0
step_row count (some current) (back n) = current - n
step_row count (some current) (forward n) = min (saturating_add u64_max current n) (count - 1)

module _ (to_lowercase : String → String) where
  unfoldable pub ensure_selected_row_visible : ConversationsViewState → ℕ → ConversationsViewState
  unfolding scroll_to
  ensure_selected_row_visible s viewport_height = record s {
    scroll =
        scroll_to s.scroll viewport_height (visible_row_count to_lowercase s)
          (selected_row to_lowercase s);
  }

  -- The state with the row selected, before the viewport follows.
  abbrev pub selecting : ConversationsViewState → RowTarget → ConversationsViewState
  selecting s target = record s {
    selected_provider = some (row_provider target);
    selection = row_session target;
  }

  unfoldable pub select_row : ConversationsViewState → ℕ → ℕ → ConversationsViewState × Bool
  select_row s row viewport_height = elim (target_at_row to_lowercase s row) [
    | none ↦ (s, false)
    | some target ↦ (
      ensure_selected_row_visible (selecting s target) viewport_height,
      not (s.selected_provider == some (row_provider target))
          || not (s.selection == row_session target),
    )
  ]

  unfoldable pub move_row_selection :
      ConversationsViewState → Delta → ℕ → ConversationsViewState × Bool
  unfolding step_row
  move_row_selection s delta viewport_height =
      let count = visible_row_count to_lowercase s in
      if count == 0
      then (s, false)
      else select_row s (step_row count (selected_row to_lowercase s) delta) viewport_height

  unfoldable pub set_selected_provider_collapsed :
      ConversationsViewState → Bool → ℕ → ConversationsViewState × Bool
  set_selected_provider_collapsed s collapsed viewport_height = elim s.selected_provider [
    | none ↦ (s, false)
    | some p ↦
        if not (no_selection s.selection)
        then (if not collapsed then (s, false) else (
          ensure_selected_row_visible (record s { selection = none }) viewport_height,
          true,
        ))
        else (let was = KeySet.contains p s.collapsed_providers in
            let now =
              if collapsed
              then KeySet.insert p s.collapsed_providers
              else KeySet.remove p s.collapsed_providers in
            (
              ensure_selected_row_visible (record s { collapsed_providers = now }) viewport_height,
              if collapsed then not was else was,
            ))
  ]

  unfoldable pub toggle_selected_provider :
      ConversationsViewState → ℕ → ConversationsViewState × Bool
  toggle_selected_provider s viewport_height =
      if not (no_selection s.selection) then (s, false) else elim s.selected_provider [
        | none ↦ (s, false)
        | some p ↦
            set_selected_provider_collapsed s (not (KeySet.contains p s.collapsed_providers))
              viewport_height
      ]

  unfoldable pub handle_pointer :
      ConversationsViewState
      → (column row : ℕ) → PointerAction
      → Rect
      → (warning_height : ℕ) → ConversationsViewState × Bool
  handle_pointer s column row action area warning_height =
      let content_y = saturating_add u16_max area.y warning_height in
      let content_height = area.height - warning_height in
      if ltb row content_y || leb (saturating_add u16_max content_y content_height) row
      then (s, false)
      else (let absolute_row = saturating_add u64_max s.scroll (row - content_y) in
          let on_provider = is_provider_row (target_at_row to_lowercase s absolute_row) in
          let (selected, changed) = select_row s absolute_row content_height in
          if on_provider && (is_toggle action || (not (is_toggle action) && column == area.x))
          then (let (toggled, flipped) = toggle_selected_provider selected content_height in
              (toggled, changed || flipped))
          else (selected, changed))

  abbrev warning_height_of : ConversationsViewState → Rect → ℕ
  warning_height_of s area =
      min (if any_errors s.visible_errors || s.live_loading then 1 else 0) area.height

  unfoldable pub handle_intent :
      ConversationsViewState → Intent → Rect → ConversationsViewState × Bool
  handle_intent s intent area =
      let warning_height = warning_height_of s area in
      let viewport_height = area.height - warning_height in
      elim intent [
        | select_previous ↦ move_row_selection s (back 1) viewport_height
        | select_next ↦ move_row_selection s (forward 1) viewport_height
        | select_first ↦ select_row s 0 viewport_height
        | select_last ↦ select_row s (visible_row_count to_lowercase s - 1) viewport_height
        | expand_or_descend ↦ set_selected_provider_collapsed s false viewport_height
        | collapse_or_ascend ↦ set_selected_provider_collapsed s true viewport_height
        | toggle_selected ↦ toggle_selected_provider s viewport_height
        | pointer column row action ↦ handle_pointer s column row action area warning_height
        | Intent.scroll delta ↦ move_row_selection s delta viewport_height
        | _ ↦ (s, false)
      ]

  unfoldable pub reconcile_viewport : ConversationsViewState → Rect → ConversationsViewState
  reconcile_viewport s area = ensure_selected_row_visible s (area.height - warning_height_of s area)
