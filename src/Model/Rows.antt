-- ===== src/Model/Rows.antt =====
-- The loops of src/model.rs over the rows of the conversations view: `visible_row_count`,
-- `target_at_row` and `selected_row`. A row number is a usize.
use herdr_context.Base.{
  ℕ, suc, ◌+◌, String, Bool, true, false, ◌&&◌, Option, none, some, List, [], ◌∷◌, saturating_add,
  u64_max, ◌==◌, nat_eq, string_eq, option_eq, if◌then◌else◌,
}
use herdr_context.Conversations.{Conversation, SessionReference, session_reference_eq}
use herdr_context.Model.State.{
  ConversationsViewState, RowTarget, provider, session, provider_is_visible, provider_is_collapsed,
  shown_sessions, filtered_provider_count,
}

abbrev pub next_row : ℕ → ℕ
next_row row = saturating_add u64_max row 1

abbrev pub no_selection : Option SessionReference → Bool
no_selection none = true
no_selection (some _) = false

-- The inner loop: the rows of one provider's sessions. `inr` is the row after them.
unfoldable pub session_at : String → List Conversation → ℕ → ℕ → Option RowTarget × ℕ
session_at p [] row target = (none, row)
session_at p (c ∷ cs) row target =
    let rest = session_at p cs (next_row row) target in
    if row == target then (some (session p c.session_reference), row) else rest

-- The inner loop of `selected_row`: the row of the selected session.
unfoldable pub selected_session :
    Option SessionReference → Bool → List Conversation → ℕ → Option ℕ × ℕ
selected_session selection here [] row = (none, row)
selected_session selection here (c ∷ cs) row =
    let rest = selected_session selection here cs (next_row row) in
    if here && selection == some c.session_reference then (some row, row) else rest

module _ (to_lowercase : String → String) (s : ConversationsViewState) where
  unfoldable pub count_rows : List String → ℕ
  count_rows [] = 0
  count_rows (p ∷ ps) =
      (if provider_is_visible to_lowercase s p
        then suc (if provider_is_collapsed s p then 0 else filtered_provider_count to_lowercase s p)
        else 0)
      + count_rows ps

  unfoldable pub visible_row_count : ℕ
  unfolding count_rows
  visible_row_count = count_rows s.providers

  unfoldable pub target_from : List String → ℕ → ℕ → Option RowTarget
  target_from [] row target = none
  target_from (p ∷ ps) row target = elim (provider_is_visible to_lowercase s p) [
    | false ↦ target_from ps row target
    | true ↦ elim (row == target) [
      | true ↦ some (provider p)
      | false ↦ elim (provider_is_collapsed s p) [
        | true ↦ target_from ps (next_row row) target
        | false ↦
            let (found, row') =
              session_at p (shown_sessions to_lowercase s p) (next_row row) target in
            elim found [ some t ↦ some t | none ↦ target_from ps row' target ]
      ]
    ]
  ]

  unfoldable pub target_at_row : ℕ → Option RowTarget
  unfolding target_from
  target_at_row target = target_from s.providers 0 target

  unfoldable pub selected_from : String → List String → ℕ → Option ℕ
  selected_from selected [] row = none
  selected_from selected (p ∷ ps) row = elim (provider_is_visible to_lowercase s p) [
    | false ↦ selected_from selected ps row
    | true ↦ elim (p == selected && no_selection s.selection) [
      | true ↦ some row
      | false ↦ elim (provider_is_collapsed s p) [
        | true ↦ selected_from selected ps (next_row row)
        | false ↦
            let (found, row') =
              selected_session s.selection (p == selected) (shown_sessions to_lowercase s p)
                (next_row row) in
            elim found [ some r ↦ some r | none ↦ selected_from selected ps row' ]
      ]
    ]
  ]

  unfoldable pub selected_row : Option ℕ
  unfolding selected_from
  selected_row = elim s.selected_provider [
    | none ↦ none
    | some selected ↦ selected_from selected s.providers 0
  ]
