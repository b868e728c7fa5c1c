-- ===== src/Model/SelectedRow.antt =====
-- `selected_row` of src/model.rs finds the first selected row of the list of rows.
use herdr_context.Base.{
  ℕ, suc, ◌+◌, ◌≤◌, ◌≡◌, refl, sym, ◌∙◌, ap, String, Bool, true, false, ◌&&◌, Option, none, some,
  List, [], ◌∷◌, ◌++◌, arith, length, length-append, position, position-append, or_after, u64_max,
  ◌==◌, nat_eq, string_eq, option_eq, inl, inr, Bool-cases, Option-cases,
}
use mathlib.Core.Option
use herdr_context.Conversations.{Conversation, SessionReference, session_reference_eq}
use herdr_context.Model.State.{
  ConversationsViewState, RowTarget, provider_is_visible, provider_is_collapsed, shown_sessions,
}
use herdr_context.Model.Rows.{next_row, no_selection, selected_session, selected_from, selected_row}
use herdr_context.Model.RowList.{
  session_rows, length-session_rows, is_selected, rows_of, rows_from, rows,
}

-- The inner loop of `selected_row`, from a row on.
abbrev pub shifted : ℕ → Option ℕ → Option ℕ
shifted row none = none
shifted row (some i) = some (row + i)

selected_session-position :
    (p selected : String) (selection : Option SessionReference) (cs : List Conversation) (row : ℕ)
    → row + length cs ≤ u64_max
    → let result = selected_session selection (p == selected) cs row in
      let place = position (is_selected selected selection) (session_rows p cs) in
      (result.0 ≡ shifted row place) × (place ≡ none → result.1 ≡ row + length cs)
unfolding selected_session
selected_session-position p selected selection [] row h = (refl, λ e. omega arith)
selected_session-position p selected selection (c ∷ cs) row h =
    let ih = selected_session-position p selected selection cs (next_row row) (ground arith) in
    (ground (arith, ih.0), λ e. ground (arith, ih.1))

module _ (to_lowercase : String → String) (s : ConversationsViewState) (selected : String) where
  abbrev chosen : RowTarget → Bool
  chosen = is_selected selected s.selection

  abbrev Finds : List String → Type 0
  Finds ps =
      (row : ℕ)
      → row + length (rows_from to_lowercase s ps) ≤ u64_max
      → selected_from to_lowercase s selected ps row
        ≡ shifted row (position chosen (rows_from to_lowercase s ps))

  shifted-or_after :
      (row n : ℕ) (o : Option ℕ) → shifted row (or_after n none o) ≡ shifted (row + n) o
  shifted-or_after row n none = refl
  shifted-or_after row n (some i) = ground arith

  -- Past the sessions of one provider.
  selected_after_sessions :
      (p : String) (ps : List String) (cs : List Conversation) (row : ℕ)
      → Finds ps
      → row + length cs + length (rows_from to_lowercase s ps) ≤ u64_max
      → elim (selected_session s.selection (p == selected) cs row).0 as (λ _. Option ℕ) [
        | some r ↦ some r
        | none ↦
            selected_from to_lowercase s selected ps
              (selected_session s.selection (p == selected) cs row).1
      ]
        ≡ shifted row (position chosen (session_rows p cs ++ rows_from to_lowercase s ps))
  selected_after_sessions p ps cs row later h =
      let inner = selected_session-position p selected s.selection cs row (omega arith) in
      let rest = rows_from to_lowercase s ps in
      let whole = position-append chosen (session_rows p cs) rest in
      elim (Option-cases (position chosen (session_rows p cs))) [
        | inl e ↦
            rw (inner.0, e, inner.1 e, whole, e)
              (later (row + length cs) (omega arith)
                ∙ sym (shifted-or_after row (length cs) (position chosen rest))
                ∙ ap (λ n. shifted row (or_after n none (position chosen rest)))
                    (sym (length-session_rows p cs)))
        | inr (i, e) ↦ rw (inner.0, e, whole, e)
      ]

  shifted-suc :
      (row : ℕ) (o : Option ℕ)
      → row + 1 ≤ u64_max
      → shifted row (Option.map suc o) ≡ shifted (next_row row) o
  shifted-suc row none h = refl
  shifted-suc row (some i) h = ground arith

  hidden_selected :
      (p : String) (ps : List String) (row : ℕ)
      → Finds ps
      → provider_is_visible to_lowercase s p ≡ false
      → row + length (rows_of to_lowercase s p ++ rows_from to_lowercase s ps) ≤ u64_max
      → selected_from to_lowercase s selected (p ∷ ps) row
        ≡ shifted row (position chosen (rows_of to_lowercase s p ++ rows_from to_lowercase s ps))
  unfolding selected_from rows_of
  hidden_selected p ps row later hidden h =
      rw (hidden, selected_from, rows_of) (later row (ground (arith, hidden)))

  visible_selected :
      (p : String) (ps : List String) (row : ℕ)
      → Finds ps
      → provider_is_visible to_lowercase s p ≡ true
      → row + length (rows_of to_lowercase s p ++ rows_from to_lowercase s ps) ≤ u64_max
      → selected_from to_lowercase s selected (p ∷ ps) row
        ≡ shifted row (position chosen (rows_of to_lowercase s p ++ rows_from to_lowercase s ps))
  unfolding selected_from rows_of
  visible_selected p ps row later shown h =
      let cs = shown_sessions to_lowercase s p in
      let rest = rows_from to_lowercase s ps in
      elim (Bool-cases (p == selected && no_selection s.selection)) [
        | inl hit ↦ rw (shown, selected_from, rows_of) (rw (hit, selected_from) (ground arith))
        | inr miss ↦ elim (Bool-cases (provider_is_collapsed s p)) [
          | inl closed ↦
              let room : row + suc (length rest) ≤ u64_max = ground (arith, shown, closed) in
              rw (shown, selected_from, rows_of)
                (rw (miss, selected_from)
                  (rw (closed, selected_from, rows_of)
                    (later (next_row row) (ground arith)
                      ∙ sym (shifted-suc row (position chosen rest) (omega arith)))))
          | inr opened ↦
              let room : row + suc (length (session_rows p cs ++ rest)) ≤ u64_max =
                ground (arith, shown, opened) in
              rw (shown, selected_from, rows_of)
                (rw (miss, selected_from)
                  (rw (opened, selected_from, rows_of)
                    (selected_after_sessions p ps cs (next_row row) later (
                        ground (
                          arith,
                          room,
                          length-append (session_rows p cs) rest,
                          length-session_rows p cs,
                        ))
                      ∙ sym (
                          shifted-suc row (position chosen (session_rows p cs ++ rest))
                            (omega arith)))))
        ]
      ]

  selected_from-position : (ps : List String) → Finds ps
  unfolding selected_from rows_from
  selected_from-position [] row h = refl
  selected_from-position (p ∷ ps) row h = elim (Bool-cases (provider_is_visible to_lowercase s p)) [
    | inl shown ↦ visible_selected p ps row (selected_from-position ps) shown h
    | inr hidden ↦ hidden_selected p ps row (selected_from-position ps) hidden h
  ]

module _ (to_lowercase : String → String) (s : ConversationsViewState) where
  abbrev pub selected_place : Option String → Option ℕ
  selected_place none = none
  selected_place (some selected) = position (is_selected selected s.selection) (rows to_lowercase s)

  shifted-zero : (o : Option ℕ) → shifted 0 o ≡ o
  shifted-zero none = refl
  shifted-zero (some i) = ground arith

  -- Where the rows can be numbered, the loops of `selected_row` find the first row of the list of
  -- rows that is the selected one, and none where nothing is selected.
  pub selected_row-position :
      length (rows to_lowercase s) ≤ u64_max
      → selected_row to_lowercase s ≡ selected_place s.selected_provider
  unfolding selected_row
  selected_row-position h = elim (Option-cases s.selected_provider) [
    | inl e ↦ simp (e, selected_row)
    | inr (p, e) ↦
        simp (e, selected_row)
          (selected_from-position to_lowercase s p s.providers 0 (omega arith) ∙ shifted-zero _)
  ]
