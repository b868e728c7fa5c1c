-- ===== src/Model/Moved.antt =====
-- The rows of src/model.rs under another selection: the target of a row is found at that row.
use herdr_context.Base.{
  ℕ, zero, suc, ◌≤◌, ◌≡◌, refl, sym, ◌∙◌, ap, String, true, Option, some, List, [], ◌∷◌, ◌++◌,
  arith, length, get_elem?, position, u64_max, Eq, nat_eq, string_eq, option_eq, inl, inr,
  Bool-cases,
}
use herdr_context.Base.KeySet
use herdr_context.Conversations.{SessionReference, session_reference_eq}
use herdr_context.Model.State.{
  ConversationsViewState, RowTarget, provider, session, provider_is_visible, provider_is_collapsed,
  shown_sessions, provider_matches_filter, conversation_matches_filter,
}
use herdr_context.Model.Rows.{visible_row_count, selected_row}
use herdr_context.Model.RowList.{is_selected, rows_of, rows_from, rows, visible_row_count-rows}
use herdr_context.Model.SelectedRow.{selected_row-position}
use herdr_context.Model.Select.{row_provider, row_session}

unfoldable pub RowTarget-discrete : Discrete RowTarget
unfolding string_eq
RowTarget-discrete = hlevel (string_eq.dec, session_reference_eq.dec)

instance unfoldable pub row_target_eq : Eq RowTarget
unfolding RowTarget-discrete
row_target_eq = record { dec = RowTarget-discrete }

abbrev pub moved :
    ConversationsViewState → Option String → Option SessionReference → ℕ → ConversationsViewState
moved s p selection scroll = record s {
  selected_provider = p;
  selection = selection;
  scroll = scroll;
}

-- The rows do not depend on the selection and the scroll.
module _ (to_lowercase : String → String) (s : ConversationsViewState) where
  rows_from-moved :
      (p : Option String) (selection : Option SessionReference) (scroll : ℕ) (ps : List String)
      → rows_from to_lowercase (moved s p selection scroll) ps ≡ rows_from to_lowercase s ps
  unfolding rows_from rows_of provider_is_visible provider_is_collapsed shown_sessions
      provider_matches_filter conversation_matches_filter
  rows_from-moved p selection scroll [] = refl
  rows_from-moved p selection scroll (q ∷ qs) =
      ap (◌++◌ (rows_of to_lowercase s q)) (rows_from-moved p selection scroll qs)

is_selected_self : (t : RowTarget) → is_selected (row_provider t) (row_session t) t ≡ true
unfolding option_eq
is_selected_self (provider p) = ground arith
is_selected_self (session p r) = ground arith

eq_of_is_selected :
    (t x : RowTarget) → is_selected (row_provider t) (row_session t) x ≡ true → x ≡ t
unfolding option_eq
eq_of_is_selected (provider p) (provider q) h = ground arith
eq_of_is_selected (provider p) (session q r) h = ground arith
eq_of_is_selected (session p r) (provider q) h = ground arith
eq_of_is_selected (session p r) (session q r') h = ground arith

contains_of_get_elem? :
    (t : RowTarget) (xs : List RowTarget) (i : ℕ)
    → get_elem? xs i ≡ some t
    → KeySet.contains t xs ≡ true
unfolding KeySet.contains
contains_of_get_elem? t [] i e = absurd (ground arith)
contains_of_get_elem? t (x ∷ xs) zero e = ground arith
contains_of_get_elem? t (x ∷ xs) (suc i) e = ground (arith, contains_of_get_elem? t xs i e)

-- In a list with no repetition an element is found at its own place.
position_of_get_elem? :
    (t : RowTarget) (xs : List RowTarget) (i : ℕ)
    → KeySet.IsDistinct xs
    → get_elem? xs i ≡ some t
    → position (is_selected (row_provider t) (row_session t)) xs ≡ some i
position_of_get_elem? t [] i d e = absurd (ground arith)
position_of_get_elem? t (x ∷ xs) zero d e = ground (arith, is_selected_self t)
position_of_get_elem? t (x ∷ xs) (suc i) d e =
    elim (Bool-cases (is_selected (row_provider t) (row_session t) x)) [
      | inl hit ↦
          let same = eq_of_is_selected t x hit in
          let there = contains_of_get_elem? t xs i e in absurd (ground (arith, same, there, d.0))
      | inr miss ↦ rw (miss, position_of_get_elem? t xs i d.1 e)
    ]

module _ (to_lowercase : String → String) (s : ConversationsViewState) where
  -- The rows can be numbered, and no row shows twice.
  pub record HasRows : Type 0 where
    pub numbered : length (rows to_lowercase s) ≤ u64_max
    pub distinct : KeySet.IsDistinct (rows to_lowercase s)

  pub rows-moved :
      (p : Option String) (selection : Option SessionReference) (scroll : ℕ)
      → rows to_lowercase (moved s p selection scroll) ≡ rows to_lowercase s
  rows-moved p selection scroll = rows_from-moved to_lowercase s p selection scroll s.providers

  -- Selecting the target of a row makes it the selected row, wherever the view is scrolled.
  pub selected_row-moved :
      (t : RowTarget) (row scroll : ℕ)
      → HasRows
      → get_elem? (rows to_lowercase s) row ≡ some t
      → selected_row to_lowercase (moved s (some (row_provider t)) (row_session t) scroll)
        ≡ some row
  selected_row-moved t row scroll h e =
      let same = rows-moved (some (row_provider t)) (row_session t) scroll in
      let v = moved s (some (row_provider t)) (row_session t) scroll in
      selected_row-position to_lowercase v (rw same h.numbered)
      ∙ ap (position (is_selected (row_provider t) (row_session t))) same
      ∙ position_of_get_elem? t (rows to_lowercase s) row h.distinct e

  pub visible_row_count-moved :
      (p : Option String) (selection : Option SessionReference) (scroll : ℕ)
      → visible_row_count to_lowercase (moved s p selection scroll)
        ≡ visible_row_count to_lowercase s
  visible_row_count-moved p selection scroll =
      visible_row_count-rows to_lowercase (moved s p selection scroll)
      ∙ ap length (rows-moved p selection scroll)
      ∙ sym (visible_row_count-rows to_lowercase s)
