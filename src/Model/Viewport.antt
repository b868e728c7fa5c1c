-- ===== src/Model/Viewport.antt =====
-- The viewport and the selection of src/model.rs: what a selection selects, and that it is shown.
use herdr_context.Base.{
  ℕ, ◌+◌, ◌-◌, ◌≤◌, ◌<◌, ◌≡◌, refl, sym, subst, ◌∙◌, String, false, Option, none, some, arith,
  length, get_elem?, get_elem?_of_lt, lt-length_of_get_elem?, position-lt-length, u64_max, lt→ltb,
  leb, ◌⊎◌, ltb, ◌==◌, nat_eq, string_eq, option_eq, if◌then◌else◌, inl, inr, Bool-cases,
  Option-cases,
}
use herdr_context.Conversations.{session_reference_eq}
use herdr_context.Intent.{Delta, back, forward}
use herdr_context.Model.State.{ConversationsViewState, RowTarget}
use herdr_context.Model.Rows.{visible_row_count, target_at_row, selected_row}
use herdr_context.Model.RowList.{is_selected, rows, visible_row_count-rows, target_at_row-rows}
use herdr_context.Model.Moved.{HasRows, selected_row-moved, visible_row_count-moved}
use herdr_context.Model.SelectedRow.{selected_place, selected_row-position}
use herdr_context.Model.Select.{
  row_provider, row_session, scroll_to, step_row, ensure_selected_row_visible, selecting,
  select_row, move_row_selection,
}

-- The scroll shows the row and leaves no empty line below the last row.
abbrev pub Shows : (scroll viewport_height count row : ℕ) → Type 0
Shows scroll viewport_height count row =
    (scroll ≤ row) × (row < scroll + viewport_height) × (scroll ≤ count - viewport_height)

-- The row that a step of the selection is to reach among so many rows.
abbrev pub IsTarget : (count : ℕ) → Option ℕ → Delta → (row : ℕ) → Type 0
IsTarget count none (back n) row = row + 1 ≡ count
IsTarget count none (forward n) row = row ≡ 0
IsTarget count (some current) (back n) row = (row + n ≡ current) ⊎ (row ≡ 0) × (current < n)
IsTarget count (some current) (forward n) row =
    (row ≡ current + n) ⊎ (row + 1 ≡ count) × (count ≤ current + n)

scroll_to-Shows :
    (scroll viewport_height count row : ℕ)
    → row < count
    → count ≤ u64_max
    → 0 < viewport_height
    → Shows (scroll_to scroll viewport_height count (some row)) viewport_height count row
unfolding scroll_to nat_eq
scroll_to-Shows scroll h count row below room tall = ground arith

module _ (to_lowercase : String → String) (s : ConversationsViewState) where
  -- The row is the selected one, and the viewport shows it.
  abbrev pub IsShown : ConversationsViewState → ℕ → ℕ → Type 0
  IsShown v viewport_height row =
      (selected_row to_lowercase v ≡ some row)
      × Shows v.scroll viewport_height (visible_row_count to_lowercase v) row

  selecting-IsShown :
      (t : RowTarget) (row viewport_height : ℕ)
      → HasRows to_lowercase s
      → 0 < viewport_height
      → get_elem? (rows to_lowercase s) row ≡ some t
      → row < length (rows to_lowercase s)
      → IsShown
          (ensure_selected_row_visible to_lowercase (selecting to_lowercase s t) viewport_height)
          viewport_height
          row
  unfolding ensure_selected_row_visible
  selecting-IsShown t row viewport_height h tall e below =
      let p = some (row_provider t) in
      let start = selected_row-moved to_lowercase s t row s.scroll h e in
      let count = visible_row_count-moved to_lowercase s p (row_session t) s.scroll in
      let end =
        scroll_to s.scroll viewport_height
          (visible_row_count to_lowercase (selecting to_lowercase s t))
          (selected_row to_lowercase (selecting to_lowercase s t)) in
      let total = visible_row_count-rows to_lowercase s in
      (
        selected_row-moved to_lowercase s t row end h e,
        rw (visible_row_count-moved to_lowercase s p (row_session t) end, start, count)
            (scroll_to-Shows s.scroll viewport_height (visible_row_count to_lowercase s) row
              (omega (arith, total)) (omega (arith, total, h.numbered)) tall),
      )

  select_row-some :
      (t : RowTarget) (row viewport_height : ℕ)
      → target_at_row to_lowercase s row ≡ some t
      → (select_row to_lowercase s row viewport_height).0
        ≡ ensure_selected_row_visible to_lowercase (selecting to_lowercase s t) viewport_height
  unfolding select_row
  select_row-some t row viewport_height e = rw (e, select_row)

  select_row-none :
      (row viewport_height : ℕ)
      → target_at_row to_lowercase s row ≡ none
      → select_row to_lowercase s row viewport_height ≡ (s, false)
  unfolding select_row
  select_row-none row viewport_height e = rw (e, select_row)

  past_rows :
      (row : ℕ)
      → ltb row (visible_row_count to_lowercase s) ≡ false
      → get_elem? (rows to_lowercase s) row ≡ none
  past_rows row past = elim (Option-cases (get_elem? (rows to_lowercase s) row)) [
    | inl e ↦ e
    | inr (t, e) ↦ absurd (
        ground (
          arith,
          visible_row_count-rows to_lowercase s,
          lt-length_of_get_elem? (rows to_lowercase s) row e,
        ))
  ]

  -- Where the rows can be numbered and none shows twice, selecting a row that is there makes it
  -- the selected row, and a viewport with a line shows it, with no empty line below the last row;
  -- selecting a row that is not there changes nothing and returns false.
  pub select_row-IsShown :
      (row viewport_height : ℕ)
      → HasRows to_lowercase s
      → 0 < viewport_height
      → if ltb row (visible_row_count to_lowercase s)
        then IsShown (select_row to_lowercase s row viewport_height).0 viewport_height row
        else (select_row to_lowercase s row viewport_height ≡ (s, false))
  select_row-IsShown row viewport_height h tall =
      elim (Bool-cases (ltb row (visible_row_count to_lowercase s))) [
        | inl below ↦
            let total = visible_row_count-rows to_lowercase s in
            let (t, e) = get_elem?_of_lt (rows to_lowercase s) row (ground (arith, total, below)) in
            rw below (
              subst (λ v. IsShown v viewport_height row)
                (sym (
                  select_row-some t row viewport_height
                    (target_at_row-rows to_lowercase s row h.numbered ∙ e)))
                (selecting-IsShown t row viewport_height h tall e (ground (arith, total, below))))
        | inr past ↦ rw past (
            select_row-none row viewport_height
              (target_at_row-rows to_lowercase s row h.numbered ∙ past_rows row past))
      ]

  step_row-lt :
      (delta : Delta) (count : ℕ) (o : Option ℕ)
      → 0 < count
      → ((i : ℕ) → o ≡ some i → i < count)
      → step_row count o delta < count
  unfolding step_row
  step_row-lt (back n) count none some_row h = omega arith
  step_row-lt (forward n) count none some_row h = omega arith
  step_row-lt (back n) count (some i) some_row h = ground (arith, h i refl)
  step_row-lt (forward n) count (some i) some_row h = ground (arith, h i refl)

  selected_row-lt :
      HasRows to_lowercase s
      → (i : ℕ) → selected_row to_lowercase s ≡ some i
      → i < visible_row_count to_lowercase s
  selected_row-lt h i e =
      go s.selected_provider (sym (selected_row-position to_lowercase s h.numbered) ∙ e)
    where
      go :
          (p : Option String)
          → selected_place to_lowercase s p ≡ some i
          → i < visible_row_count to_lowercase s
      go none e = absurd (ground arith)
      go (some p) e = omega (
        arith,
        visible_row_count-rows to_lowercase s,
        position-lt-length (is_selected p s.selection) (rows to_lowercase s) i e,
      )

  step_row-IsTarget :
      (delta : Delta) (count : ℕ) (o : Option ℕ)
      → 0 < count
      → count ≤ u64_max
      → ((i : ℕ) → o ≡ some i → i < count)
      → IsTarget count o delta (step_row count o delta)
  unfolding step_row
  step_row-IsTarget (back n) count none some_row room h = omega arith
  step_row-IsTarget (forward n) count none some_row room h = refl
  step_row-IsTarget (back n) count (some i) some_row room h = elim (Bool-cases (leb n i)) [
    | inl fits ↦ inl (ground (arith, fits))
    | inr past ↦ inr (ground (arith, past), ground (arith, past))
  ]
  step_row-IsTarget (forward n) count (some i) some_row room h =
      elim (Bool-cases (ltb (i + n) count)) [
        | inl fits ↦ inl (ground (arith, fits, room))
        | inr past ↦ inr (ground (arith, past, room, some_row), ground (arith, past))
      ]

  -- Where the rows can be numbered, none shows twice and there is one, moving the selection back or
  -- forward by a delta selects the row that many rows before or after the selected one, or the first
  -- or the last row where there are not so many; where none was selected, back selects the last row
  -- and forward the first. The viewport shows the row.
  pub move_row_selection-IsShown :
      (delta : Delta) (viewport_height : ℕ)
      → HasRows to_lowercase s
      → 0 < viewport_height
      → 0 < visible_row_count to_lowercase s
      → let count = visible_row_count to_lowercase s in
        (row : ℕ) × (row < count)
        × IsTarget count (selected_row to_lowercase s) delta row
        × IsShown (move_row_selection to_lowercase s delta viewport_height).0 viewport_height row
  unfolding move_row_selection nat_eq
  move_row_selection-IsShown delta viewport_height h tall some_row =
      let count = visible_row_count to_lowercase s in
      let row = step_row count (selected_row to_lowercase s) delta in
      let below : row < count =
        step_row-lt delta count (selected_row to_lowercase s) some_row (selected_row-lt h) in
      let filled : (count == 0) ≡ false = ground arith in
      let shown = select_row-IsShown row viewport_height h tall in
      let target =
        step_row-IsTarget delta count (selected_row to_lowercase s) some_row
          (omega (arith, visible_row_count-rows to_lowercase s, h.numbered)) (selected_row-lt h) in
      let there = lt→ltb row count below in (row, below, target, rw filled (rw there at shown))
