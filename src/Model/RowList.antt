-- ===== src/Model/RowList.antt =====
-- The rows of the conversations view as one list: the reference for the loops of src/model.rs.
use herdr_context.Base.{
  ℕ, zero, suc, ◌+◌, ◌-◌, ◌≤◌, ◌≡◌, refl, sym, subst, ◌∙◌, ap, String, Bool, true, false, ◌&&◌,
  Option, none, some, List, [], ◌∷◌, ◌++◌, arith, length, length-append, get_elem?,
  get_elem?-append_left, get_elem?-append_right, u64_max, ◌==◌, nat_eq, string_eq, option_eq,
  if◌then◌else◌, inl, inr, Bool-cases, Option-cases,
}
use herdr_context.Conversations.{Conversation, SessionReference, session_reference_eq}
use herdr_context.Model.State.{
  ConversationsViewState, RowTarget, provider, session, provider_is_visible, provider_is_collapsed,
  shown_sessions, filtered_provider_count,
}
use herdr_context.Model.Rows.{
  next_row, no_selection, session_at, count_rows, visible_row_count, target_from, target_at_row,
}

abbrev pub session_rows : String → List Conversation → List RowTarget
session_rows p [] = []
session_rows p (c ∷ cs) = session p c.session_reference ∷ session_rows p cs

pub length-session_rows :
    (p : String) (cs : List Conversation) → length (session_rows p cs) ≡ length cs
length-session_rows p [] = refl
length-session_rows p (c ∷ cs) = ap suc (length-session_rows p cs)

-- Whether the row is the selected one.
abbrev pub is_selected : String → Option SessionReference → RowTarget → Bool
is_selected selected selection (provider p) = p == selected && no_selection selection
is_selected selected selection (session p r) = p == selected && selection == some r

module _ (to_lowercase : String → String) (s : ConversationsViewState) where
  -- A provider that the filter hides has no row; a collapsed one has its own row only.
  unfoldable pub rows_of : String → List RowTarget
  rows_of p =
      if provider_is_visible to_lowercase s p
      then provider p
        ∷ (if provider_is_collapsed s p
            then []
            else session_rows p (shown_sessions to_lowercase s p))
      else []

  unfoldable pub rows_from : List String → List RowTarget
  rows_from [] = []
  rows_from (p ∷ ps) = rows_of p ++ rows_from ps

  abbrev pub rows : List RowTarget
  rows = rows_from s.providers

  count_rows-rows_from : (ps : List String) → count_rows to_lowercase s ps ≡ length (rows_from ps)
  unfolding count_rows rows_from rows_of filtered_provider_count
  count_rows-rows_from [] = refl
  count_rows-rows_from (p ∷ ps) = ground (
    arith,
    count_rows-rows_from ps,
    length-session_rows p (shown_sessions to_lowercase s p),
    length-append (rows_of p) (rows_from ps),
  )

  pub visible_row_count-rows : visible_row_count to_lowercase s ≡ length rows
  unfolding visible_row_count
  visible_row_count-rows = count_rows-rows_from s.providers

-- The inner loop of `target_at_row`, k rows further.
session_at-get_elem? :
    (p : String) (cs : List Conversation) (row k : ℕ)
    → row + length cs ≤ u64_max
    → ((session_at p cs row (row + k)).0 ≡ get_elem? (session_rows p cs) k)
      × (get_elem? (session_rows p cs) k ≡ none
          → (length cs ≤ k) × ((session_at p cs row (row + k)).1 ≡ row + length cs))
unfolding session_at nat_eq
session_at-get_elem? p [] row k h = (refl, λ e. (omega arith, omega arith))
session_at-get_elem? p (c ∷ cs) row zero h = ground arith
session_at-get_elem? p (c ∷ cs) row (suc k) h =
    let shift : row + suc k ≡ next_row row + k = ground arith in
    let ih = session_at-get_elem? p cs (next_row row) k (ground arith) in
    (rw shift (ground (arith, ih.0)), λ e. ground (arith, shift, ih.1 e))

module _ (to_lowercase : String → String) (s : ConversationsViewState) where
  abbrev Targets : List String → Type 0
  Targets ps =
      (row k : ℕ)
      → row + length (rows_from to_lowercase s ps) ≤ u64_max
      → target_from to_lowercase s ps row (row + k) ≡ get_elem? (rows_from to_lowercase s ps) k

  abbrev AfterSessions : String → List String → List Conversation → (row k target : ℕ) → Type 0
  AfterSessions p ps cs row k target =
      elim (session_at p cs row target).0 as (λ _. Option RowTarget) [
        | some t ↦ some t
        | none ↦ target_from to_lowercase s ps (session_at p cs row target).1 target
      ]
      ≡ get_elem? (session_rows p cs ++ rows_from to_lowercase s ps) k

  -- Past the sessions of one provider.
  target-AfterSessions :
      (p : String) (ps : List String) (cs : List Conversation) (row k : ℕ)
      → Targets ps
      → row + length cs + length (rows_from to_lowercase s ps) ≤ u64_max
      → AfterSessions p ps cs row k (row + k)
  target-AfterSessions p ps cs row k later h =
      let inner = session_at-get_elem? p cs row k (omega arith) in
      let rest = rows_from to_lowercase s ps in
      elim (Option-cases (get_elem? (session_rows p cs) k)) [
        | inl e ↦
            let past = inner.1 e in
            let split : k ≡ length (session_rows p cs) + (k - length cs) =
              omega (arith, length-session_rows p cs) in
            let jump : row + k ≡ row + length cs + (k - length cs) = omega arith in
            rw (inner.0, e, past.1, jump)
              (later (row + length cs) (k - length cs) (omega arith)
                ∙ sym (get_elem?-append_right (session_rows p cs) rest (k - length cs))
                ∙ ap (get_elem? (session_rows p cs ++ rest)) (sym split))
        | inr (t, e) ↦ rw (inner.0, e) (sym (get_elem?-append_left (session_rows p cs) rest k e))
      ]

  -- Below the row of a visible provider.
  below_provider :
      (p : String) (ps : List String) (row k : ℕ)
      → Targets ps
      → provider_is_visible to_lowercase s p ≡ true
      → row + length (rows_of to_lowercase s p ++ rows_from to_lowercase s ps) ≤ u64_max
      → target_from to_lowercase s (p ∷ ps) row (row + suc k)
        ≡ get_elem? (rows_of to_lowercase s p ++ rows_from to_lowercase s ps) (suc k)
  unfolding target_from rows_of nat_eq
  below_provider p ps row k later shown h =
      let cs = shown_sessions to_lowercase s p in
      let other : (row == row + suc k) ≡ false = ground arith in
      elim (Bool-cases (provider_is_collapsed s p)) [
        | inl closed ↦
            let room : row + suc (length (rows_from to_lowercase s ps)) ≤ u64_max =
              ground (arith, shown, closed) in
            let shift : row + suc k ≡ next_row row + k = ground arith in
            rw (shown, target_from, rows_of)
              (rw (other, target_from)
                (rw (closed, target_from, rows_of)
                  (rw shift (later (next_row row) k (ground arith)))))
        | inr opened ↦
            let room : row + suc (length (session_rows p cs ++ rows_from to_lowercase s ps))
                ≤ u64_max =
              ground (arith, shown, opened) in
            let sum = length-append (session_rows p cs) (rows_from to_lowercase s ps) in
            let shift : row + suc k ≡ next_row row + k = ground (arith, room) in
            rw (shown, target_from, rows_of)
              (rw (other, target_from)
                (rw (opened, target_from, rows_of)
                  (subst (AfterSessions p ps cs (next_row row) k) (sym shift) (
                    target-AfterSessions p ps cs (next_row row) k later
                      (ground (arith, room, sum, length-session_rows p cs))))))
      ]

  visible_rows :
      (p : String) (ps : List String) (row k : ℕ)
      → Targets ps
      → row + length (rows_of to_lowercase s p ++ rows_from to_lowercase s ps) ≤ u64_max
      → target_from to_lowercase s (p ∷ ps) row (row + k)
        ≡ get_elem? (rows_of to_lowercase s p ++ rows_from to_lowercase s ps) k
  unfolding target_from rows_of nat_eq
  visible_rows p ps row zero later h = elim (Bool-cases (provider_is_visible to_lowercase s p)) [
    | inl shown ↦ ground (arith, shown)
    | inr hidden ↦ rw (hidden, target_from, rows_of) (later row zero (ground (arith, hidden)))
  ]
  visible_rows p ps row (suc k) later h = elim (Bool-cases (provider_is_visible to_lowercase s p)) [
    | inl shown ↦ below_provider p ps row k later shown h
    | inr hidden ↦ rw (hidden, target_from, rows_of) (later row (suc k) (ground (arith, hidden)))
  ]

  target_from-get_elem? : (ps : List String) → Targets ps
  unfolding target_from rows_from
  target_from-get_elem? [] row k h = refl
  target_from-get_elem? (p ∷ ps) row k h =
      visible_rows p ps row k (target_from-get_elem? ps)
        (omega (arith, length-append (rows_of to_lowercase s p) (rows_from to_lowercase s ps), h))

  -- Where the rows can be numbered, the loops of `target_at_row` read the list of rows at the row,
  -- and give none past its end.
  pub target_at_row-rows :
      (row : ℕ)
      → length (rows to_lowercase s) ≤ u64_max
      → target_at_row to_lowercase s row ≡ get_elem? (rows to_lowercase s) row
  unfolding target_at_row
  target_at_row-rows row h =
      let shift : 0 + row ≡ row = omega arith in
      rw shift at (target_from-get_elem? s.providers 0 row (omega arith))
