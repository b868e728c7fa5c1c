-- ===== src/Model/Replace/Consistency.antt =====
-- What a replacement of the items promises of the selection and the errors in src/model.rs.
use herdr_context.Base.{
  ℕ, ◌≡◌, refl, ◌∙◌, subst, ap, String, Bool, true, false, ◌||◌, Option, none, some, List, [], ◌∷◌,
  arith, any, find, retain, ltb, ◌==◌, string_eq, option_eq, if◌then◌else◌, inl, inr, Bool-cases,
  Option-cases,
}
use herdr_context.Base.KeySet
use herdr_context.Conversations.{Conversation, SessionReference, session_reference_eq}
use herdr_context.Model.State.{ConversationsViewState, ready}
use herdr_context.Model.Replace

-- A selected session is one of the items, and its provider is the selected one; without a selected
-- session the selected provider is one of the providers, and there is one unless there is none.
abbrev pub Consistent :
    List Conversation → List String → Option SessionReference → Option String → Type 0
Consistent items providers (some selection) p =
    (c : Conversation) × (find (Replace.refers_to selection) items ≡ some c) × (p ≡ some c.tool)
Consistent items providers none (some p) = KeySet.contains p providers ≡ true
Consistent items providers none none = providers ≡ []

abbrev pub IsConsistent : ConversationsViewState → Type 0
IsConsistent s = Consistent s.items s.providers s.selection s.selected_provider

find_of_any {ℓ} :
    {A : Type ℓ} (p : A → Bool) (xs : List A) → any p xs ≡ true → (x : A) × (find p xs ≡ some x)
find_of_any p [] h = absurd (ground arith)
find_of_any p (x ∷ xs) h = elim (Bool-cases (p x)) [
  | inl hit ↦ (x, rw hit refl)
  | inr miss ↦ let (y, e) = find_of_any p xs (ground (arith, miss, h)) in (y, rw miss e)
]

-- The session of the selection, if there is one, is among the items.
abbrev Present : Option SessionReference → List Conversation → Type 0
Present none items = Unit
Present (some selection) items = any (Replace.refers_to selection) items ≡ true

head_or {ℓ} : {A : Type ℓ} → A → List A → A
head_or a [] = a
head_or a (x ∷ xs) = x

retain-any :
    (q : Conversation → Bool) (items : List Conversation) (c : Conversation)
    → retain q items ≡ c ∷ []
    → any (Replace.refers_to c.session_reference) items ≡ true
unfolding head_or
retain-any q [] c h = absurd (ground arith)
retain-any q (x ∷ xs) c h = elim (Bool-cases (q x)) [
  | inl hit ↦
      let kept : x ∷ retain q xs ≡ c ∷ [] = rw hit at h in
      subst (λ z. any (Replace.refers_to z.session_reference) (x ∷ xs) ≡ true) (ap (head_or x) kept)
        (self x)
  | inr miss ↦ let later = retain-any q xs c (rw miss at h) in ground (arith, later)
]
  where
    self : (z : Conversation) → any (Replace.refers_to z.session_reference) (z ∷ xs) ≡ true
    self z = ground arith

only_candidate-Present :
    (q : Conversation → Bool) (items : List Conversation)
    → Present (Replace.only_candidate (retain q items)) items
only_candidate-Present q items = go (retain q items) refl
  where
    go :
        (kept : List Conversation)
        → retain q items ≡ kept
        → Present (Replace.only_candidate kept) items
    go [] e = tt
    go (c ∷ []) e = retain-any q items c e
    go (c ∷ d ∷ kept) e = tt

migrated_selection-Present :
    (s : ConversationsViewState) (items : List Conversation)
    → Present (Replace.migrated_selection s items) items
unfolding Replace.migrated_selection
migrated_selection-Present s items = elim (Option-cases s.selection) [
  | inl e ↦ rw (e, Replace.migrated_selection) tt
  | inr (selection, e) ↦ elim (Bool-cases (any (Replace.refers_to selection) items)) [
    | inl there ↦ rw (e, there, Replace.migrated_selection) tt
    | inr gone ↦ elim (Option-cases (find (Replace.refers_to selection) s.items)) [
      | inl unknown ↦ rw (e, gone, unknown, Replace.migrated_selection) tt
      | inr (c, found) ↦
          rw (e, gone, found, Replace.migrated_selection)
            (only_candidate-Present (Replace.shares_provenance c) items)
    ]
  ]
]

-- The selection of the new state, a kept one or a migrated one, is among the items.
kept-Present :
    (selection migrated : Option SessionReference) (items : List Conversation)
    → Present migrated items
    → Present (if Replace.is_missing selection items then migrated else selection) items
kept-Present none migrated items h = tt
kept-Present (some selection) migrated items h =
    elim (Bool-cases (any (Replace.refers_to selection) items)) [
      | inl there ↦ rw there there
      | inr gone ↦ rw gone h
    ]

module _ (items : List Conversation) where
  found-Consistent :
      (ps : List String) (o : Option SessionReference) (c : Conversation)
      → Replace.find_selected o items ≡ some c
      → Consistent items ps o (some c.tool)
  found-Consistent ps none c e = absurd (ground arith)
  found-Consistent ps (some selection) c e = (c, e, refl)

  none_of_missing :
      (o : Option SessionReference)
      → Present o items
      → Replace.find_selected o items ≡ none
      → o ≡ none
  none_of_missing none h e = refl
  none_of_missing (some selection) h e =
      let (c, found) = find_of_any (Replace.refers_to selection) items h in
      absurd (ground (arith, found))

  first-Consistent : (ps : List String) → Consistent items ps none (Replace.first ps)
  unfolding KeySet.contains
  first-Consistent [] = refl
  first-Consistent (p ∷ ps) = ground arith

  chosen-Consistent :
      (ps : List String) (p : Option String)
      → Replace.is_none_or_absent p ps ≡ false
      → Consistent items ps none p
  chosen-Consistent ps none h = absurd (ground arith)
  chosen-Consistent ps (some p) h = ground arith

settle_provider-IsConsistent :
    (s : ConversationsViewState)
    → Present s.selection s.items
    → IsConsistent (Replace.settle_provider s)
unfolding Replace.settle_provider
settle_provider-IsConsistent s h = elim (Option-cases (Replace.find_selected s.selection s.items)) [
  | inr (c, e) ↦
      rw (e, Replace.settle_provider) (found-Consistent s.items s.providers s.selection c e)
  | inl e ↦
      let nothing = none_of_missing s.items s.selection h e in
      elim (Bool-cases (Replace.is_none_or_absent s.selected_provider s.providers)) [
        | inl lost ↦
            rw (e, lost, nothing, Replace.settle_provider) (first-Consistent s.items s.providers)
        | inr chosen ↦
            rw (e, chosen, nothing, Replace.settle_provider)
              (chosen-Consistent s.items s.providers s.selected_provider chosen)
      ]
]

contains-insert_sorted :
    (p x : String) (ys : List String)
    → KeySet.contains p (Replace.insert_sorted x ys) ≡ (p == x || KeySet.contains p ys)
unfolding KeySet.contains Replace.insert_sorted
contains-insert_sorted p x [] = ground arith
contains-insert_sorted p x (y ∷ ys) = ground (arith, contains-insert_sorted p x ys)

contains-providers_of :
    (p : String) (items : List Conversation)
    → KeySet.contains p (Replace.providers_of items) ≡ any (λ c. p == c.tool) items
unfolding KeySet.contains Replace.providers_of
contains-providers_of p [] = refl
contains-providers_of p (c ∷ cs) =
    contains-insert_sorted p c.tool (Replace.providers_of cs)
    ∙ ap (◌||◌ (p == c.tool)) (contains-providers_of p cs)

settled_lists :
    (s : ConversationsViewState)
    → ((Replace.settle_provider s).items ≡ s.items)
      × ((Replace.settle_provider s).providers ≡ s.providers)
      × ((Replace.settle_provider s).applied_generation ≡ s.applied_generation)
unfolding Replace.settle_provider
settled_lists s = ground arith

abbrev updated : ConversationsViewState → List Conversation → ConversationsViewState
updated s items =
    let migrated = Replace.migrated_selection s items in
    record s {
      items = items;
      providers = Replace.providers_of items;
      selection = if Replace.is_missing s.selection items then migrated else s.selection;
    }

replaced :
    (s : ConversationsViewState) (items : List Conversation) (p : String)
    → let v = (Replace.replace_visible_items s items).0 in
      (v.items ≡ items)
      × (v.applied_generation ≡ s.applied_generation)
      × (KeySet.contains p v.providers ≡ any (λ c. p == c.tool) items)
      × IsConsistent v
unfolding Replace.replace_visible_items
replaced s items p =
    let fields = settled_lists (updated s items) in
    let present =
      kept-Present s.selection (Replace.migrated_selection s items) items
        (migrated_selection-Present s items) in
    (
      fields.0,
      fields.2,
      ap (KeySet.contains p) fields.1 ∙ contains-providers_of p items,
      settle_provider-IsConsistent (updated s items) present,
    )

-- A result older than the newest request changes nothing and returns false. Any other one returns
-- true, shows the items and records the generation; the providers are those of the items, a
-- selected session is one of the items and its provider is the selected one, and without a
-- selected session the selected provider is a provider, or there is none.
pub replace_items-IsConsistent :
    (s : ConversationsViewState) (items : List Conversation) (generation : ℕ) (p : String)
    → let after = Replace.replace_items s items generation in
      if ltb generation s.requested_generation
      then (after ≡ (s, false))
      else ((after.1 ≡ true)
          × (after.0.items ≡ items)
          × (after.0.applied_generation ≡ generation)
          × (KeySet.contains p after.0.providers ≡ any (λ c. p == c.tool) items)
          × IsConsistent after.0)
unfolding Replace.replace_items Replace.replace_visible_items
replace_items-IsConsistent s items generation p =
    elim (Bool-cases (ltb generation s.requested_generation)) [
      | inl stale ↦ rw stale refl
      | inr fresh ↦
          let s' = record s { applied_generation = generation; loading = ready } in
          let (shown, applied, providers, consistent) = replaced s' items p in
          rw fresh (refl, shown, applied, providers, consistent)
    ]
