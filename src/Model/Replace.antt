-- ===== src/Model/Replace.antt =====
-- The replacement of the items in `ConversationsViewState` of src/model.rs, and its errors.
pub mod Consistency
pub mod Errors
use Prim.Native.Char.{code}
use herdr_context.Base.{
  ℕ, String, Bool, true, false, not, ◌&&◌, ◌||◌, Option, none, some, List, [], ◌∷◌, ◌++◌, map, any,
  find, retain, ltb, ◌==◌, string_eq, list_eq, option_eq, if◌then◌else◌,
}
use herdr_context.Base.KeySet
use herdr_context.Base.Bytes.{lex_leb}
use herdr_context.Conversations.{
  Conversation, SessionReference, session_reference_eq, ConversationProvenance,
  conversation_provenance_eq,
}
use herdr_context.Model.State.{ConversationsViewState, VisibleError, alert, ready}

abbrev codes : String → List ℕ
codes String.[] = []
codes (String.◌∷◌ c s) = code c ∷ codes s

-- The order of texts: their UTF-8 bytes compare as their code points do.
abbrev pub text_leb : String → String → Bool
text_leb a b = lex_leb ltb (codes a) (codes b)

-- `BTreeSet::insert` on the sorted list of its elements.
unfoldable pub insert_sorted : String → List String → List String
insert_sorted x [] = x ∷ []
insert_sorted x (y ∷ ys) =
    let rest = insert_sorted x ys in
    if x == y then y ∷ ys else if text_leb x y then x ∷ y ∷ ys else y ∷ rest

unfoldable pub providers_of : List Conversation → List String
unfolding insert_sorted
providers_of [] = []
providers_of (c ∷ cs) = insert_sorted c.tool (providers_of cs)

abbrev pub refers_to : SessionReference → Conversation → Bool
refers_to selection c = c.session_reference == selection

abbrev pub is_some {ℓ} : {A : Type ℓ} → Option A → Bool
is_some none = false
is_some (some _) = true

-- The candidate has a provenance with a path in common with the selected conversation.
abbrev pub shares_provenance : Conversation → Conversation → Bool
shares_provenance selected candidate =
    any (λ p. KeySet.contains p candidate.provenance)
      (retain (λ p. is_some p.path) selected.provenance)

abbrev pub only_candidate : List Conversation → Option SessionReference
only_candidate [] = none
only_candidate (candidate ∷ []) = some candidate.session_reference
only_candidate (_ ∷ _ ∷ _) = none

-- Where the selected conversation is gone, the one new item that shares a file with it.
unfoldable pub migrated_selection :
    ConversationsViewState → List Conversation → Option SessionReference
migrated_selection s items = elim s.selection [
  | none ↦ none
  | some selection ↦
      if any (refers_to selection) items then none else elim (find (refers_to selection) s.items) [
        | none ↦ none
        | some selected ↦ only_candidate (retain (shares_provenance selected) items)
      ]
]

abbrev pub is_missing : Option SessionReference → List Conversation → Bool
is_missing none items = false
is_missing (some selection) items = not (any (refers_to selection) items)

abbrev pub first : List String → Option String
first [] = none
first (p ∷ _) = some p

abbrev pub is_none_or_absent : Option String → List String → Bool
is_none_or_absent none ps = true
is_none_or_absent (some p) ps = not (KeySet.contains p ps)

abbrev pub find_selected : Option SessionReference → List Conversation → Option Conversation
find_selected none items = none
find_selected (some selection) items = find (refers_to selection) items

unfoldable pub selected_conversation : ConversationsViewState → Option Conversation
selected_conversation s = find_selected s.selection s.items

-- The selected provider, where no session is selected.
unfoldable pub selected_provider : ConversationsViewState → Option String
selected_provider s = if is_some s.selection then none else s.selected_provider

-- The provider that goes with the selection.
unfoldable pub settle_provider : ConversationsViewState → ConversationsViewState
settle_provider s = elim (find_selected s.selection s.items) [
  | some selected ↦ record s { selected_provider = some selected.tool }
  | none ↦
      if is_none_or_absent s.selected_provider s.providers
      then record s { selected_provider = first s.providers }
      else s
]

unfoldable pub replace_visible_items :
    ConversationsViewState → List Conversation → ConversationsViewState × Bool
replace_visible_items s items =
    let migrated = migrated_selection s items in
    (
      settle_provider (record s {
        items = items;
        providers = providers_of items;
        selection = if is_missing s.selection items then migrated else s.selection;
      }),
      true,
    )

unfoldable pub replace_items :
    ConversationsViewState → List Conversation → ℕ → ConversationsViewState × Bool
replace_items s items generation =
    if ltb generation s.requested_generation
    then (s, false)
    else replace_visible_items (record s { applied_generation = generation; loading = ready }) items

unfoldable pub replace_live_items :
    ConversationsViewState → List Conversation → ℕ → ConversationsViewState × Bool
replace_live_items s items generation =
    if ltb generation s.live_requested_generation
    then (s, false)
    else replace_visible_items
        (record s { live_applied_generation = generation; live_loading = false }) items

-- One optional error at the end, unless its message is there.
unfoldable pub push_error : Option String → List VisibleError → List VisibleError
push_error none errors = errors
push_error (some error) errors =
    if any (λ existing. existing.message == error) errors
    then errors
    else errors ++ (record { severity = alert; message = error }) ∷ []

unfoldable pub rebuild_visible_errors : ConversationsViewState → ConversationsViewState
rebuild_visible_errors s = record s {
  visible_errors = push_error s.launch_error (push_error s.live_error s.source_errors);
}

unfoldable pub set_source_errors :
    ConversationsViewState → List VisibleError → ConversationsViewState
set_source_errors s errors = rebuild_visible_errors (record s { source_errors = errors })

unfoldable pub set_live_error : ConversationsViewState → Option String → ConversationsViewState
set_live_error s error = rebuild_visible_errors (record s { live_error = error })

unfoldable pub set_launch_error : ConversationsViewState → Option String → ConversationsViewState
set_launch_error s error = rebuild_visible_errors (record s { launch_error = error })
