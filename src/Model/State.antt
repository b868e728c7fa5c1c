-- ===== src/Model/State.antt =====
-- `ConversationsViewState` of src/model.rs: the rows of the view and the selection in them.
use text.Mathlib.Text.{find?}
use herdr_context.Base.{
  ℕ, String, Bool, true, false, ◌&&◌, ◌||◌, Option, none, some, List, length, retain, any, ◌==◌,
  string_eq, option_eq, if◌then◌else◌,
}
use herdr_context.Base.KeySet
use herdr_context.Conversations.{Conversation, SessionReference, session_reference_eq}

pub data LoadingState : Type 0 where
  loading ready : LoadingState
  error : String → LoadingState

pub data NoticeSeverity : Type 0 where
  quiet alert : NoticeSeverity

pub record VisibleError : Type 0 where
  pub severity : NoticeSeverity
  pub message : String

pub record ConversationsViewState : Type 0 where
  pub items : List Conversation
  pub providers : List String
  pub collapsed_providers : List String
  pub selected_provider : Option String
  pub selection : Option SessionReference
  pub scroll : ℕ
  pub filter : String
  pub loading : LoadingState
  pub source_errors : List VisibleError
  pub live_error : Option String
  pub launch_error : Option String
  pub visible_errors : List VisibleError
  pub live_loading : Bool
  pub requested_generation : ℕ
  pub applied_generation : ℕ
  pub live_requested_generation : ℕ
  pub live_applied_generation : ℕ

pub data RowTarget : Type 0 where
  provider : String → RowTarget
  session : String → SessionReference → RowTarget

-- `str::contains`.
abbrev pub has_text : String → String → Bool
has_text text part = elim (find? text part) [ none ↦ false | some _ ↦ true ]

unfoldable pub provider_is_collapsed : ConversationsViewState → String → Bool
provider_is_collapsed s p = KeySet.contains p s.collapsed_providers

-- `to_lowercase` is that of Rust's `str`, which follows Unicode's tables.
module _ (to_lowercase : String → String) where
  unfoldable pub provider_matches_filter : ConversationsViewState → String → Bool
  provider_matches_filter s p =
      let filter = to_lowercase s.filter in filter == "" || has_text (to_lowercase p) filter

  unfoldable pub conversation_matches_filter : ConversationsViewState → Conversation → Bool → Bool
  conversation_matches_filter s c provider_matches =
      if provider_matches then true else elim c.title [
        | none ↦ false
        | some title ↦ has_text (to_lowercase title) (to_lowercase s.filter)
      ]

  unfoldable pub provider_is_visible : ConversationsViewState → String → Bool
  provider_is_visible s p =
      provider_matches_filter s p
      || any (λ c. c.tool == p && conversation_matches_filter s c false) s.items

  -- The sessions that the rows of a provider show.
  unfoldable pub shown_sessions : ConversationsViewState → String → List Conversation
  shown_sessions s p =
      let provider_matches = provider_matches_filter s p in
      retain (λ c. c.tool == p && conversation_matches_filter s c provider_matches) s.items

  unfoldable pub filtered_provider_count : ConversationsViewState → String → ℕ
  unfolding shown_sessions
  filtered_provider_count s p = length (shown_sessions s p)
