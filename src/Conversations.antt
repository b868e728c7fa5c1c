-- ===== src/Conversations.antt =====
-- src/conversations/mod.rs: the provider-neutral conversation model. `SystemTime` is a number, and
-- the newtypes over a text are the text.
pub mod Build
use herdr_context.Base.{ℕ, String, Option, List, Eq, string_eq, list_eq, option_eq}
use herdr_context.Base.Paths.{FilePath}

pub record SessionReference : Type 0 where
  pub namespace : String
  pub id : String

unfoldable pub SessionReference-discrete : Discrete SessionReference
unfolding string_eq
SessionReference-discrete = hlevel string_eq.dec

instance unfoldable pub session_reference_eq : Eq SessionReference
unfolding SessionReference-discrete
session_reference_eq = record { dec = SessionReference-discrete }

pub data ConversationState : Type 0 where
  live archived unknown : ConversationState

pub data ProvenanceKind : Type 0 where
  project_local external_local host_runtime : ProvenanceKind

pub record ConversationProvenance : Type 0 where
  pub source_id : String
  pub kind : ProvenanceKind
  pub path : Option FilePath

unfoldable pub ConversationProvenance-discrete : Discrete ConversationProvenance
unfolding string_eq
ConversationProvenance-discrete = hlevel string_eq.dec

instance unfoldable pub conversation_provenance_eq : Eq ConversationProvenance
unfolding ConversationProvenance-discrete
conversation_provenance_eq = record { dec = ConversationProvenance-discrete }

pub data ResumeCapability : Type 0 where
  unsupported : ResumeCapability
  supported : String → ResumeCapability

pub record Conversation : Type 0 where
  pub tool : String
  pub session_reference : SessionReference
  pub project_identity : FilePath
  pub title : Option String
  pub created_at : Option ℕ
  pub archived_at : Option ℕ
  pub updated_at : ℕ
  pub state : ConversationState
  pub provenance : List ConversationProvenance
  pub resume : ResumeCapability
