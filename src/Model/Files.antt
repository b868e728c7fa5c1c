-- ===== src/Model/Files.antt =====
-- `FilesViewState` of src/model.rs: the state of the files view and its setters.
use herdr_context.Base.{ℕ, String, Bool, false, Option, none}
use herdr_context.Base.Paths.{FilePath}
use herdr_context.Model.State.{LoadingState}

pub record FilesViewState : Type 0 where
  pub selection : Option FilePath
  pub scroll : ℕ
  pub filter : String
  pub search_editing : Bool
  pub loading : LoadingState
  pub requested_generation : ℕ
  pub applied_generation : ℕ

unfoldable pub default : FilesViewState
default = record {
  selection = none;
  scroll = 0;
  filter = "";
  search_editing = false;
  loading = LoadingState.loading;
  requested_generation = 0;
  applied_generation = 0;
}

unfoldable pub set_selection : FilesViewState → Option FilePath → FilesViewState
set_selection s selection = record s { selection = selection }

unfoldable pub set_scroll : FilesViewState → ℕ → FilesViewState
set_scroll s scroll = record s { scroll = scroll }

unfoldable pub set_filter : FilesViewState → String → FilesViewState
set_filter s filter = record s { filter = filter }

unfoldable pub set_search_editing : FilesViewState → Bool → FilesViewState
set_search_editing s editing = record s { search_editing = editing }

unfoldable pub set_loading : FilesViewState → LoadingState → FilesViewState
set_loading s state = record s { loading = state }

unfoldable pub generations : FilesViewState → ℕ × ℕ
generations s = (s.requested_generation, s.applied_generation)

unfoldable pub set_generations : FilesViewState → ℕ → ℕ → FilesViewState
set_generations s requested applied = record s {
  requested_generation = requested;
  applied_generation = applied;
}
