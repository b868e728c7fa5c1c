-- ===== src/Files/View/Flight.antt =====
-- The Files view of src/files/mod.rs while a worker merges: the calls of src/runtime.rs in any order,
-- with the tree captured where a refresh starts.
pub mod Merges
use herdr_context.Base.{
  ℕ, zero, suc, ◌+◌, ◌≤◌, ◌<◌, ◌≡◌, refl, sym, subst, ap, ◌∙◌, Bool, true, false, not, ◌&&◌, ◌||◌,
  Option, none, some, String, List, [], ◌∷◌, arith, leb, ltb, saturating_add, u64_max, ◌==◌, nat_eq,
  list_eq, option_eq, if◌then◌else◌, inl, inr, ◌⊎◌, Bool-cases,
}
use herdr_context.Base.Results.{Result, ok, err}
use herdr_context.Base.Order.{nat_ord, list_ord}
use herdr_context.Base.BTreeMap
use herdr_context.Base.Paths.{RelPath}
use herdr_context.Vcs.Status.{VcsStatusSnapshot}
use herdr_context.Files.Nodes.{DirectorySnapshot}
use herdr_context.Files.Tree
use herdr_context.Files.Tree.{FilesTree}
use herdr_context.Files.Merge.{Metadata, merge_workspace_status}
use herdr_context.Files.Refresh
use herdr_context.Files.Refresh.{RefreshCoordinator}
use herdr_context.Files.View.{
  VcsDiffStats, StatusMergeInput, PreparedRefreshResult, FilesModel, new, select, apply_directory,
  mark_status_stale, request_refresh, begin_refresh, cancel_refresh_start, replace_tree, accept,
  complete_prepared_refresh, merged, prepare, status_merge_input, next_revision,
}
use herdr_context.Files.View.Stale.{
  is_current, finish_flag, restored_late, complete_prepared_refresh_lem,
}

-- The view with the job that is under way: its generation and the tree captured for it.
pub record System (I : Type 0) : Type 0 where
  pub model : FilesModel I
  pub flight : Option (ℕ × StatusMergeInput I)

pub data Event (I E : Type 0) : Type 0 where
  selects : RelPath → Event I E
  applies : DirectorySnapshot → Event I E
  replaces : FilesTree I → Event I E
  marks_stale requests starts : Event I E
  cancels : ℕ → Event I E
  completes : Result E VcsStatusSnapshot → Option VcsDiffStats → Event I E

-- The tree is captured for the generation that starts.
abbrev pub launched :
    {I : Type 0}
    → FilesModel I
    → Option ℕ
    → Option (ℕ × StatusMergeInput I)
    → Option (ℕ × StatusMergeInput I)
launched m none flight = flight
launched m (some generation) flight = some (generation, status_merge_input m)

module _ {I E : Type 0} (is_visible : I → RelPath → Bool) (symlink_metadata : RelPath → Metadata)
    (to_string : E → String) (fingerprint : VcsStatusSnapshot → ℕ) where
  -- The end of the job, with what its status command gave; the flag is that of the view.
  unfoldable pub land :
      System I → Result E VcsStatusSnapshot → Option VcsDiffStats → System I × Bool
  land s snapshot stats = elim s.flight [
    | none ↦ (s, false)
    | some (generation, input) ↦
        let (m, changed) =
          complete_prepared_refresh to_string s.model
            (prepare is_visible symlink_metadata fingerprint generation input snapshot stats) in
        (record { model = m; flight = none }, changed)
  ]

  unfoldable pub step : System I → Event I E → System I
  step s (selects path) = record s { model = (select s.model path).0 }
  step s (applies snapshot) = record s { model = apply_directory s.model snapshot }
  step s (replaces tree) = record s { model = replace_tree s.model tree }
  step s marks_stale = record s { model = (mark_status_stale s.model).0 }
  step s requests = record s { model = (request_refresh s.model).0 }
  step s starts =
      let (m, generation) = begin_refresh s.model in
      record { model = m; flight = launched m generation s.flight }
  step s (cancels generation) = record s { model = (cancel_refresh_start s.model generation).0 }
  step s (completes snapshot stats) = (land s snapshot stats).0

  unfoldable pub run : System I → List (Event I E) → System I
  run s [] = s
  run s (event ∷ events) = run (step s event) events

-- The trees differ in their selection at most.
abbrev pub SameFiles : {I : Type 0} → FilesTree I → FilesTree I → Type 0
SameFiles a b = record a { selection = none } ≡ record b { selection = none }

-- The captured tree is that of the view, or its revision tells that it is not.
abbrev pub Fresh : {I : Type 0} → FilesModel I → Option (ℕ × StatusMergeInput I) → Type 0
Fresh m none = Unit
Fresh m (some (_, input)) =
    (input.tree_revision ≤ m.tree_revision)
    × (input.workspace_prefix ≡ m.workspace_prefix)
    × ((input.tree_revision < m.tree_revision)
        ⊎ (u64_max ≤ m.tree_revision)
        ⊎ SameFiles input.tree m.tree)
