-- ===== src/Files/View.antt =====
-- The Files view of src/files/mod.rs: the tree, the refresh gate, and the status results that a
-- worker prepares. The ignore policy, the disk, the errors of the version control system and the
-- hasher are parameters.
pub mod Stale
pub mod Flight
use herdr_context.Base.{
  ℕ, ◌+◌, Bool, true, false, not, Option, none, some, String, leb, saturating_add, u64_max, ◌==◌,
  nat_eq, if◌then◌else◌,
}
use herdr_context.Base.Results.{Result, ok, err}
use herdr_context.Base.Paths.{RelPath}
use herdr_context.Vcs.Status.{VcsStatusSnapshot}
use herdr_context.Files.Nodes.{DirectorySnapshot}
use herdr_context.Files.Tree
use herdr_context.Files.Tree.{FilesTree, restore_selection_from}
use herdr_context.Files.Merge.{Metadata, merge_workspace_status}
use herdr_context.Files.Refresh
use herdr_context.Files.Refresh.{RefreshCoordinator}

pub record VcsDiffStats : Type 0 where
  pub insertions : ℕ  -- u64
  pub deletions : ℕ  -- u64

pub record StatusMergeInput (I : Type 0) : Type 0 where
  pub tree : FilesTree I
  pub workspace_prefix : RelPath
  pub tree_revision : ℕ  -- u64

pub record PreparedRefreshResult (I E : Type 0) : Type 0 where
  pub generation : ℕ  -- u64
  pub tree_revision : ℕ  -- u64
  pub tree : Result E (FilesTree I × Bool)
  pub status_fingerprint : Option ℕ  -- u64
  pub diff_stats : Option VcsDiffStats

pub record FilesModel (I : Type 0) : Type 0 where
  pub tree : FilesTree I
  pub refresh : RefreshCoordinator
  pub workspace_prefix : RelPath
  pub failure_notice : Option String
  pub status_is_stale : Bool
  pub diff_stats : Option VcsDiffStats
  pub tree_revision : ℕ  -- u64

abbrev pub fingerprint_of :
    {E : Type 0} → (VcsStatusSnapshot → ℕ) → Result E VcsStatusSnapshot → Option ℕ
fingerprint_of fingerprint (ok snapshot) = some (fingerprint snapshot)
fingerprint_of fingerprint (err error) = none

abbrev pub next_revision : ℕ → ℕ
next_revision revision = saturating_add u64_max revision 1

module _ {I : Type 0} where
  -- The end of `build`, once the paths are canonical and the tree is there.
  unfoldable pub new : FilesTree I → RelPath → FilesModel I
  new tree prefix = record {
    tree = tree;
    refresh = Refresh.new;
    workspace_prefix = prefix;
    failure_notice = none;
    status_is_stale = false;
    diff_stats = none;
    tree_revision = 0;
  }

  unfoldable pub select : FilesModel I → RelPath → FilesModel I × Bool
  select m path =
      let (tree, selected) = Tree.select m.tree path in (record m { tree = tree }, selected)

  unfoldable pub apply_directory : FilesModel I → DirectorySnapshot → FilesModel I
  apply_directory m snapshot = record m {
    tree = Tree.apply_directory m.tree snapshot;
    tree_revision = next_revision m.tree_revision;
  }

  unfoldable pub mark_status_stale : FilesModel I → FilesModel I × Bool
  mark_status_stale m =
      if m.status_is_stale then (m, false) else (record m { status_is_stale = true }, true)

  unfoldable pub request_refresh : FilesModel I → FilesModel I × ℕ
  request_refresh m =
      let (refresh, generation) = Refresh.request m.refresh in
      (record m { refresh = refresh }, generation)

  unfoldable pub begin_refresh : FilesModel I → FilesModel I × Option ℕ
  begin_refresh m =
      let (refresh, generation) = Refresh.start_next m.refresh in
      (record m { refresh = refresh }, generation)

  unfoldable pub cancel_refresh_start : FilesModel I → ℕ → FilesModel I × Bool
  cancel_refresh_start m generation =
      let (refresh, cancelled) = Refresh.cancel_start m.refresh generation in
      (record m { refresh = refresh }, cancelled)

  unfoldable pub status_merge_input : FilesModel I → StatusMergeInput I
  status_merge_input m = record {
    tree = m.tree;
    workspace_prefix = m.workspace_prefix;
    tree_revision = m.tree_revision;
  }

  unfoldable pub replace_tree : FilesModel I → FilesTree I → FilesModel I
  replace_tree m tree = record m { tree = tree; tree_revision = next_revision m.tree_revision }

  module _ {E : Type 0} (to_string : E → String) where
    unfoldable pub accept :
        FilesModel I → Option VcsDiffStats → Result E (FilesTree I × Bool) → FilesModel I × Bool
    accept m stats (ok (tree, stale)) = (
      record m {
        tree = restore_selection_from tree m.tree.selection;
        failure_notice = none;
        status_is_stale = stale;
        diff_stats = stats;
      },
      true,
    )
    accept m stats (err error) = (record m { failure_notice = some (to_string error) }, false)

    unfoldable pub complete_prepared_refresh :
        FilesModel I → PreparedRefreshResult I E → FilesModel I × Bool
    complete_prepared_refresh m result =
        let (finished, current) = Refresh.finish m.refresh result.generation in
        let m' : FilesModel I = record m { refresh = finished } in
        if not current
        then (m', false)
        else if not (result.tree_revision == m.tree_revision)
        then (record m { refresh = (Refresh.request finished).0 }, false)
        else accept m' result.diff_stats result.tree

module _ {I E : Type 0} (is_visible : I → RelPath → Bool)
    (symlink_metadata : RelPath → Metadata) where
  -- The tree of the result: the merge, which does not fail, or the error of the snapshot.
  unfoldable pub merged :
      StatusMergeInput I → Result E VcsStatusSnapshot → Result E (FilesTree I × Bool)
  merged input (ok snapshot) = ok (
    merge_workspace_status is_visible symlink_metadata input.tree snapshot input.workspace_prefix,
    snapshot.stale,
  )
  merged input (err error) = err error

  unfoldable pub prepare :
      (VcsStatusSnapshot → ℕ)
      → ℕ
      → StatusMergeInput I
      → Result E VcsStatusSnapshot
      → Option VcsDiffStats
      → PreparedRefreshResult I E
  prepare fingerprint generation input snapshot stats = record {
    generation = generation;
    tree_revision = input.tree_revision;
    tree = merged input snapshot;
    status_fingerprint = fingerprint_of fingerprint snapshot;
    diff_stats = stats;
  }

  module _ (to_string : E → String) where
    unfoldable pub merge_now : FilesModel I → Result E VcsStatusSnapshot → FilesModel I × Bool
    merge_now m (ok snapshot) = (
      record m {
        tree =
            merge_workspace_status is_visible symlink_metadata m.tree snapshot m.workspace_prefix;
        tree_revision = next_revision m.tree_revision;
        failure_notice = none;
        status_is_stale = snapshot.stale;
        diff_stats = none;
      },
      true,
    )
    merge_now m (err error) = (record m { failure_notice = some (to_string error) }, false)

    -- The path without a worker.
    unfoldable pub complete_refresh :
        FilesModel I → ℕ → Result E VcsStatusSnapshot → FilesModel I × Bool
    complete_refresh m generation snapshot =
        let (finished, current) = Refresh.finish m.refresh generation in
        let m' : FilesModel I = record m { refresh = finished } in
        if not current then (m', false) else merge_now m' snapshot
