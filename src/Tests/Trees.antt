-- ===== src/Tests/Trees.antt =====
-- The files tree and the Files view at concrete inputs.
use herdr_context.Base.{
  ℕ, suc, ◌≤◌, ◌≡◌, Bool, true, false, none, some, List, [], ◌∷◌, length, nat_eq, list_eq,
  option_eq,
}
use herdr_context.Base.KeySet
use herdr_context.Base.Order.{nat_ord, list_ord}
use herdr_context.Base.Map
use herdr_context.Base.BTreeMap
use herdr_context.Base.Paths.{RelPath}
use herdr_context.Vcs.Status.{modified, deleted, VcsStatusSnapshot}
use herdr_context.Files.Nodes.{TreeNodeKind, TreeNode, DirectorySnapshot}
use herdr_context.Files.Children.{paths_at}
use herdr_context.Files.Tree.{FilesTree, new, rebuild_children, depth_loop}
use herdr_context.Files.Tree.Listing.{shows}
use herdr_context.Files.Tree.Ordered.{IsOrdered}
use herdr_context.Files.Tree.Listed.{rebuild_children-IsListed}
use herdr_context.Files.Tree.Invariant.{IsWellShaped}
use herdr_context.Files.Tree.Operations.{applies, perform, new-IsWellShaped, perform-IsWellShaped}
use herdr_context.Files.Tree.Depth.{depth_loop_lem}
use herdr_context.Files.Merge.{Metadata, not_found, merge_workspace_status}
use herdr_context.Files.Merge.Named.{named_level}
use herdr_context.Files.Merge.Standing.{restated, is_real, StandsAt, lookup-merge_workspace_status}
use herdr_context.Files.Merge.Rows.{IsPathSorted, merge_workspace_status-IsPathSorted}

-- The paths src, src/a and src/b.
abbrev src : List ℕ
src = 115 ∷ 114 ∷ 99 ∷ []

abbrev pub src_path : RelPath
src_path = src ∷ []

abbrev pub a_path : RelPath
a_path = src ∷ (97 ∷ []) ∷ []

abbrev b_path : RelPath
b_path = src ∷ (98 ∷ []) ∷ []

abbrev directory_node : TreeNode
directory_node = record {
  path = src_path;
  kind = TreeNodeKind.directory;
  status = none;
  ignored = false;
}

abbrev file_node : RelPath → TreeNode
file_node path = record { path = path; kind = TreeNodeKind.file; status = none; ignored = false }

abbrev empty_tree : FilesTree (Unit {0})
empty_tree = new tt

abbrev pub root_snapshot : DirectorySnapshot
root_snapshot = record { directory = []; nodes = directory_node ∷ [] }

abbrev src_snapshot : DirectorySnapshot
src_snapshot = record { directory = src_path; nodes = file_node a_path ∷ [] }

abbrev pub all_visible : Unit {0} → RelPath → Bool
all_visible _ _ = true

abbrev pub nothing_on_disk : RelPath → Metadata
nothing_on_disk _ = not_found

-- One modified file and one deleted file.
abbrev pub statuses : VcsStatusSnapshot
statuses = record {
  entries =
      (record {
        path = 115 ∷ 114 ∷ 99 ∷ 47 ∷ 97 ∷ [];
        source_path = none;
        kind = modified;
        index_state = none;
        worktree_state = some modified;
      })
      ∷ (record {
        path = 115 ∷ 114 ∷ 99 ∷ 47 ∷ 98 ∷ [];
        source_path = none;
        kind = deleted;
        index_state = none;
        worktree_state = some deleted;
      })
      ∷ [];
  stale = false;
}

abbrev root_tree : FilesTree (Unit {0})
root_tree = perform all_visible nothing_on_disk empty_tree (applies root_snapshot)

perform-IsWellShaped_example : IsWellShaped root_tree
perform-IsWellShaped_example =
    perform-IsWellShaped all_visible nothing_on_disk empty_tree (applies root_snapshot)
      (new-IsWellShaped tt)

abbrev pub src_tree : FilesTree (Unit {0})
src_tree = perform all_visible nothing_on_disk root_tree (applies src_snapshot)

pub src_tree-IsWellShaped : IsWellShaped src_tree
src_tree-IsWellShaped =
    perform-IsWellShaped all_visible nothing_on_disk root_tree (applies src_snapshot) (
      perform-IsWellShaped all_visible nothing_on_disk empty_tree (applies root_snapshot)
        (new-IsWellShaped tt))

rebuild_children-IsListed_example :
    let listed = paths_at src_path (rebuild_children src_tree).children in
    (KeySet.contains a_path listed
      ≡ shows src_tree.nodes src_path (Map.lookup a_path src_tree.nodes))
    × KeySet.IsDistinct listed
    × IsOrdered src_tree.nodes listed
rebuild_children-IsListed_example =
    rebuild_children-IsListed src_tree src_path a_path src_tree-IsWellShaped.keyed
      src_tree-IsWellShaped.once

depth_loop_lem_example :
    (d : ℕ) × (depth_loop src_tree (suc (length a_path)) a_path 0 ≡ some d) × (d ≤ length a_path)
depth_loop_lem_example = depth_loop_lem src_tree a_path src_tree-IsWellShaped

lookup-merge_workspace_status_example :
    let merged = merge_workspace_status all_visible nothing_on_disk src_tree statuses [] in
    StandsAt b_path
      (nothing_on_disk b_path)
      (named_level (all_visible src_tree.ignore) [] b_path 8 statuses.entries)
      (Map.lookup b_path merged.nodes)
      (BTreeMap.changed
        (restated merged.statuses)
        (BTreeMap.kept is_real (Map.lookup b_path src_tree.nodes)))
lookup-merge_workspace_status_example =
    lookup-merge_workspace_status all_visible nothing_on_disk src_tree statuses [] b_path
      src_tree-IsWellShaped

merge_workspace_status-IsPathSorted_example :
    IsPathSorted
      (merge_workspace_status all_visible nothing_on_disk src_tree statuses []).changed_files
merge_workspace_status-IsPathSorted_example =
    merge_workspace_status-IsPathSorted all_visible nothing_on_disk src_tree statuses []
