-- ===== src/Files/Merge.antt =====
-- `merge_workspace_status` of src/files/tree.rs: a status snapshot becomes the statuses of the tree.
pub mod Ranks
pub mod Rows
pub mod Missing
pub mod Given
pub mod Named
pub mod Standing
use herdr_context.Base.{
  ℕ, Bool, true, false, not, ◌&&◌, ◌||◌, Option, none, some, List, [], ◌∷◌, ◌++◌, map, ◌==◌, nat_eq,
  list_eq, option_eq, if◌then◌else◌,
}
use herdr_context.Base.Bytes.{split}
use herdr_context.Base.Map
use herdr_context.Base.Map.{Map}
use herdr_context.Base.Paths.{RelPath, strip_prefix}
use herdr_context.Vcs.Status.{
  VcsStatusKind, deleted, status_kind_eq, VcsEntryStatus, VcsStatusSnapshot,
}
use herdr_context.Files.Nodes.{
  TreeNodeKind, virtual, TreeNode, ChangedFile, insert_preferred_status,
  insert_status_with_ancestors, upsert_changed_file,
}
use herdr_context.Files.Tree.{FilesTree, with_statuses}

-- The three maps that the loop over the entries fills.
pub record Merge : Type 0 where
  pub statuses : Map RelPath VcsStatusKind
  pub virtual_candidates : Map RelPath VcsStatusKind
  pub changed : Map RelPath (VcsStatusKind × Bool)

abbrev pub empty_merge : Merge
empty_merge = record { statuses = []; virtual_candidates = []; changed = [] }

-- What `symlink_metadata` gives for a path.
pub data Metadata : Type 0 where
  found not_found unreadable : Metadata

-- The names of an entry's path, which is normalised.
abbrev pub names_of : List ℕ → RelPath
names_of bytes = split b'/' bytes

abbrev pub is_deleted : VcsEntryStatus → Bool
is_deleted entry =
    entry.kind == deleted
    || entry.index_state == some deleted
    || entry.worktree_state == some deleted

unfoldable pub merge_path : VcsEntryStatus → RelPath → Merge → Merge
merge_path entry path m = record m {
  statuses = insert_status_with_ancestors m.statuses path entry.kind;
  changed = upsert_changed_file m.changed path entry.kind false;
  virtual_candidates =
      if is_deleted entry
      then insert_preferred_status m.virtual_candidates path entry.kind
      else m.virtual_candidates;
}

unfoldable pub merge_source : VcsEntryStatus → RelPath → Merge → Merge
merge_source entry path m = record m {
  virtual_candidates = insert_preferred_status m.virtual_candidates path entry.kind;
}

abbrev pub rows_of_changed : Map RelPath (VcsStatusKind × Bool) → List ChangedFile
rows_of_changed [] = []
rows_of_changed ((path, (kind, missing)) ∷ rest) =
    record { path = path; kind = kind; missing = missing } ∷ rows_of_changed rest

-- The visible path inside the prefix, if the path is such a one.
abbrev pub shown : (RelPath → Bool) → RelPath → RelPath → Option RelPath
shown is_visible prefix path = elim (strip_prefix prefix path) [
  | none ↦ none
  | some relative ↦ if is_visible relative then some relative else none
]

abbrev pub shown_source : (RelPath → Bool) → RelPath → Option (List ℕ) → Option RelPath
shown_source is_visible prefix none = none
shown_source is_visible prefix (some source) = shown is_visible prefix (names_of source)

unfoldable pub merge_shown : VcsEntryStatus → Option RelPath → Merge → Merge
unfolding merge_path
merge_shown entry none m = m
merge_shown entry (some path) m = merge_path entry path m

unfoldable pub merge_shown_source : VcsEntryStatus → Option RelPath → Merge → Merge
unfolding merge_source
merge_shown_source entry none m = m
merge_shown_source entry (some path) m = merge_source entry path m

module _ (is_visible : RelPath → Bool) (prefix : RelPath) where
  unfoldable pub merge_entry : Merge → VcsEntryStatus → Merge
  unfolding merge_shown merge_shown_source
  merge_entry m entry =
      merge_shown_source entry (shown_source is_visible prefix entry.source_path)
        (merge_shown entry (shown is_visible prefix (names_of entry.path)) m)

  unfoldable pub merge_entries : Merge → List VcsEntryStatus → Merge
  merge_entries m [] = m
  merge_entries m (entry ∷ entries) = merge_entries (merge_entry m entry) entries

-- The loop over the candidates: those that are not on the disk become virtual nodes.
module _ (symlink_metadata : RelPath → Metadata) where
  unfoldable pub probe : Merge → List TreeNode → Map RelPath VcsStatusKind → Merge × List TreeNode
  probe m nodes [] = (m, nodes)
  probe m nodes ((path, status) ∷ candidates) = elim (symlink_metadata path) [
    | found ↦ probe m nodes candidates
    | unreadable ↦ probe m nodes candidates
    | not_found ↦
        probe
          (record m {
            statuses = insert_status_with_ancestors m.statuses path status;
            changed = upsert_changed_file m.changed path status true;
          })
          (nodes
            ++ (record { path = path; kind = virtual; status = some status; ignored = false }) ∷ [])
          candidates
  ]

module _ {I : Type 0} (is_visible : I → RelPath → Bool)
    (symlink_metadata : RelPath → Metadata) where
  unfoldable pub merge_workspace_status : FilesTree I → VcsStatusSnapshot → RelPath → FilesTree I
  merge_workspace_status tree snapshot files_prefix =
      let m = merge_entries (is_visible tree.ignore) files_prefix empty_merge snapshot.entries in
      let (m', virtual_nodes) = probe symlink_metadata m [] m.virtual_candidates in
      with_statuses tree m'.statuses (rows_of_changed m'.changed) virtual_nodes

  unfoldable pub merge_status : FilesTree I → VcsStatusSnapshot → FilesTree I
  merge_status tree snapshot = merge_workspace_status tree snapshot []
