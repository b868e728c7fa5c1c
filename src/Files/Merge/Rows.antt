-- ===== src/Files/Merge/Rows.antt =====
-- The flat list of changed files that `merge_workspace_status` of src/files/tree.rs leaves.
use herdr_context.Base.{
  ◌≡◌, refl, Bool, true, false, ◌||◌, Option, none, some, List, [], ◌∷◌, nat_eq, list_eq,
}
use herdr_context.Base.Order.{nat_ord, list_ord, list_lt}
use herdr_context.Base.Map
use herdr_context.Base.Map.{Map}
use herdr_context.Base.BTreeMap.Sorted
use herdr_context.Base.Paths.{RelPath}
use herdr_context.Vcs.Status.{VcsStatusKind, VcsEntryStatus, VcsStatusSnapshot}
use herdr_context.Files.Nodes.{TreeNode, ChangedFile, preferred, upsert_changed_file}
use herdr_context.Files.Tree.{FilesTree, restore_selection, rebuild_children}
use herdr_context.Files.Merge.{
  Merge, Metadata, found, not_found, unreadable, empty_merge, names_of, shown, shown_source,
  merge_shown, merge_shown_source, merge_path, merge_source, merge_entry, merge_entries, probe,
  merge_workspace_status, rows_of_changed,
}

abbrev pub IsPathSorted : List ChangedFile → Type 0
IsPathSorted [] = Unit
IsPathSorted (row ∷ []) = Unit
IsPathSorted (row ∷ next ∷ rows) = (list_lt row.path next.path ≡ true) × IsPathSorted (next ∷ rows)

rows_of_changed-IsPathSorted :
    (changed : Map RelPath (VcsStatusKind × Bool))
    → Sorted.IsSorted changed
    → IsPathSorted (rows_of_changed changed)
unfolding list_ord
rows_of_changed-IsPathSorted [] h = tt
rows_of_changed-IsPathSorted (row ∷ []) h = tt
rows_of_changed-IsPathSorted (row ∷ next ∷ rows) h =
    (h.0, rows_of_changed-IsPathSorted (next ∷ rows) h.1)

upsert_changed_file-IsSorted :
    (changed : Map RelPath (VcsStatusKind × Bool)) (path : RelPath) (status : VcsStatusKind)
    (missing : Bool)
    → Sorted.IsSorted changed
    → Sorted.IsSorted (upsert_changed_file changed path status missing)
unfolding upsert_changed_file
upsert_changed_file-IsSorted changed path status missing h = go (Map.lookup path changed) refl
  where
    go :
        (o : Option (VcsStatusKind × Bool))
        → Map.lookup path changed ≡ o
        → Sorted.IsSorted (upsert_changed_file changed path status missing)
    go none e =
        rw (e, upsert_changed_file) (Sorted.insert-IsSorted path (status, missing) changed h)
    go (some (kind, was_missing)) e =
        rw (e, upsert_changed_file)
          (Sorted.insert-IsSorted path (preferred status kind, was_missing || missing) changed h)

merge_entry-IsSorted :
    (entry : VcsEntryStatus) (path source : Option RelPath) (m : Merge)
    → Sorted.IsSorted m.changed
    → Sorted.IsSorted (merge_shown_source entry source (merge_shown entry path m)).changed
unfolding merge_shown_source merge_source merge_shown merge_path
merge_entry-IsSorted entry none none m h = h
merge_entry-IsSorted entry none (some source) m h = h
merge_entry-IsSorted entry (some path) none m h =
    upsert_changed_file-IsSorted m.changed path entry.kind false h
merge_entry-IsSorted entry (some path) (some source) m h =
    upsert_changed_file-IsSorted m.changed path entry.kind false h

merge_entries-IsSorted :
    (is_visible : RelPath → Bool) (prefix : RelPath) (m : Merge) (entries : List VcsEntryStatus)
    → Sorted.IsSorted m.changed
    → Sorted.IsSorted (merge_entries is_visible prefix m entries).changed
unfolding merge_entries merge_entry
merge_entries-IsSorted is_visible prefix m [] h = h
merge_entries-IsSorted is_visible prefix m (entry ∷ entries) h =
    merge_entries-IsSorted is_visible prefix (merge_entry is_visible prefix m entry) entries (
      merge_entry-IsSorted entry (shown is_visible prefix (names_of entry.path))
        (shown_source is_visible prefix entry.source_path) m h)

probe-IsSorted :
    (symlink_metadata : RelPath → Metadata) (m : Merge) (nodes : List TreeNode)
    (candidates : Map RelPath VcsStatusKind)
    → Sorted.IsSorted m.changed
    → Sorted.IsSorted (probe symlink_metadata m nodes candidates).0.changed
unfolding probe
probe-IsSorted symlink_metadata m nodes [] h = h
probe-IsSorted symlink_metadata m nodes ((path, status) ∷ candidates) h =
    go (symlink_metadata path) refl
      (λ m' nodes'. probe-IsSorted symlink_metadata m' nodes' candidates)
  where
    go :
        (o : Metadata)
        → symlink_metadata path ≡ o
        → ((m' : Merge) (nodes' : List TreeNode)
            → Sorted.IsSorted m'.changed
            → Sorted.IsSorted (probe symlink_metadata m' nodes' candidates).0.changed)
        → Sorted.IsSorted (probe symlink_metadata m nodes ((path, status) ∷ candidates)).0.changed
    go found e ih = rw (e, probe) (ih m nodes h)
    go unreadable e ih = rw (e, probe) (ih m nodes h)
    go not_found e ih =
        rw (e, probe) (ih _ _ (upsert_changed_file-IsSorted m.changed path status true h))

-- The changed files that a merge leaves are in the strict order of their paths, so no path is
-- listed twice, whatever the order and the repetitions of the entries.
pub merge_workspace_status-IsPathSorted :
    {I : Type 0} (is_visible : I → RelPath → Bool) (symlink_metadata : RelPath → Metadata)
    (tree : FilesTree I) (snapshot : VcsStatusSnapshot) (prefix : RelPath)
    → IsPathSorted
        (merge_workspace_status is_visible symlink_metadata tree snapshot prefix).changed_files
unfolding merge_workspace_status restore_selection rebuild_children
merge_workspace_status-IsPathSorted is_visible symlink_metadata tree snapshot prefix =
    let m = merge_entries (is_visible tree.ignore) prefix empty_merge snapshot.entries in
    rows_of_changed-IsPathSorted (probe symlink_metadata m [] m.virtual_candidates).0.changed (
      probe-IsSorted symlink_metadata m [] m.virtual_candidates
        (merge_entries-IsSorted (is_visible tree.ignore) prefix empty_merge snapshot.entries tt))
