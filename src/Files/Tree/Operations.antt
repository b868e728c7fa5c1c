-- ===== src/Files/Tree/Operations.antt =====
-- Every operation of the tree of src/files/tree.rs keeps its shape.
use herdr_context.Base.{
  ℕ, ◌≡◌, refl, subst, ap, ◌∙◌, Bool, not, Option, some, List, [], map, retain, take, nat_eq,
  list_eq, inl, inr, Bool-cases,
}
use herdr_context.Base.Order.{nat_ord, list_ord}
use herdr_context.Base.Map
use herdr_context.Base.Map.{Map}
use herdr_context.Base.BTreeMap
use herdr_context.Base.BTreeMap.Entries
use herdr_context.Base.Paths.{RelPath}
use herdr_context.Vcs.Status.{VcsStatusKind, VcsStatusSnapshot}
use herdr_context.Files.Nodes.{TreeNode, ChangedFile, DirectorySnapshot}
use herdr_context.Files.Children.{keyed, overlaid, is_virtual, group_children}
use herdr_context.Files.Tree.{
  FilesTree, new, rebuild_children, restore_selection, restore_selection_from, select,
  apply_directory, with_statuses, search_index, stays, fresh_nodes, sync_status_overlay_from,
}
use herdr_context.Files.Merge.{Metadata, merge_workspace_status}
use herdr_context.Files.Tree.Shape.{IsKeyed, keyed_lem}
use herdr_context.Files.Tree.Invariant.{IsWellShaped, restored-IsWellShaped}

-- A call on the tree, with what it is given.
pub data Operation (I : Type 0) : Type 0 where
  selects : RelPath → Operation I
  restores : Option RelPath → Operation I
  applies : DirectorySnapshot → Operation I
  merges : VcsStatusSnapshot → RelPath → Operation I
  indexes : ℕ → Operation I
  syncs : FilesTree I → Operation I

loaded-IsKeyed :
    (nodes : List TreeNode) (m : Map RelPath TreeNode)
    → IsKeyed m
    → IsKeyed (BTreeMap.extend (map keyed nodes) m)
loaded-IsKeyed nodes m keys =
    Entries.extend-AllEntries (λ path node. node.path ≡ path) (map keyed nodes) m (keyed_lem nodes)
      keys

module _ {I : Type 0} (is_visible : I → RelPath → Bool)
    (symlink_metadata : RelPath → Metadata) where
  unfoldable pub perform : FilesTree I → Operation I → FilesTree I
  unfolding select rebuild_children
  perform tree (selects path) = (select tree path).0
  perform tree (restores selected) = restore_selection_from tree selected
  perform tree (applies snapshot) = apply_directory tree snapshot
  perform tree (merges snapshot prefix) =
      merge_workspace_status is_visible symlink_metadata tree snapshot prefix
  perform tree (indexes max_entries) = search_index tree max_entries
  perform tree (syncs source) = sync_status_overlay_from tree source

module _ {I : Type 0} where
  with_statuses-IsWellShaped :
      (tree : FilesTree I) (statuses : Map RelPath VcsStatusKind) (changed : List ChangedFile)
      (virtual_nodes : List TreeNode)
      → IsWellShaped tree
      → IsWellShaped (with_statuses tree statuses changed virtual_nodes)
  with_statuses-IsWellShaped tree statuses changed virtual_nodes h =
      let real = BTreeMap.retain (λ _ node. not (is_virtual node)) tree.nodes in
      let nodes = BTreeMap.map_values (λ _ node. overlaid statuses node) real in
      let real_keys : IsKeyed real =
        Entries.retain-AllEntries (λ path node. node.path ≡ path) (λ _ node. not (is_virtual node))
          tree.nodes h.keyed in
      let keys : IsKeyed nodes =
        Entries.map_values-AllEntries (λ path node. node.path ≡ path)
          (λ path node. node.path ≡ path) (λ _ node. overlaid statuses node) real (λ _ _ key. key)
          real_keys in
      restored-IsWellShaped
        (record tree {
          nodes = BTreeMap.extend (map keyed virtual_nodes) nodes;
          statuses = statuses;
          changed_files = changed;
        })
        (loaded-IsKeyed virtual_nodes nodes keys)
        (BTreeMap.extend-IsDistinct (map keyed virtual_nodes) nodes (
          BTreeMap.map_values-IsDistinct (λ _ node. overlaid statuses node) real
            (BTreeMap.retain-IsDistinct (λ _ node. not (is_virtual node)) tree.nodes h.once)))

  pub apply_directory-IsWellShaped :
      (tree : FilesTree I) (snapshot : DirectorySnapshot)
      → IsWellShaped tree
      → IsWellShaped (apply_directory tree snapshot)
  unfolding apply_directory
  apply_directory-IsWellShaped tree snapshot h =
      let kept = BTreeMap.retain (stays tree snapshot) tree.nodes in
      let fresh = fresh_nodes tree snapshot in
      let nodes = BTreeMap.extend (map keyed fresh) kept in
      restored-IsWellShaped (record tree { nodes = nodes })
        (loaded-IsKeyed fresh kept (
          Entries.retain-AllEntries (λ path node. node.path ≡ path) (stays tree snapshot) tree.nodes
            h.keyed))
        (BTreeMap.extend-IsDistinct (map keyed fresh) kept
          (BTreeMap.retain-IsDistinct (stays tree snapshot) tree.nodes h.once))

  select-IsWellShaped :
      (tree : FilesTree I) (path : RelPath) → IsWellShaped tree → IsWellShaped (select tree path).0
  unfolding select rebuild_children
  select-IsWellShaped tree path h = elim (Bool-cases (BTreeMap.contains_key path tree.nodes)) [
    | inl there ↦ rw there (record {
      keyed = h.keyed;
      once = h.once;
      listed = ap (λ (t : FilesTree I). record t { selection = some path }) h.listed;
      selected = there;
    })
    | inr absent ↦ rw absent h
  ]

  restore-IsWellShaped :
      (tree : FilesTree I) (selected : Option RelPath)
      → IsWellShaped tree
      → IsWellShaped (restore_selection_from tree selected)
  unfolding restore_selection_from rebuild_children
  restore-IsWellShaped tree selected h =
      subst
        (λ (t : FilesTree I). IsWellShaped (restore_selection (record t { selection = selected })))
        h.listed (restored-IsWellShaped (record tree { selection = selected }) h.keyed h.once)

  search_index-IsWellShaped :
      (tree : FilesTree I) (max_entries : ℕ) → IsWellShaped (search_index tree max_entries)
  unfolding search_index
  search_index-IsWellShaped tree max_entries =
      let virtual_nodes = take max_entries (retain is_virtual (BTreeMap.values tree.nodes)) in
      restored-IsWellShaped
        (record tree { nodes = BTreeMap.extend (map keyed virtual_nodes) []; children = [] })
        (loaded-IsKeyed virtual_nodes [] tt)
        (BTreeMap.extend-IsDistinct (map keyed virtual_nodes) [] tt)

pub new-IsWellShaped : {I : Type 0} (ignore : I) → IsWellShaped (new ignore)
unfolding new rebuild_children BTreeMap.map_values group_children
new-IsWellShaped ignore = record { keyed = tt; once = tt; listed = refl; selected = tt }

-- Every operation keeps the shape of the tree, whatever it is given: each node is there once and
-- under its own path, the children lists are those of `rebuild_children`, and the selection is a
-- node or nothing. The snapshots, status entries and trees given need no such shape.
pub perform-IsWellShaped :
    {I : Type 0} (is_visible : I → RelPath → Bool) (symlink_metadata : RelPath → Metadata)
    (tree : FilesTree I) (operation : Operation I)
    → IsWellShaped tree
    → IsWellShaped (perform is_visible symlink_metadata tree operation)
unfolding perform merge_workspace_status sync_status_overlay_from
perform-IsWellShaped is_visible symlink_metadata tree (selects path) h =
    select-IsWellShaped tree path h
perform-IsWellShaped is_visible symlink_metadata tree (restores selected) h =
    restore-IsWellShaped tree selected h
perform-IsWellShaped is_visible symlink_metadata tree (applies snapshot) h =
    apply_directory-IsWellShaped tree snapshot h
perform-IsWellShaped is_visible symlink_metadata tree (merges snapshot prefix) h =
    with_statuses-IsWellShaped tree _ _ _ h
perform-IsWellShaped is_visible symlink_metadata tree (indexes max_entries) h =
    search_index-IsWellShaped tree max_entries
perform-IsWellShaped is_visible symlink_metadata tree (syncs source) h =
    with_statuses-IsWellShaped tree source.statuses source.changed_files
      (retain is_virtual (BTreeMap.values source.nodes)) h

-- What a directory's snapshot leaves at a path: the last node of the snapshot with this path, with
-- its status, and without one the node that was there, where it survives.
lookup-apply_directory :
    {I : Type 0} (tree : FilesTree I) (snapshot : DirectorySnapshot) (path : RelPath)
    → IsWellShaped tree
    → Map.lookup path (apply_directory tree snapshot).nodes
      ≡ BTreeMap.last_value path
          (map keyed (fresh_nodes tree snapshot))
          (BTreeMap.kept (stays tree snapshot path) (Map.lookup path tree.nodes))
unfolding apply_directory restore_selection rebuild_children
lookup-apply_directory tree snapshot path h =
    let fresh = map keyed (fresh_nodes tree snapshot) in
    BTreeMap.lookup-extend path fresh (BTreeMap.retain (stays tree snapshot) tree.nodes)
    ∙ ap (BTreeMap.last_value path fresh)
        (BTreeMap.lookup-retain path (stays tree snapshot) tree.nodes h.once)
