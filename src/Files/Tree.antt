-- ===== src/Files/Tree.antt =====
-- The files tree of src/files/tree.rs. The ignore policy and the disk are parameters: whether a
-- path is visible, and what `symlink_metadata` finds.
pub mod Shape
pub mod Invariant
pub mod Depth
pub mod Statuses
pub mod Operations
pub mod Listing
pub mod Listed
pub mod Ordered
use herdr_context.Base.{
  ℕ, zero, suc, Bool, true, false, not, ◌&&◌, ◌||◌, Option, none, some, List, [], ◌∷◌, ◌++◌, map,
  any, find, retain, take, ltb, saturating_add, u64_max, ◌==◌, nat_eq, list_eq, option_eq,
  if◌then◌else◌,
}
use herdr_context.Base.Bytes.{split}
use herdr_context.Base.KeySet
use herdr_context.Base.Order.{nat_ord, list_ord, list_lt}
use herdr_context.Base.Map
use herdr_context.Base.Map.{Map}
use herdr_context.Base.BTreeMap
use herdr_context.Base.Paths.{RelPath, above, first, parent, or_root, strip_prefix}
use herdr_context.Vcs.Status.{
  VcsStatusKind, deleted, status_kind_eq, VcsEntryStatus, VcsStatusSnapshot,
}
use herdr_context.Files.Nodes.{
  TreeNodeKind, directory, file, symlink, virtual, node_kind_eq, TreeNode, ChangedFile,
  DirectorySnapshot, node_order, is_root, insert_preferred_status, insert_status_with_ancestors,
  upsert_changed_file,
}
use herdr_context.Files.Children.{
  is_virtual, is_directory, display_parent, sort_children, paths_at, group_children, nodes_at,
  keyed, overlaid, survives,
}

pub record FilesTree (I : Type 0) : Type 0 where
  pub ignore : I
  pub nodes : Map RelPath TreeNode
  pub statuses : Map RelPath VcsStatusKind
  pub changed_files : List ChangedFile
  pub children : Map RelPath (List RelPath)
  pub selection : Option RelPath

abbrev pub or_path : Option RelPath → Option RelPath → Option RelPath
or_path (some path) other = some path
or_path none other = other

module _ {I : Type 0} where
  -- `for_workspace` and the other constructors, once they have their ignore policy.
  unfoldable pub new : I → FilesTree I
  new ignore = record {
    ignore = ignore;
    nodes = [];
    statuses = [];
    changed_files = [];
    children = [];
    selection = none;
  }

  unfoldable pub display_parent_of : FilesTree I → RelPath → Option RelPath
  display_parent_of tree path = elim (Map.lookup path tree.nodes) [
    | none ↦ none
    | some node ↦ some (display_parent tree.nodes node)
  ]

  -- The loop of `display_depth`, on fuel.
  unfoldable pub depth_loop : FilesTree I → ℕ → RelPath → ℕ → Option ℕ
  depth_loop tree zero current depth = none
  depth_loop tree (suc fuel) current depth = elim (display_parent_of tree current) [
    | none ↦ some depth
    | some [] ↦ some depth
    | some (name ∷ names) ↦ depth_loop tree fuel (name ∷ names) (saturating_add u64_max depth 1)
  ]

  unfoldable pub display_path : FilesTree I → RelPath → RelPath
  display_path tree path = elim (display_parent_of tree path) [
    | none ↦ path
    | some parent ↦ elim (strip_prefix parent path) [
      | none ↦ path
      | some relative ↦ if is_root relative then path else relative
    ]
  ]

  unfoldable pub rebuild_children : FilesTree I → FilesTree I
  rebuild_children tree = record tree {
    children =
        BTreeMap.map_values (λ _ paths. sort_children tree.nodes paths)
          (group_children tree.nodes (BTreeMap.values tree.nodes) []);
  }

  unfoldable pub ordered_first_path : FilesTree I → Option RelPath
  ordered_first_path tree = first (paths_at [] tree.children)

  unfoldable pub restored : FilesTree I → Option RelPath → Option RelPath
  restored tree none = ordered_first_path tree
  restored tree (some selected) =
      if BTreeMap.contains_key selected tree.nodes
      then some selected
      else or_path (find (λ ancestor. BTreeMap.contains_key ancestor tree.nodes) (above selected))
          (ordered_first_path tree)

  unfoldable pub restore_selection : FilesTree I → FilesTree I
  restore_selection tree = record tree { selection = restored tree tree.selection }

  unfoldable pub restore_selection_from : FilesTree I → Option RelPath → FilesTree I
  restore_selection_from tree selected = restore_selection (record tree { selection = selected })

  unfoldable pub select : FilesTree I → RelPath → FilesTree I × Bool
  select tree path =
      if BTreeMap.contains_key path tree.nodes
      then (record tree { selection = some path }, true)
      else (tree, false)

  unfoldable pub children_of : FilesTree I → RelPath → List TreeNode
  children_of tree dir = nodes_at tree.nodes (paths_at dir tree.children)

  -- The paths that the directory had and the snapshot does not have.
  abbrev pub removed_paths : FilesTree I → DirectorySnapshot → List RelPath → List RelPath
  removed_paths tree snapshot loaded =
      map (λ node. node.path)
        (retain
          (λ node.
            not (is_virtual node)
            && or_root (parent node.path) == snapshot.directory
            && not (KeySet.contains node.path loaded))
          (BTreeMap.values tree.nodes))

  -- The paths that were directories and no longer are.
  abbrev pub replaced_directories : FilesTree I → List TreeNode → List RelPath
  replaced_directories tree loaded =
      map (λ node. node.path)
        (retain
          (λ node. not (node.kind == directory) && is_directory (Map.lookup node.path tree.nodes))
          loaded)

  -- The nodes of the snapshot with their statuses.
  abbrev pub fresh_nodes : FilesTree I → DirectorySnapshot → List TreeNode
  fresh_nodes tree snapshot = map (overlaid tree.statuses) snapshot.nodes

  -- The test that `retain` makes: which nodes the snapshot leaves.
  abbrev pub stays : FilesTree I → DirectorySnapshot → RelPath → TreeNode → Bool
  stays tree snapshot =
      let fresh = fresh_nodes tree snapshot in
      let loaded = map (λ node. node.path) fresh in
      survives snapshot loaded
        (removed_paths tree snapshot loaded ++ replaced_directories tree fresh)

  unfoldable pub apply_directory : FilesTree I → DirectorySnapshot → FilesTree I
  apply_directory tree snapshot =
      let kept = BTreeMap.retain (stays tree snapshot) tree.nodes in
      restore_selection (
        rebuild_children
          (record tree { nodes = BTreeMap.extend (map keyed (fresh_nodes tree snapshot)) kept }))

  -- The tree in which every virtual node is replaced and every status is the one of the map.
  abbrev pub with_statuses :
      FilesTree I → Map RelPath VcsStatusKind → List ChangedFile → List TreeNode → FilesTree I
  with_statuses tree statuses changed virtual_nodes =
      let real = BTreeMap.retain (λ _ node. not (is_virtual node)) tree.nodes in
      let nodes = BTreeMap.map_values (λ _ node. overlaid statuses node) real in
      restore_selection (
        rebuild_children (record tree {
          nodes = BTreeMap.extend (map keyed virtual_nodes) nodes;
          statuses = statuses;
          changed_files = changed;
        }))

  unfoldable pub search_index : FilesTree I → ℕ → FilesTree I
  search_index tree max_entries =
      let virtual_nodes = take max_entries (retain is_virtual (BTreeMap.values tree.nodes)) in
      restore_selection (
        rebuild_children
          (record tree { nodes = BTreeMap.extend (map keyed virtual_nodes) []; children = [] }))

  unfoldable pub sync_status_overlay_from : FilesTree I → FilesTree I → FilesTree I
  sync_status_overlay_from tree source =
      with_statuses tree source.statuses source.changed_files
        (retain is_virtual (BTreeMap.values source.nodes))
