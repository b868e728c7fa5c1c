-- ===== src/Files/Search/Descent.antt =====
-- The children of a directory in the search index of src/files/search.rs stand deeper than it.
use herdr_context.Base.{
  ℕ, ◌<◌, ◌≡◌, sym, subst, ◌∙◌, true, false, some, List, [], ◌∷◌, arith, All, length, ◌==◌, nat_eq,
  list_eq, inl, inr, Option-cases,
}
use herdr_context.Base.KeySet
use herdr_context.Base.Order.{nat_ord, list_ord}
use herdr_context.Base.Map
use herdr_context.Base.Map.{Map}
use herdr_context.Base.BTreeMap
use herdr_context.Base.BTreeMap.Entries
use herdr_context.Base.Paths.{RelPath}
use herdr_context.Files.Nodes.{node_kind_eq, TreeNode}
use herdr_context.Files.Children.{display_parent, paths_at, nodes_at}
use herdr_context.Files.Tree.{FilesTree, children_of}
use herdr_context.Files.Tree.Listing.{shows, contains-rebuild_children}
use herdr_context.Files.Tree.Invariant.{IsWellShaped}
use herdr_context.Files.Tree.Depth.{Below, display_parent-Below}

-- The path is a node that stands in the tree.
abbrev pub Stands : Map RelPath TreeNode → RelPath → Type 0
Stands nodes path = BTreeMap.contains_key path nodes ≡ true

-- The node is deeper than the directory, and its path has fewer names than the bound.
abbrev pub Under : Map RelPath TreeNode → ℕ → RelPath → TreeNode → Type 0
Under nodes bound dir node =
    (length dir < length node.path) × (length node.path < bound) × Stands nodes node.path

nodes_at-All :
    (P : TreeNode → Type 0) (nodes : Map RelPath TreeNode) (paths : List RelPath)
    → ((p : RelPath) (node : TreeNode)
        → KeySet.contains p paths ≡ true
        → Map.lookup p nodes ≡ some node
        → P node)
    → All P (nodes_at nodes paths)
unfolding KeySet.contains
nodes_at-All P nodes [] h = tt
nodes_at-All P nodes (path ∷ paths) h =
    let rest = nodes_at-All P nodes paths (λ p node there. h p node (ground (arith, there))) in
    elim (Option-cases (Map.lookup path nodes)) [
      | inl absent ↦ rw (absent, All) rest
      | inr (node, there) ↦ rw (there, All) (h path node (ground arith) there, rest)
    ]

deeper :
    (nodes : Map RelPath TreeNode) (dir path : RelPath)
    → BTreeMap.contains_key [] nodes ≡ false
    → Stands nodes path
    → Below (length path) dir
    → length dir < length path
deeper nodes [] [] rootless stands below = absurd (ground (arith, rootless, stands))
deeper nodes [] (name ∷ names) rootless stands below = omega arith
deeper nodes (name ∷ names) path rootless stands below = below

module _ {I : Type 0} (index : FilesTree I) (bound : ℕ) (h : IsWellShaped index)
    (few : Entries.AllEntries (λ path _. length path < bound) index.nodes)
    (rootless : BTreeMap.contains_key [] index.nodes ≡ false) where
  child-Under :
      (dir p : RelPath) (node : TreeNode)
      → KeySet.contains p (paths_at dir index.children) ≡ true
      → Map.lookup p index.nodes ≡ some node
      → Under index.nodes bound dir node
  child-Under dir p node listed there =
      let nodes = index.nodes in
      let (j, same, key) =
        Entries.lookup-AllEntries (λ path node. node.path ≡ path) p node nodes h.keyed there in
      let own : node.path ≡ p = key ∙ sym (ground (arith, same)) in
      let (i, equal, short) =
        Entries.lookup-AllEntries (λ path _. length path < bound) p node nodes few there in
      let i_is : i ≡ node.path = sym (ground (arith, equal)) ∙ sym own in
      let shown : shows nodes dir (Map.lookup p nodes) ≡ true =
        sym (contains-rebuild_children index dir p h.keyed h.once)
        ∙ subst (λ t. KeySet.contains p (paths_at dir t.children) ≡ true) (sym h.listed) listed in
      let hangs : (dir == display_parent nodes node) ≡ true = rw there at shown in
      let parent_is : dir ≡ display_parent nodes node = ground (arith, hangs) in
      let stands =
        subst (Stands nodes) (sym own) (BTreeMap.contains_key_of_lookup p nodes node there) in
      (
        deeper nodes dir node.path rootless stands
            (subst (Below (length node.path)) (sym parent_is) (display_parent-Below nodes node)),
        subst (λ q. length q < bound) i_is short,
        stands,
      )

  pub children_of-Under :
      (dir : RelPath) → All (Under index.nodes bound dir) (children_of index dir)
  unfolding children_of
  children_of-Under dir =
      nodes_at-All (Under index.nodes bound dir) index.nodes (paths_at dir index.children)
        (child-Under dir)
