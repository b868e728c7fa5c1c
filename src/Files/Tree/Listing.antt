-- ===== src/Files/Tree/Listing.antt =====
-- The children of the tree of src/files/tree.rs: `rebuild_children` puts every node in one list.
use herdr_context.Base.{
  ◌≡◌, refl, sym, subst, ap, ◌∙◌, Bool, true, false, ◌&&◌, ◌||◌, Option, none, some, List, [], ◌∷◌,
  ◌++◌, arith, any, ◌==◌, nat_eq, list_eq, if◌then◌else◌, inl, inr, Bool-cases, Option-cases,
}
use herdr_context.Base.KeySet
use herdr_context.Base.Order.{nat_ord, list_ord}
use herdr_context.Base.Map
use herdr_context.Base.Map.{Map}
use herdr_context.Base.BTreeMap
use herdr_context.Base.Paths.{RelPath}
use herdr_context.Files.Nodes.{TreeNode}
use herdr_context.Files.Children.{
  display_parent, child_lt, insert_child, sort_children, paths_at, group_children,
}
use herdr_context.Files.Tree.{FilesTree, rebuild_children}
use herdr_context.Files.Tree.Shape.{IsKeyed}

pub contains-insert_child :
    (nodes : Map RelPath TreeNode) (p x : RelPath) (xs : List RelPath)
    → KeySet.contains p (insert_child nodes x xs) ≡ (p == x || KeySet.contains p xs)
unfolding KeySet.contains insert_child
contains-insert_child nodes p x [] = refl
contains-insert_child nodes p x (y ∷ ys) = elim (Bool-cases (child_lt nodes x y)) [
  | inl before ↦ rw before refl
  | inr after ↦ rw after (ground (arith, contains-insert_child nodes p x ys))
]

pub contains-sort_children :
    (nodes : Map RelPath TreeNode) (p : RelPath) (xs : List RelPath)
    → KeySet.contains p (sort_children nodes xs) ≡ KeySet.contains p xs
unfolding KeySet.contains sort_children
contains-sort_children nodes p [] = refl
contains-sort_children nodes p (x ∷ xs) =
    contains-insert_child nodes p x (sort_children nodes xs)
    ∙ ap (λ b. p == x || b) (contains-sort_children nodes p xs)

pub contains-append :
    (p : RelPath) (xs ys : List RelPath)
    → KeySet.contains p (xs ++ ys) ≡ (KeySet.contains p xs || KeySet.contains p ys)
unfolding KeySet.contains
contains-append p [] ys = refl
contains-append p (x ∷ xs) ys = ground (arith, contains-append p xs ys)

-- Some node with this path hangs below the directory.
abbrev hangs : Map RelPath TreeNode → RelPath → RelPath → List TreeNode → Bool
hangs nodes dir p ns = any (λ node. p == node.path && dir == display_parent nodes node) ns

pub paths_at-insert :
    (dir d : RelPath) (ps : List RelPath) (children : Map RelPath (List RelPath))
    → paths_at dir (BTreeMap.insert d ps children)
      ≡ (if dir == d then ps else paths_at dir children)
paths_at-insert dir d ps children = elim (Bool-cases (dir == d)) [
  | inl same ↦ rw (BTreeMap.lookup-insert dir d ps children, same) refl
  | inr other ↦ rw (BTreeMap.lookup-insert dir d ps children, other) refl
]

pub same_path : (p q : RelPath) → (p == q) ≡ true → p ≡ q
same_path p q h = ground (arith, h)

-- One more node of the group.
pub contains-extended :
    (dir d p path : RelPath) (children : Map RelPath (List RelPath))
    → KeySet.contains p
        (paths_at dir (BTreeMap.insert d (paths_at d children ++ path ∷ []) children))
      ≡ (KeySet.contains p (paths_at dir children) || p == path && dir == d)
unfolding KeySet.contains
contains-extended dir d p path children = elim (Bool-cases (dir == d)) [
  | inl same ↦
      rw (paths_at-insert dir d (paths_at d children ++ path ∷ []) children, same)
        (rw (contains-append p (paths_at d children) (path ∷ []), same_path dir d same)
          (ground arith))
  | inr other ↦
      rw (paths_at-insert dir d (paths_at d children ++ path ∷ []) children, other) (ground arith)
]

paths_at-group_children :
    (nodes : Map RelPath TreeNode) (dir p : RelPath) (ns : List TreeNode)
    (children : Map RelPath (List RelPath))
    → KeySet.contains p (paths_at dir (group_children nodes ns children))
      ≡ (KeySet.contains p (paths_at dir children) || hangs nodes dir p ns)
unfolding group_children
paths_at-group_children nodes dir p [] children = ground arith
paths_at-group_children nodes dir p (node ∷ ns) children =
    let parent = display_parent nodes node in
    let ih =
      paths_at-group_children nodes dir p ns
        (BTreeMap.insert parent (paths_at parent children ++ node.path ∷ []) children) in
    ground (arith, ih, contains-extended dir parent p node.path children)

-- The directory shows the node that the map has at a path.
abbrev pub shows : Map RelPath TreeNode → RelPath → Option TreeNode → Bool
shows nodes dir none = false
shows nodes dir (some node) = dir == display_parent nodes node

hangs_absent :
    (nodes : Map RelPath TreeNode) (dir p : RelPath) (m : Map RelPath TreeNode)
    → IsKeyed m
    → Map.lookup p m ≡ none
    → hangs nodes dir p (BTreeMap.values m) ≡ false
unfolding Map.lookup
hangs_absent nodes dir p [] keys absent = refl
hangs_absent nodes dir p ((path, node) ∷ m) keys absent =
    let key : node.path ≡ path = keys.0 in
    rw key (ground (arith, absent, hangs_absent nodes dir p m keys.1))

hangs-values :
    (nodes : Map RelPath TreeNode) (dir p : RelPath) (m : Map RelPath TreeNode)
    → IsKeyed m
    → Map.IsDistinct m
    → hangs nodes dir p (BTreeMap.values m) ≡ shows nodes dir (Map.lookup p m)
unfolding Map.lookup
hangs-values nodes dir p [] keys once = refl
hangs-values nodes dir p ((path, node) ∷ m) keys once =
    let key : node.path ≡ path = keys.0 in
    elim (Bool-cases (p == path)) [
      | inl hit ↦
          let rest =
            hangs_absent nodes dir p m keys.1
              (subst (λ q. Map.lookup q m ≡ none) (sym (same_path p path hit)) once.0) in
          rw (key, hit) (ground (arith, rest))
      | inr miss ↦ rw (key, miss) (hangs-values nodes dir p m keys.1 once.1)
    ]

pub paths_at-map_values :
    (nodes : Map RelPath TreeNode) (dir : RelPath) (children : Map RelPath (List RelPath))
    → paths_at dir (BTreeMap.map_values (λ _ paths. sort_children nodes paths) children)
      ≡ sort_children nodes (paths_at dir children)
unfolding sort_children
paths_at-map_values nodes dir children =
    let found = BTreeMap.lookup-map_values dir (λ _ paths. sort_children nodes paths) children in
    elim (Option-cases (Map.lookup dir children)) [
      | inl absent ↦ rw (found, absent) refl
      | inr (paths, there) ↦ rw (found, there) refl
    ]

-- What a rebuilt list holds.
pub contains-rebuild_children :
    {I : Type 0} (tree : FilesTree I) (dir p : RelPath)
    → IsKeyed tree.nodes
    → Map.IsDistinct tree.nodes
    → KeySet.contains p (paths_at dir (rebuild_children tree).children)
      ≡ shows tree.nodes dir (Map.lookup p tree.nodes)
unfolding rebuild_children KeySet.contains Map.lookup
contains-rebuild_children tree dir p keys once =
    let grouped = group_children tree.nodes (BTreeMap.values tree.nodes) [] in
    ap (KeySet.contains p) (paths_at-map_values tree.nodes dir grouped)
    ∙ contains-sort_children tree.nodes p (paths_at dir grouped)
    ∙ paths_at-group_children tree.nodes dir p (BTreeMap.values tree.nodes) []
    ∙ hangs-values tree.nodes dir p tree.nodes keys once
