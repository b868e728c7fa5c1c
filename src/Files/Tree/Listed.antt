-- ===== src/Files/Tree/Listed.antt =====
-- The children of the tree of src/files/tree.rs: no list of `rebuild_children` names a node twice.
use herdr_context.Base.{
  ◌≡◌, refl, sym, subst, ◌∙◌, false, none, List, [], ◌∷◌, ◌++◌, arith, ◌==◌, nat_eq, list_eq, inl,
  inr, Bool-cases,
}
use herdr_context.Base.KeySet
use herdr_context.Base.Order.{nat_ord, list_ord}
use herdr_context.Base.Map
use herdr_context.Base.Map.{Map}
use herdr_context.Base.BTreeMap
use herdr_context.Base.BTreeMap.Entries
use herdr_context.Base.Paths.{RelPath}
use herdr_context.Files.Nodes.{TreeNode}
use herdr_context.Files.Children.{
  display_parent, child_lt, insert_child, sort_children, paths_at, group_children,
}
use herdr_context.Files.Tree.{FilesTree, rebuild_children}
use herdr_context.Files.Tree.Shape.{IsKeyed}
use herdr_context.Files.Tree.Ordered.{IsOrdered, rebuild_children-IsOrdered}
use herdr_context.Files.Tree.Listing.{
  shows, contains-rebuild_children, contains-insert_child, contains-sort_children, contains-append,
  contains-extended, paths_at-insert, same_path, paths_at-map_values,
}

insert_child-IsDistinct :
    (nodes : Map RelPath TreeNode) (x : RelPath) (xs : List RelPath)
    → KeySet.contains x xs ≡ false
    → KeySet.IsDistinct xs
    → KeySet.IsDistinct (insert_child nodes x xs)
unfolding insert_child KeySet.contains
insert_child-IsDistinct nodes x [] absent d = (refl, tt)
insert_child-IsDistinct nodes x (y ∷ ys) absent (once, d) = elim (Bool-cases (child_lt nodes x y)) [
  | inl before ↦ rw before (absent, (once, d))
  | inr after ↦ rw after (
    ground (arith, contains-insert_child nodes y x ys, absent, once),
    insert_child-IsDistinct nodes x ys (ground (arith, absent)) d,
  )
]

sort_children-IsDistinct :
    (nodes : Map RelPath TreeNode) (xs : List RelPath)
    → KeySet.IsDistinct xs
    → KeySet.IsDistinct (sort_children nodes xs)
unfolding sort_children
sort_children-IsDistinct nodes [] d = tt
sort_children-IsDistinct nodes (x ∷ xs) (once, d) =
    insert_child-IsDistinct nodes x (sort_children nodes xs)
      (contains-sort_children nodes x xs ∙ once) (sort_children-IsDistinct nodes xs d)

append-IsDistinct :
    (x : RelPath) (xs : List RelPath)
    → KeySet.contains x xs ≡ false
    → KeySet.IsDistinct xs
    → KeySet.IsDistinct (xs ++ x ∷ [])
unfolding KeySet.contains
append-IsDistinct x [] absent d = (refl, tt)
append-IsDistinct x (y ∷ ys) absent (once, d) = (
  ground (arith, contains-append y ys (x ∷ []), absent, once),
  append-IsDistinct x ys (ground (arith, absent)) d,
)

-- No key of the map is the path that the map does not hold.
other_keys :
    (path : RelPath) (m : Map RelPath TreeNode)
    → Map.lookup path m ≡ none
    → Entries.AllEntries (λ q _. (q == path) ≡ false) m
unfolding Map.lookup
other_keys path [] absent = tt
other_keys path ((q, node) ∷ m) absent =
    (ground (arith, absent), other_keys path m (ground (arith, absent)))

-- The paths still to come are not in the directory's list.
abbrev Unlisted : RelPath → Map RelPath (List RelPath) → Map RelPath TreeNode → Type 0
Unlisted dir children m =
    Entries.AllEntries (λ q _. KeySet.contains q (paths_at dir children) ≡ false) m

extended-Unlisted :
    (dir d path : RelPath) (children : Map RelPath (List RelPath)) (m : Map RelPath TreeNode)
    → Entries.AllEntries (λ q _. (q == path) ≡ false) m
    → Unlisted dir children m
    → Unlisted dir (BTreeMap.insert d (paths_at d children ++ path ∷ []) children) m
extended-Unlisted dir d path children [] others h = tt
extended-Unlisted dir d path children ((q, node) ∷ m) (other, others) (here, h) = (
  contains-extended dir d q path children ∙ ground (arith, here, other),
  extended-Unlisted dir d path children m others h,
)

extended-IsDistinct :
    (dir d path : RelPath) (children : Map RelPath (List RelPath))
    → KeySet.contains path (paths_at dir children) ≡ false
    → KeySet.IsDistinct (paths_at dir children)
    → KeySet.IsDistinct
        (paths_at dir (BTreeMap.insert d (paths_at d children ++ path ∷ []) children))
extended-IsDistinct dir d path children absent h = elim (Bool-cases (dir == d)) [
  | inl same ↦
      rw (paths_at-insert dir d (paths_at d children ++ path ∷ []) children, same)
        (rw (sym (same_path dir d same)) (append-IsDistinct path (paths_at dir children) absent h))
  | inr other ↦ rw (paths_at-insert dir d (paths_at d children ++ path ∷ []) children, other) h
]

group_children-IsDistinct :
    (nodes : Map RelPath TreeNode) (dir : RelPath) (m : Map RelPath TreeNode)
    (children : Map RelPath (List RelPath))
    → IsKeyed m
    → Map.IsDistinct m
    → Unlisted dir children m
    → KeySet.IsDistinct (paths_at dir children)
    → KeySet.IsDistinct (paths_at dir (group_children nodes (BTreeMap.values m) children))
unfolding group_children
group_children-IsDistinct nodes dir [] children keys once new d = d
group_children-IsDistinct nodes dir ((path, node) ∷ m) children (key, keys) (absent, once)
      (here, new) d =
    let parent = display_parent nodes node in
    let here' = subst (λ q. KeySet.contains q (paths_at dir children) ≡ false) (sym key) here in
    let absent' = subst (λ q. Map.lookup q m ≡ none) (sym key) absent in
    group_children-IsDistinct nodes dir m
      (BTreeMap.insert parent (paths_at parent children ++ node.path ∷ []) children) keys once
      (extended-Unlisted dir parent node.path children m (other_keys node.path m absent') new)
      (extended-IsDistinct dir parent node.path children here' d)

empty-Unlisted : (dir : RelPath) (m : Map RelPath TreeNode) → Unlisted dir [] m
unfolding KeySet.contains Map.lookup
empty-Unlisted dir [] = tt
empty-Unlisted dir (entry ∷ m) = (refl, empty-Unlisted dir m)

rebuild_children-IsDistinct :
    {I : Type 0} (tree : FilesTree I) (dir : RelPath)
    → IsKeyed tree.nodes
    → Map.IsDistinct tree.nodes
    → KeySet.IsDistinct (paths_at dir (rebuild_children tree).children)
unfolding rebuild_children Map.lookup
rebuild_children-IsDistinct tree dir keys once =
    let grouped = group_children tree.nodes (BTreeMap.values tree.nodes) [] in
    rw (paths_at-map_values tree.nodes dir grouped) (
      sort_children-IsDistinct tree.nodes (paths_at dir grouped) (
        group_children-IsDistinct tree.nodes dir tree.nodes [] keys once
          (empty-Unlisted dir tree.nodes) tt))

-- After `rebuild_children`, on a tree that holds each node once and under its own path, a path is
-- in the list of children of a directory exactly where it is a node and the directory is the one
-- that shows that node, and it is there once; the directories come first, and the paths are in their
-- order among them and among the others. So no node is lost, none is shown by two directories or
-- twice, and no list names a path that is no node.
pub rebuild_children-IsListed :
    {I : Type 0} (tree : FilesTree I) (dir p : RelPath)
    → IsKeyed tree.nodes
    → Map.IsDistinct tree.nodes
    → let listed = paths_at dir (rebuild_children tree).children in
      (KeySet.contains p listed ≡ shows tree.nodes dir (Map.lookup p tree.nodes))
      × KeySet.IsDistinct listed
      × IsOrdered tree.nodes listed
rebuild_children-IsListed tree dir p keys once = (
  contains-rebuild_children tree dir p keys once,
  rebuild_children-IsDistinct tree dir keys once,
  rebuild_children-IsOrdered tree dir,
)
