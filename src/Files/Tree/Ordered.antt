-- ===== src/Files/Tree/Ordered.antt =====
-- The order of the children in the tree of src/files/tree.rs: directories first, then by path.
use herdr_context.Base.{
  Bool, Option, none, some, sym, ◌∙◌, ◌⊎◌, if◌then◌else◌, ◌≡◌, true, false, List, [], ◌∷◌, arith,
  nat_eq, list_eq, inl, inr, Bool-cases,
}
use herdr_context.Base.Order.{nat_ord, list_ord, list_lt, list-lt_asym}
use herdr_context.Base.Map
use herdr_context.Base.Map.{Map}
use herdr_context.Base.BTreeMap
use herdr_context.Base.Paths.{RelPath}
use herdr_context.Files.Nodes.{directory, file, symlink, virtual, node_kind_eq, TreeNode}
use herdr_context.Files.Children.{
  order_at, child_lt, insert_child, sort_children, paths_at, group_children,
}
use herdr_context.Files.Tree.{FilesTree, rebuild_children}
use herdr_context.Files.Tree.Listing.{paths_at-map_values}

abbrev is_folder : Option TreeNode → Bool
is_folder none = false
is_folder (some node) = elim node.kind [
  | directory ↦ true
  | file ↦ false
  | symlink ↦ false
  | virtual ↦ false
]

-- The first of two neighbours is a directory and the second is none, or they are of one sort and
-- the second path is not the smaller one.
abbrev Follows : Map RelPath TreeNode → RelPath → RelPath → Type 0
Follows nodes x y =
    ((is_folder (Map.lookup x nodes) ≡ true) × (is_folder (Map.lookup y nodes) ≡ false))
    ⊎ (is_folder (Map.lookup x nodes) ≡ is_folder (Map.lookup y nodes)) × (list_lt y x ≡ false)

-- Directories come first, and the paths are in order among them and among the others.
abbrev pub IsOrdered : Map RelPath TreeNode → List RelPath → Type 0
IsOrdered nodes [] = Unit
IsOrdered nodes (x ∷ []) = Unit
IsOrdered nodes (x ∷ y ∷ ys) = Follows nodes x y × IsOrdered nodes (y ∷ ys)

order_at-is_folder :
    (nodes : Map RelPath TreeNode) (p : RelPath)
    → order_at nodes p ≡ (if is_folder (Map.lookup p nodes) then 0 else 1)
unfolding node_kind_eq
order_at-is_folder nodes p = ground arith

after_lem :
    (nodes : Map RelPath TreeNode) (x y : RelPath) → child_lt nodes y x ≡ false → Follows nodes x y
unfolding nat_eq
after_lem nodes x y h =
    let f = is_folder (Map.lookup x nodes) in
    let g = is_folder (Map.lookup y nodes) in
    let first = order_at-is_folder nodes x in
    let second = order_at-is_folder nodes y in
    elim (Bool-cases f) [
      | inl on ↦ elim (Bool-cases g) [
        | inl on' ↦ inr (on ∙ sym on', ground (arith, h, first, second, on, on'))
        | inr off' ↦ inl (on, off')
      ]
      | inr off ↦ elim (Bool-cases g) [
        | inl on' ↦ absurd (ground (arith, h, first, second, off, on'))
        | inr off' ↦ inr (off ∙ sym off', ground (arith, h, first, second, off, off'))
      ]
    ]

child_lt_asym :
    (nodes : Map RelPath TreeNode) (a b : RelPath)
    → child_lt nodes a b ≡ true
    → child_lt nodes b a ≡ false
unfolding nat_eq
child_lt_asym nodes a b h = ground (arith, h, list-lt_asym a b)

insert_child-IsOrdered :
    (nodes : Map RelPath TreeNode) (x : RelPath) (xs : List RelPath)
    → IsOrdered nodes xs
    → IsOrdered nodes (insert_child nodes x xs)
unfolding insert_child
insert_child-IsOrdered nodes x [] h = tt
insert_child-IsOrdered nodes x (y ∷ []) h = elim (Bool-cases (child_lt nodes x y)) [
  | inl before ↦ rw before (after_lem nodes x y (child_lt_asym nodes x y before), tt)
  | inr after ↦ rw after (after_lem nodes y x after, tt)
]
insert_child-IsOrdered nodes x (y ∷ z ∷ zs) (below, h) = elim (Bool-cases (child_lt nodes x y)) [
  | inl before ↦ rw before (after_lem nodes x y (child_lt_asym nodes x y before), (below, h))
  | inr after ↦ elim (Bool-cases (child_lt nodes x z)) [
    | inl next ↦
        rw (after, next)
          (after_lem nodes y x after, (after_lem nodes x z (child_lt_asym nodes x z next), h))
    | inr later ↦
        let ih = insert_child-IsOrdered nodes x (z ∷ zs) h in
        rw (after, later) (below, rw later at ih)
  ]
]

sort_children-IsOrdered :
    (nodes : Map RelPath TreeNode) (xs : List RelPath) → IsOrdered nodes (sort_children nodes xs)
unfolding sort_children
sort_children-IsOrdered nodes [] = tt
sort_children-IsOrdered nodes (x ∷ xs) =
    insert_child-IsOrdered nodes x (sort_children nodes xs) (sort_children-IsOrdered nodes xs)

pub rebuild_children-IsOrdered :
    {I : Type 0} (tree : FilesTree I) (dir : RelPath)
    → IsOrdered tree.nodes (paths_at dir (rebuild_children tree).children)
unfolding rebuild_children
rebuild_children-IsOrdered tree dir =
    let grouped = group_children tree.nodes (BTreeMap.values tree.nodes) [] in
    rw (paths_at-map_values tree.nodes dir grouped)
      (sort_children-IsOrdered tree.nodes (paths_at dir grouped))
