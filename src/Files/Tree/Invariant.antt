-- ===== src/Files/Tree/Invariant.antt =====
-- What every operation of src/files/tree.rs keeps: each node once and under its own path, the
-- children lists of these nodes, and a selection that is a node.
use herdr_context.Base.{
  ◌≡◌, refl, sym, subst, ◌∙◌, Bool, true, Option, none, some, List, [], ◌∷◌, arith, find, nat_eq,
  list_eq, inl, inr, Bool-cases, Option-cases,
}
use herdr_context.Base.KeySet
use herdr_context.Base.Order.{nat_ord, list_ord}
use herdr_context.Base.Map
use herdr_context.Base.Map.{Map}
use herdr_context.Base.BTreeMap
use herdr_context.Base.Paths.{RelPath, above, first}
use herdr_context.Files.Nodes.{TreeNode}
use herdr_context.Files.Children.{paths_at}
use herdr_context.Files.Tree.{
  FilesTree, rebuild_children, restored, ordered_first_path, restore_selection,
}
use herdr_context.Files.Tree.Shape.{IsKeyed}
use herdr_context.Files.Tree.Listing.{contains-rebuild_children, shows}

abbrev pub IsNode : Map RelPath TreeNode → Option RelPath → Type 0
IsNode nodes none = Unit
IsNode nodes (some path) = BTreeMap.contains_key path nodes ≡ true

module _ {I : Type 0} where
  pub record IsWellShaped (tree : FilesTree I) : Type 0 where
    pub keyed : IsKeyed tree.nodes
    pub once : Map.IsDistinct tree.nodes
    pub listed : rebuild_children tree ≡ tree
    pub selected : IsNode tree.nodes tree.selection

find-passes {ℓ} :
    {A : Type ℓ} (p : A → Bool) (xs : List A) (x : A) → find p xs ≡ some x → p x ≡ true
find-passes p [] x h = absurd (ground arith)
find-passes p (y ∷ ys) x h = elim (Bool-cases (p y)) [
  | inl hit ↦ let same : y ≡ x = ground (arith, hit, h) in subst (λ z. p z ≡ true) same hit
  | inr miss ↦ find-passes p ys x (rw miss at h)
]

first-contained :
    (ps : List RelPath) (path : RelPath) → first ps ≡ some path → KeySet.contains path ps ≡ true
unfolding KeySet.contains
first-contained [] path h = absurd (ground arith)
first-contained (p ∷ ps) path h = ground (arith, h)

shown-IsNode :
    (nodes m : Map RelPath TreeNode) (dir path : RelPath)
    → shows nodes dir (Map.lookup path m) ≡ true
    → BTreeMap.contains_key path m ≡ true
shown-IsNode nodes m dir path h = elim (Option-cases (Map.lookup path m)) [
  | inl absent ↦ absurd (ground (arith, rw absent at h))
  | inr (node, there) ↦ BTreeMap.contains_key_of_lookup path m node there
]

module _ {I : Type 0} where
  ordered_first_path-IsNode :
      (tree : FilesTree I)
      → IsKeyed tree.nodes
      → Map.IsDistinct tree.nodes
      → IsNode tree.nodes (ordered_first_path (rebuild_children tree))
  unfolding ordered_first_path
  ordered_first_path-IsNode tree keys once =
      let ps = paths_at [] (rebuild_children tree).children in
      elim (Option-cases (first ps)) [
        | inl empty ↦ rw empty tt
        | inr (path, there) ↦ rw there (
            shown-IsNode tree.nodes tree.nodes [] path (
              sym (contains-rebuild_children tree [] path keys once)
              ∙ first-contained ps path there))
      ]

  restored-IsNode :
      (tree : FilesTree I) (selected : Option RelPath)
      → IsNode tree.nodes (ordered_first_path tree)
      → IsNode tree.nodes (restored tree selected)
  unfolding restored
  restored-IsNode tree none h = h
  restored-IsNode tree (some path) h = elim (Bool-cases (BTreeMap.contains_key path tree.nodes)) [
    | inl there ↦ rw there there
    | inr gone ↦
        elim (Option-cases
          (find (λ ancestor. BTreeMap.contains_key ancestor tree.nodes) (above path))) [
            | inl nothing ↦ rw (gone, nothing) h
            | inr (ancestor, hit) ↦
                rw (gone, hit)
                  (find-passes (λ q. BTreeMap.contains_key q tree.nodes) (above path) ancestor hit)
          ]
  ]

  -- A rebuilt tree with its selection restored.
  pub restored-IsWellShaped :
      (tree : FilesTree I)
      → IsKeyed tree.nodes
      → Map.IsDistinct tree.nodes
      → IsWellShaped (restore_selection (rebuild_children tree))
  unfolding restore_selection rebuild_children
  restored-IsWellShaped tree keys once = record {
    keyed = keys;
    once = once;
    listed = refl;
    selected =
        restored-IsNode (rebuild_children tree) tree.selection
          (ordered_first_path-IsNode tree keys once);
  }
