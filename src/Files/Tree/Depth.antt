-- ===== src/Files/Tree/Depth.antt =====
-- The loop of `display_depth` in src/files/tree.rs ends.
use herdr_context.Base.{
  ℕ, zero, suc, ◌+◌, ◌≤◌, ◌<◌, ◌≡◌, refl, sym, subst, ◌∙◌, Bool, ◌||◌, Option, none, some, List, [],
  ◌∷◌, arith, All, find, length, saturating_add, u64_max, nat_eq, list_eq, inl, inr, Bool-cases,
  Option-cases,
}
use herdr_context.Base.Order.{nat_ord, list_ord}
use herdr_context.Base.Map
use herdr_context.Base.Map.{Map}
use herdr_context.Base.BTreeMap.Entries
use herdr_context.Base.Paths.{RelPath, above, above_shorter, first, parent, or_root}
use herdr_context.Files.Nodes.{TreeNode, is_root}
use herdr_context.Files.Children.{display_parent, is_virtual, is_directory}
use herdr_context.Files.Tree.{FilesTree, display_parent_of, depth_loop}
use herdr_context.Files.Tree.Shape.{IsKeyed}
use herdr_context.Files.Tree.Invariant.{IsWellShaped}

-- Either the root or a path shorter than n.
abbrev pub Below : ℕ → RelPath → Type 0
Below n [] = Unit
Below n (name ∷ names) = suc (length names) < n

weaken : (n : ℕ) (path : RelPath) → length path < n → Below n path
weaken n [] h = tt
weaken n (name ∷ names) h = h

first-Below :
    (n : ℕ) (paths : List RelPath) → All (λ a. length a < n) paths → Below n (or_root (first paths))
first-Below n [] h = tt
first-Below n (path ∷ paths) (h, _) = weaken n path h

find-Below :
    (n : ℕ) (p : RelPath → Bool) (paths : List RelPath)
    → All (λ a. length a < n) paths
    → Below n (or_root (find p paths))
find-Below n p [] h = tt
find-Below n p (path ∷ paths) (h, hs) = elim (Bool-cases (p path)) [
  | inl hit ↦ rw hit (weaken n path h)
  | inr miss ↦ rw miss (find-Below n p paths hs)
]

pub display_parent-Below :
    (nodes : Map RelPath TreeNode) (node : TreeNode)
    → Below (length node.path) (display_parent nodes node)
unfolding display_parent parent
display_parent-Below nodes node = elim (Bool-cases (is_virtual node)) [
  | inl v ↦ rw v (
      find-Below (length node.path)
        (λ ancestor. is_root ancestor || is_directory (Map.lookup ancestor nodes)) (above node.path)
        (above_shorter node.path))
  | inr real ↦ rw real (first-Below (length node.path) (above node.path) (above_shorter node.path))
]

abbrev pub BelowOption : ℕ → Option RelPath → Type 0
BelowOption n none = Unit
BelowOption n (some path) = Below n path

pub display_parent_of-Below :
    {I : Type 0} (tree : FilesTree I) (path : RelPath)
    → IsKeyed tree.nodes
    → BelowOption (length path) (display_parent_of tree path)
unfolding display_parent_of
display_parent_of-Below tree path keys = elim (Option-cases (Map.lookup path tree.nodes)) [
  | inl absent ↦ rw (absent, BelowOption) tt
  | inr (node, there) ↦
      let (j, same, key) =
        Entries.lookup-AllEntries (λ path node. node.path ≡ path) path node tree.nodes keys there in
      let own : node.path ≡ path = key ∙ sym (ground (arith, same)) in
      rw (there, BelowOption)
        (subst (λ q. Below (length q) (display_parent tree.nodes node)) own
          (display_parent-Below tree.nodes node))
]

depth_loop-ends :
    {I : Type 0} (tree : FilesTree I) (fuel : ℕ) (path : RelPath) (depth : ℕ)
    → IsKeyed tree.nodes
    → length path < fuel
    → (d : ℕ) × (depth_loop tree fuel path depth ≡ some d) × (d ≤ depth + length path)
unfolding depth_loop
depth_loop-ends tree zero path depth keys enough = absurd (omega (arith, enough))
depth_loop-ends tree (suc fuel) path depth keys enough =
    go (display_parent_of tree path) refl (λ current next shorter.
      depth_loop-ends tree fuel current next keys (omega (arith, shorter, enough)))
  where
    Ends : ℕ → RelPath → ℕ → Type 0
    Ends n current next =
        (d : ℕ) × (depth_loop tree n current next ≡ some d) × (d ≤ next + length current)

    go :
        (above : Option RelPath)
        → display_parent_of tree path ≡ above
        → ((current : RelPath) (next : ℕ) → length current < length path → Ends fuel current next)
        → Ends (suc fuel) path depth
    go none e more = (depth, rw (e, depth_loop) refl, omega arith)
    go (some []) e more = (depth, rw (e, depth_loop) refl, omega arith)
    go (some (name ∷ names)) e more =
        let shorter : BelowOption (length path) (some (name ∷ names)) =
          rw e at (display_parent_of-Below tree path keys) in
        let next = saturating_add u64_max depth 1 in
        let (d, run, bound) = more (name ∷ names) next shorter in
        let step : next ≤ depth + 1 = ground arith in
        (d, rw (e, depth_loop) run, omega (arith, bound, step, shorter))

-- In a well-shaped tree the loop of `display_depth` ends for every path, after at most one round
-- more than the path has names, and the depth it gives is at most the number of names.
pub depth_loop_lem :
    {I : Type 0} (tree : FilesTree I) (path : RelPath)
    → IsWellShaped tree
    → (d : ℕ) × (depth_loop tree (suc (length path)) path 0 ≡ some d) × (d ≤ length path)
depth_loop_lem tree path h =
    let (d, run, bound) = depth_loop-ends tree (suc (length path)) path 0 h.keyed (omega arith) in
    (d, run, omega (arith, bound))
