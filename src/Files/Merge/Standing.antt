-- ===== src/Files/Merge/Standing.antt =====
-- The nodes that `merge_workspace_status` of src/files/tree.rs leaves, path by path.
use herdr_context.Base.{
  ℕ, ◌≡◌, refl, sym, ap, ◌∙◌, subst, Bool, true, false, not, ◌&&◌, Option, none, some, [], ◌∷◌, map,
  arith, nat_eq, list_eq, ◌==◌, ltb, if◌then◌else◌, inl, inr, Bool-cases,
}
use herdr_context.Base.Order.{nat_ord, list_ord}
use herdr_context.Base.Map
use herdr_context.Base.Map.{Map}
use herdr_context.Base.BTreeMap
use herdr_context.Base.Paths.{RelPath}
use herdr_context.Vcs.Status.{VcsStatusKind, status_kind_eq, VcsStatusSnapshot}
use herdr_context.Files.Nodes.{directory, file, symlink, virtual, TreeNode, node_kind_eq}
use herdr_context.Files.Children.{is_virtual, overlaid, keyed}
use herdr_context.Files.Tree.{FilesTree}
use herdr_context.Files.Tree.Invariant.{IsWellShaped}
use herdr_context.Files.Merge.{
  Metadata, found, not_found, unreadable, empty_merge, merge_workspace_status,
}
use herdr_context.Files.Merge.Ranks.{missing_nodes, candidates_of, lookup-merged}
use herdr_context.Files.Merge.Given.{level, level-rank}
use herdr_context.Files.Merge.Named.{named_level, merge_entries-Named}

abbrev pub is_missing : Metadata → Bool
is_missing found = false
is_missing unreadable = false
is_missing not_found = true

abbrev pub is_real : TreeNode → Bool
is_real node = elim node.kind [ directory ↦ true | file ↦ true | symlink ↦ true | virtual ↦ false ]

-- The node with its status in the map.
abbrev pub restated : Map RelPath VcsStatusKind → TreeNode → TreeNode
restated statuses node = record node { status = Map.lookup node.path statuses }

-- The node of the path once the candidates that are not on the disk have replaced what was there.
abbrev replaced : RelPath → Metadata → Option VcsStatusKind → Option TreeNode → Option TreeNode
replaced p not_found (some status) before =
    some (record { path = p; kind = virtual; status = some status; ignored = false })
replaced p _ _ before = before

module _ (symlink_metadata : RelPath → Metadata) where
  kept_node :
      (p : RelPath) (o : Metadata) (before : Option TreeNode) → replaced p o none before ≡ before
  kept_node p found before = refl
  kept_node p unreadable before = refl
  kept_node p not_found before = refl

  abbrev left_by : RelPath → Map RelPath VcsStatusKind → Option TreeNode → Option TreeNode
  left_by p c before = BTreeMap.last_value p (map keyed (missing_nodes symlink_metadata c)) before

  either_way : (b : Bool) (before : Option TreeNode) → before ≡ (if b then before else before)
  either_way true before = refl
  either_way false before = refl

  left_by-cons :
      (p q : RelPath) (k : VcsStatusKind) (c : Map RelPath VcsStatusKind) (before : Option TreeNode)
      → left_by p ((q, k) ∷ c) before
        ≡ left_by p c (if p == q then replaced q (symlink_metadata q) (some k) before else before)
  unfolding missing_nodes
  left_by-cons p q k c before = go (symlink_metadata q) refl
    where
      go :
          (o : Metadata)
          → symlink_metadata q ≡ o
          → left_by p ((q, k) ∷ c) before
            ≡ left_by p c
                (if p == q then replaced q (symlink_metadata q) (some k) before else before)
      go found e = rw (e, missing_nodes) (ap (left_by p c) (either_way (p == q) before))
      go unreadable e = rw (e, missing_nodes) (ap (left_by p c) (either_way (p == q) before))
      go not_found e = rw (e, missing_nodes) refl

  left_by-replaced :
      (p : RelPath) (c : Map RelPath VcsStatusKind) (before : Option TreeNode)
      → Map.IsDistinct c
      → left_by p c before ≡ replaced p (symlink_metadata p) (Map.lookup p c) before
  unfolding missing_nodes Map.lookup
  left_by-replaced p [] before d = sym (kept_node p (symlink_metadata p) before)
  left_by-replaced p ((q, k) ∷ c) before (absent, d) = elim (Bool-cases (p == q)) [
    | inl hit ↦
        let same : p ≡ q = ground (arith, hit) in
        let gone : Map.lookup p c ≡ none = subst (λ r. Map.lookup r c ≡ none) (sym same) absent in
        let new = replaced q (symlink_metadata q) (some k) before in
        left_by-cons p q k c before
        ∙ rw hit (
            left_by-replaced p c new d
            ∙ ap (λ found_there. replaced p (symlink_metadata p) found_there new) gone
            ∙ kept_node p (symlink_metadata p) new
            ∙ ap (λ r. replaced r (symlink_metadata r) (some k) before) (sym same))
    | inr miss ↦ left_by-cons p q k c before ∙ rw miss (left_by-replaced p c before d)
  ]

is_virtual-real : (node : TreeNode) → not (is_virtual node) ≡ is_real node
unfolding node_kind_eq
is_virtual-real node = ground arith

same_real :
    (statuses : Map RelPath VcsStatusKind) (there : Option TreeNode)
    → BTreeMap.changed (overlaid statuses) (BTreeMap.kept (λ node. not (is_virtual node)) there)
      ≡ BTreeMap.changed (restated statuses) (BTreeMap.kept is_real there)
same_real statuses none = refl
same_real statuses (some node) =
    ap (λ b. BTreeMap.changed (restated statuses) (if b then some node else none))
      (is_virtual-real node)

-- What stands at a path after a merge, by the level of the entries that name it as gone.
abbrev pub StandsAt :
    RelPath → Metadata → (level_named : ℕ) → Option TreeNode → (unnamed : Option TreeNode) → Type 0
StandsAt p o n node unnamed =
    if is_missing o && ltb n 8
    then ((status : VcsStatusKind) × (level (some status) ≡ n)
        × (node
            ≡ some (record { path = p; kind = virtual; status = some status; ignored = false })))
    else (node ≡ unnamed)

replaced-StandsAt :
    (p : RelPath) (o : Metadata) (candidate : Option VcsStatusKind) (n : ℕ)
    (before : Option TreeNode)
    → level candidate ≡ n
    → StandsAt p o n (replaced p o candidate before) before
replaced-StandsAt p found candidate n before e = refl
replaced-StandsAt p unreadable candidate n before e = refl
replaced-StandsAt p not_found none n before e = rw (sym e) refl
replaced-StandsAt p not_found (some status) n before e =
    let below : ltb n 8 ≡ true = ground (arith, e) in rw below (status, e, refl)

-- The node that a merge leaves at a path, in a well-shaped tree: where an entry names the path as
-- deleted, or as a source, in the workspace, and the path is not on the disk, a virtual node with the
-- strongest status of those entries; at any other path the real node that was there, if there was
-- one, with the status that the merge gives the path.
pub lookup-merge_workspace_status :
    {I : Type 0} (is_visible : I → RelPath → Bool) (symlink_metadata : RelPath → Metadata)
    (tree : FilesTree I) (snapshot : VcsStatusSnapshot) (prefix p : RelPath)
    → IsWellShaped tree
    → let merged = merge_workspace_status is_visible symlink_metadata tree snapshot prefix in
      StandsAt p
        (symlink_metadata p)
        (named_level (is_visible tree.ignore) prefix p 8 snapshot.entries)
        (Map.lookup p merged.nodes)
        (BTreeMap.changed
          (restated merged.statuses)
          (BTreeMap.kept is_real (Map.lookup p tree.nodes)))
unfolding Map.lookup
lookup-merge_workspace_status is_visible symlink_metadata tree snapshot prefix p h =
    let merged = merge_workspace_status is_visible symlink_metadata tree snapshot prefix in
    let candidates = candidates_of is_visible symlink_metadata tree snapshot prefix in
    let (named, once) =
      merge_entries-Named (is_visible tree.ignore) prefix p empty_merge 8 snapshot.entries
        (refl, tt) in
    let node_is =
      lookup-merged is_visible symlink_metadata tree snapshot prefix p h
      ∙ left_by-replaced symlink_metadata p candidates _ once
      ∙ ap (replaced p (symlink_metadata p) (Map.lookup p candidates))
          (same_real merged.statuses (Map.lookup p tree.nodes)) in
    subst
      (λ node.
        StandsAt p (symlink_metadata p)
          (named_level (is_visible tree.ignore) prefix p 8 snapshot.entries) node
          (BTreeMap.changed (restated merged.statuses)
            (BTreeMap.kept is_real (Map.lookup p tree.nodes))))
      (sym node_is)
      (replaced-StandsAt p (symlink_metadata p) (Map.lookup p candidates) _ _
        (sym (level-rank (Map.lookup p candidates)) ∙ named))
