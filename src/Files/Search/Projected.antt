-- ===== src/Files/Search/Projected.antt =====
-- How the projection of src/files/search.rs ends, and what it gives.
use herdr_context.Base.{
  ℕ, zero, suc, ◌+◌, ◌≤◌, ◌<◌, ◌≡◌, Bool, false, String, List, [], ◌∷◌, ◌++◌, arith, All,
  All-append, length, ◌==◌, nat_eq, list_eq, inl, inr, Bool-cases,
}
use herdr_context.Base.KeySet
use herdr_context.Base.Order.{nat_ord, list_ord}
use herdr_context.Base.Map
use herdr_context.Base.Map.{Map}
use herdr_context.Base.BTreeMap
use herdr_context.Base.BTreeMap.Entries
use herdr_context.Base.Paths.{RelPath}
use herdr_context.Files.Nodes.{directory, node_kind_eq, TreeNode}
use herdr_context.Files.Tree.{FilesTree, children_of}
use herdr_context.Files.Tree.Invariant.{IsWellShaped}
use herdr_context.Files.Search.{SearchablePaths}
use herdr_context.Files.Search.Projection.{
  SearchProjection, Walk, find_matches, include_all, expanded, append_nodes, append_children,
  project,
}
use herdr_context.Files.Search.Descent.{Stands, Under, children_of-Under}
use herdr_context.Files.Search.Loops.{
  Ends, and_then-Ends, finds, From, IsGrounded, itself, IsShown, AreDirectories, AreFound,
  find_matches-Ends, include_all-Ends, expanded-Ends,
}

module _ {I : Type 0} (stop : ℕ → Bool) (has_text : String → Bool) (index : FilesTree I) where
  abbrev AreShown : List RelPath → List RelPath × ℕ → Type 0
  AreShown matches (rows, _) = IsShown index matches rows

  append_nodes-Ends :
      (matches : List RelPath) (bound : ℕ) (dir : RelPath)
      (descend : RelPath → List RelPath → ℕ → Walk (List RelPath × ℕ)) (included : List RelPath)
      (nodes : List TreeNode) (rows : List RelPath) (n : ℕ)
      → IsGrounded index matches included
      → ((path : RelPath) (rows : List RelPath) (n : ℕ)
          → length dir < length path
          → length path < bound
          → IsShown index matches rows
          → Ends stop (AreShown matches) (descend path rows n))
      → All (Under index.nodes bound dir) nodes
      → IsShown index matches rows
      → Ends stop
          (AreShown matches)
          (append_nodes stop has_text index descend included nodes rows n)
  unfolding append_nodes
  append_nodes-Ends matches bound dir descend included [] rows n grounded below under shown = shown
  append_nodes-Ends matches bound dir descend included (node ∷ nodes) rows n grounded below
        ((deep, short, stands), under) shown =
      let more = append_nodes stop has_text index descend included nodes in
      let ih = append_nodes-Ends matches bound dir descend included nodes in
      elim (Bool-cases (stop n)) [
        | inl set ↦ rw set (n, set)
        | inr quiet ↦ elim (Bool-cases (KeySet.contains node.path included)) [
          | inr out ↦ rw (quiet, out) (ih rows (suc n) grounded below under shown)
          | inl kept ↦
              let shown' : IsShown index matches (rows ++ node.path ∷ []) =
                All-append (λ q. Stands index.nodes q × From index matches q) rows (node.path ∷ [])
                  shown ((stands, grounded node.path kept), tt) in
              elim (Bool-cases (node.kind == directory)) [
                | inr file ↦
                    rw (quiet, kept, file)
                      (ih (rows ++ node.path ∷ []) (suc n) grounded below under shown')
                | inl dir' ↦
                    rw (quiet, kept, dir')
                      (and_then-Ends stop (AreShown matches) (AreShown matches)
                        (descend node.path (rows ++ node.path ∷ []) (suc n))
                        (λ (rows, k). more rows k)
                        (below node.path (rows ++ node.path ∷ []) (suc n) deep short shown')
                        (λ (rows, k) known. ih rows k grounded below under known))
              ]
        ]
      ]

  append_children-Ends :
      (matches : List RelPath) (bound : ℕ) (included : List RelPath) (fuel : ℕ) (dir rows : _)
      (n : ℕ)
      → IsGrounded index matches included
      → IsWellShaped index
      → Entries.AllEntries (λ path _. length path < bound) index.nodes
      → BTreeMap.contains_key [] index.nodes ≡ false
      → length dir < bound
      → bound ≤ fuel + length dir
      → IsShown index matches rows
      → Ends stop (AreShown matches) (append_children stop has_text index included fuel dir rows n)
  unfolding append_children
  append_children-Ends matches bound included zero dir rows n grounded h few rootless low enough
        shown =
      absurd (omega (arith, low, enough))
  append_children-Ends matches bound included (suc fuel) dir rows n grounded h few rootless low
        enough shown =
      append_nodes-Ends matches bound dir (append_children stop has_text index included fuel)
        included (children_of index dir) rows n grounded
        (λ path rows n deep short known.
          append_children-Ends matches bound included fuel path rows n grounded h few rootless short
            (omega (arith, deep, enough)) known)
        (children_of-Under index bound h few rootless dir) shown

  -- What a projection gives.
  abbrev pub IsProjection : SearchablePaths → SearchProjection → Type 0
  IsProjection searchable shown =
      ((p : RelPath) → KeySet.contains p shown.matches ≡ finds has_text (Map.lookup p searchable))
      × AreDirectories index.nodes shown.expanded_context
      × IsShown index shown.matches shown.rows

-- Where the index is well shaped, has no node at the root path, and none with more names than the
-- fuel, and the searchable paths are distinct, a projection never runs out of fuel: it stops only
-- where a cancellation flag is read as set, and otherwise its matches are exactly the searchable
-- paths whose texts the query finds, each of its rows is a node of the index that is a match or
-- above one in the display, and its expanded context is directories.
pub project-Ends :
    {I : Type 0} (stop : ℕ → Bool) (has_text : String → Bool) (index : FilesTree I) (fuel : ℕ)
    (searchable : SearchablePaths)
    → IsWellShaped index
    → BTreeMap.contains_key [] index.nodes ≡ false
    → Entries.AllEntries (λ path _. length path < suc fuel) index.nodes
    → Map.IsDistinct searchable
    → Ends stop
        (IsProjection stop has_text index searchable)
        (project stop has_text index (suc fuel) searchable)
unfolding project
project-Ends stop has_text index fuel searchable h rootless few once =
    and_then-Ends stop (AreFound stop has_text index searchable)
      (IsProjection stop has_text index searchable) (find_matches stop has_text index 0 searchable)
      _ (find_matches-Ends stop has_text index 0 searchable once)
      (λ (matches, found) exact.
        and_then-Ends stop (λ (included, _). IsGrounded index matches included)
          (IsProjection stop has_text index searchable)
          (include_all stop has_text index found matches matches) _
          (include_all-Ends stop has_text index matches found matches matches h.keyed
            (λ p there. there) (λ p there. (p, there, itself)))
          (λ (included, above) grounded.
            and_then-Ends stop (λ (context, _). AreDirectories index.nodes context)
              (IsProjection stop has_text index searchable)
              (expanded stop has_text index above included) _
              (expanded-Ends stop has_text index above included)
              (λ (context, walked) known.
                and_then-Ends stop (AreShown stop has_text index matches)
                  (IsProjection stop has_text index searchable)
                  (append_children stop has_text index included (suc fuel) [] [] walked) _
                  (append_children-Ends stop has_text index matches (suc fuel) included (suc fuel)
                    [] [] walked grounded h few rootless (omega arith) (omega arith) tt)
                  (λ (rows, _) shown. (exact, known, shown)))))
