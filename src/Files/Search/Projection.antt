-- ===== src/Files/Search/Projection.antt =====
-- The projection of a query of src/files/search.rs: the paths that match, the directories above
-- them, and the rows that are shown. The reads of the two cancellation flags, numbered in their
-- order, and the test of a searchable text are parameters; a `BTreeSet` is a list without order.
use herdr_context.Base.{
  ℕ, zero, suc, Bool, not, none, some, String, List, [], ◌∷◌, ◌++◌, length, ◌==◌, nat_eq, list_eq,
  if◌then◌else◌,
}
use herdr_context.Base.KeySet
use herdr_context.Base.Order.{nat_ord, list_ord}
use herdr_context.Base.Map
use herdr_context.Base.Paths.{RelPath}
use herdr_context.Files.Nodes.{directory, node_kind_eq, TreeNode}
use herdr_context.Files.Children.{is_directory}
use herdr_context.Files.Tree.{FilesTree, display_parent_of, children_of}
use herdr_context.Files.Search.{SearchablePaths}

pub record SearchProjection : Type 0 where
  pub matches : List RelPath
  pub expanded_context : List RelPath
  pub rows : List RelPath

-- What a loop on fuel gives; `stopped` where a flag was set.
pub data Walk {ℓ} (A : Type ℓ) : Type ℓ where
  out_of_fuel : Walk A
  stopped : Walk A
  finished : A → Walk A

unfoldable pub and_then {ℓ κ} : {A : Type ℓ} {B : Type κ} → Walk A → (A → Walk B) → Walk B
and_then out_of_fuel f = out_of_fuel
and_then stopped f = stopped
and_then (finished a) f = f a

module _ {I : Type 0} (stop : ℕ → Bool) (has_text : String → Bool) (index : FilesTree I) where
  unfoldable pub find_matches : ℕ → SearchablePaths → Walk (List RelPath × ℕ)
  find_matches n [] = finished ([], n)
  find_matches n ((path, indexed) ∷ m) =
      let rest = find_matches (suc n) m in
      if stop n
      then stopped
      else and_then rest (λ (matches, k).
        finished (if has_text indexed.normalized then path ∷ matches else matches, k))

  -- The loop over the ancestors of one match.
  unfoldable pub include_ancestors : ℕ → RelPath → List RelPath → Walk (List RelPath)
  include_ancestors zero path included = out_of_fuel
  include_ancestors (suc fuel) path included = elim (display_parent_of index path) [
    | none ↦ finished included
    | some [] ↦ finished included
    | some (name ∷ names) ↦
        include_ancestors fuel (name ∷ names) (KeySet.insert (name ∷ names) included)
  ]

  unfoldable pub include_all : ℕ → List RelPath → List RelPath → Walk (List RelPath × ℕ)
  include_all n [] included = finished (included, n)
  include_all n (path ∷ paths) included =
      if stop n
      then stopped
      else and_then (include_ancestors (suc (length path)) path included)
          (include_all (suc n) paths)

  unfoldable pub expanded : ℕ → List RelPath → Walk (List RelPath × ℕ)
  expanded n [] = finished ([], n)
  expanded n (path ∷ paths) =
      let rest = expanded (suc n) paths in
      if stop n
      then stopped
      else and_then rest (λ (context, k).
        finished
          (if is_directory (Map.lookup path index.nodes) then path ∷ context else context, k))

  -- The loop of `append_children` over the nodes of a directory, with its call on a directory
  -- among them as an argument.
  unfoldable pub append_nodes :
      (RelPath → List RelPath → ℕ → Walk (List RelPath × ℕ))
      → (included : List RelPath) → List TreeNode
      → List RelPath
      → ℕ
      → Walk (List RelPath × ℕ)
  append_nodes descend included [] rows n = finished (rows, n)
  append_nodes descend included (node ∷ nodes) rows n =
      let more = append_nodes descend included nodes in
      if stop n
      then stopped
      else if not (KeySet.contains node.path included)
      then more rows (suc n)
      else let shown = rows ++ node.path ∷ [] in
        if node.kind == directory
        then and_then (descend node.path shown (suc n)) (λ (below, k). more below k)
        else more shown (suc n)

  unfoldable pub append_children :
      (included : List RelPath) → ℕ → RelPath → List RelPath → ℕ → Walk (List RelPath × ℕ)
  append_children included zero dir rows n = out_of_fuel
  append_children included (suc fuel) dir rows n =
      append_nodes (append_children included fuel) included (children_of index dir) rows n

  -- On fuel for the depth of the rows.
  unfoldable pub project : ℕ → SearchablePaths → Walk SearchProjection
  project fuel searchable = and_then (find_matches 0 searchable) (λ (matches, found).
      and_then (include_all found matches matches) (λ (included, above).
        and_then (expanded above included) (λ (context, walked).
          and_then (append_children included fuel [] [] walked) (λ (rows, _).
            finished (record { matches = matches; expanded_context = context; rows = rows })))))
