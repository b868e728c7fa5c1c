-- ===== src/Tests/Projections.antt =====
-- The projection of a query at a concrete index.
use herdr_context.Base.{
  ℕ, ◌<◌, length, ◌≡◌, refl, Bool, true, false, String, [], ◌∷◌, arith, nat_eq, list_eq,
}
use herdr_context.Base.Order.{nat_ord, list_ord}
use herdr_context.Base.Map
use herdr_context.Base.KeySet
use herdr_context.Base.Paths.{above, parent}
use herdr_context.Files.Children.{display_parent, sort_children, group_children, insert_child}
use herdr_context.Base.BTreeMap
use herdr_context.Base.BTreeMap.Entries
use herdr_context.Files.Tree.{
  new, apply_directory, restore_selection, rebuild_children, display_parent_of, children_of,
}
use herdr_context.Files.Tree.Operations.{perform}
use herdr_context.Files.Nodes.{file, node_kind_eq}
use herdr_context.Files.Search.{SearchablePaths}
use herdr_context.Files.Search.Projection.{
  finished, project, find_matches, include_all, include_ancestors, expanded, append_children,
  append_nodes, and_then,
}
use herdr_context.Files.Search.Loops.{Ends}
use herdr_context.Files.Search.Projected.{IsProjection, project-Ends}
use herdr_context.Tests.Trees.{src_path, a_path, src_tree, src_tree-IsWellShaped}

abbrev never : ℕ → Bool
never _ = false

abbrev any_text : String → Bool
any_text _ = true

abbrev searchable : SearchablePaths
searchable = (a_path, record { kind = file; normalized = "src/a" }) ∷ []

src_tree-Bounded :
    Entries.AllEntries (λ path _. length path < 3) src_tree.nodes
    × (BTreeMap.contains_key [] src_tree.nodes ≡ false)
unfolding perform apply_directory new restore_selection rebuild_children BTreeMap.extend
    BTreeMap.insert BTreeMap.place BTreeMap.overwrite BTreeMap.contains_key BTreeMap.retain
    node_kind_eq above KeySet.contains list_eq parent Map.lookup nat_eq list_ord
src_tree-Bounded = ((omega arith, (omega arith, tt)), refl)

project_run :
    project never any_text src_tree 3 searchable
    ≡ finished (record {
      matches = a_path ∷ [];
      expanded_context = src_path ∷ [];
      rows = src_path ∷ a_path ∷ [];
    })
unfolding perform apply_directory new restore_selection rebuild_children BTreeMap.extend
    BTreeMap.insert BTreeMap.place BTreeMap.overwrite BTreeMap.contains_key BTreeMap.retain
    node_kind_eq above KeySet.contains list_eq parent Map.lookup nat_eq list_ord project
    find_matches include_all include_ancestors expanded append_children append_nodes and_then
    display_parent_of display_parent children_of sort_children group_children insert_child
    KeySet.insert BTreeMap.map_values
project_run = refl

searchable-IsDistinct : Map.IsDistinct searchable
unfolding Map.lookup
searchable-IsDistinct = (refl, tt)

project-Ends_example :
    Ends never
      (IsProjection never any_text src_tree searchable)
      (project never any_text src_tree 3 searchable)
project-Ends_example =
    project-Ends never any_text src_tree 2 searchable src_tree-IsWellShaped src_tree-Bounded.1
      src_tree-Bounded.0 searchable-IsDistinct
