-- ===== src/Files/Children.antt =====
-- The places of the nodes in src/files/tree.rs: the directory that shows a node, and the children
-- of a directory in their order.
use herdr_context.Base.{
  ℕ, Bool, true, false, not, ◌&&◌, ◌||◌, Option, none, some, List, [], ◌∷◌, ◌++◌, any, find, ltb,
  ◌==◌, nat_eq, list_eq, option_eq, if◌then◌else◌,
}
use herdr_context.Base.KeySet
use herdr_context.Base.Order.{nat_ord, list_ord, list_lt}
use herdr_context.Base.Map
use herdr_context.Base.Map.{Map}
use herdr_context.Base.BTreeMap
use herdr_context.Base.Paths.{RelPath, above, parent, or_root}
use herdr_context.Vcs.Status.{VcsStatusKind, status_kind_eq}
use herdr_context.Files.Nodes.{
  directory, virtual, node_kind_eq, TreeNode, DirectorySnapshot, node_order, is_root,
}

abbrev pub is_virtual : TreeNode → Bool
is_virtual node = node.kind == virtual

abbrev pub is_directory : Option TreeNode → Bool
is_directory none = false
is_directory (some node) = node.kind == directory

-- The directory that shows the node: a virtual node hangs below the nearest directory there is.
unfoldable pub display_parent : Map RelPath TreeNode → TreeNode → RelPath
display_parent nodes node =
    if not (is_virtual node)
    then or_root (parent node.path)
    else or_root (
        find (λ ancestor. is_root ancestor || is_directory (Map.lookup ancestor nodes))
          (above node.path))

-- The sort key of a path that is a node.
abbrev pub order_at : Map RelPath TreeNode → RelPath → ℕ
order_at nodes path = elim (Map.lookup path nodes) [ none ↦ 1 | some node ↦ node_order node ]

abbrev pub child_lt : Map RelPath TreeNode → RelPath → RelPath → Bool
child_lt nodes a b =
    if order_at nodes a == order_at nodes b
    then list_lt a b
    else ltb (order_at nodes a) (order_at nodes b)

unfoldable pub insert_child : Map RelPath TreeNode → RelPath → List RelPath → List RelPath
insert_child nodes path [] = path ∷ []
insert_child nodes path (x ∷ xs) =
    if child_lt nodes path x then path ∷ x ∷ xs else x ∷ insert_child nodes path xs

unfoldable pub sort_children : Map RelPath TreeNode → List RelPath → List RelPath
sort_children nodes [] = []
sort_children nodes (path ∷ paths) = insert_child nodes path (sort_children nodes paths)

abbrev pub or_empty : Option (List RelPath) → List RelPath
or_empty none = []
or_empty (some ps) = ps

abbrev pub paths_at : RelPath → Map RelPath (List RelPath) → List RelPath
paths_at dir children = or_empty (Map.lookup dir children)

unfoldable pub group_children :
    Map RelPath TreeNode → List TreeNode → Map RelPath (List RelPath) → Map RelPath (List RelPath)
group_children nodes [] children = children
group_children nodes (node ∷ rest) children =
    let parent = display_parent nodes node in
    group_children nodes rest
      (BTreeMap.insert parent (paths_at parent children ++ node.path ∷ []) children)

-- `children`, the nodes of a directory in their order.
abbrev pub nodes_at : Map RelPath TreeNode → List RelPath → List TreeNode
nodes_at nodes [] = []
nodes_at nodes (path ∷ paths) =
    let rest = nodes_at nodes paths in
    elim (Map.lookup path nodes) [ none ↦ rest | some node ↦ node ∷ rest ]

abbrev pub keyed : TreeNode → RelPath × TreeNode
keyed node = (node.path, node)

abbrev pub overlaid : Map RelPath VcsStatusKind → TreeNode → TreeNode
overlaid statuses node = record node { status = Map.lookup node.path statuses }

abbrev pub survives : DirectorySnapshot → (loaded gone : List RelPath) → RelPath → TreeNode → Bool
survives snapshot loaded gone path node =
    if is_virtual node
    then true
    else not (any (λ ancestor. KeySet.contains ancestor gone) (above path))
      && (not (or_root (parent path) == snapshot.directory) || KeySet.contains path loaded)
