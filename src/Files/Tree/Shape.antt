-- ===== src/Files/Tree/Shape.antt =====
-- The shape that the tree of src/files/tree.rs keeps: its nodes stand under their own paths.
use herdr_context.Base.{◌≡◌, refl, List, [], ◌∷◌, map, All, nat_eq, list_eq}
use herdr_context.Base.Order.{nat_ord, list_ord}
use herdr_context.Base.Map.{Map}
use herdr_context.Base.BTreeMap.Entries
use herdr_context.Base.Paths.{RelPath}
use herdr_context.Files.Nodes.{TreeNode}
use herdr_context.Files.Children.{keyed}

abbrev pub IsKeyed : Map RelPath TreeNode → Type 0
IsKeyed nodes = Entries.AllEntries (λ path node. node.path ≡ path) nodes

pub keyed_lem : (nodes : List TreeNode) → All (λ entry. entry.1.path ≡ entry.0) (map keyed nodes)
keyed_lem [] = tt
keyed_lem (node ∷ nodes) = (refl, keyed_lem nodes)
