-- ===== src/Files/Nodes.antt =====
-- The nodes and the status maps of src/files/tree.rs. A path is the list of its names.
use herdr_context.Base.{
  ℕ, Bool, true, false, not, ◌||◌, Option, none, some, List, [], ◌∷◌, map, ltb, take_while, ◌==◌,
  Eq, nat_eq, list_eq, if◌then◌else◌,
}
use herdr_context.Base.Order.{nat_ord, list_ord}
use herdr_context.Base.Map
use herdr_context.Base.Map.{Map}
use herdr_context.Base.BTreeMap
use herdr_context.Base.Paths.{RelPath, above}
use herdr_context.Vcs.Status.{
  VcsStatusKind, added, modified, deleted, renamed, copied, untracked, conflicted, type_changed,
}

pub data TreeNodeKind : Type 0 where
  directory file symlink virtual : TreeNodeKind

instance unfoldable pub node_kind_eq : Eq TreeNodeKind
node_kind_eq = record { dec = hlevel }

pub record TreeNode : Type 0 where
  pub path : RelPath
  pub kind : TreeNodeKind
  pub status : Option VcsStatusKind
  pub ignored : Bool

unfoldable pub is_expandable : TreeNode → Bool
unfolding node_kind_eq
is_expandable node = node.kind == directory

pub record ChangedFile : Type 0 where
  pub path : RelPath
  pub kind : VcsStatusKind
  pub missing : Bool

pub data VisibleEntryKind : Type 0 where
  directory file symlink : VisibleEntryKind

-- What the walk of a directory gives, in src/files/ignore.rs.
pub record VisibleEntry : Type 0 where
  pub path : RelPath
  pub kind : VisibleEntryKind
  pub ignored : Bool

pub record DirectorySnapshot : Type 0 where
  pub directory : RelPath
  pub nodes : List TreeNode

abbrev kind_of : VisibleEntryKind → TreeNodeKind
kind_of VisibleEntryKind.directory = TreeNodeKind.directory
kind_of VisibleEntryKind.file = TreeNodeKind.file
kind_of VisibleEntryKind.symlink = TreeNodeKind.symlink

unfoldable pub snapshot : RelPath → List VisibleEntry → DirectorySnapshot
snapshot dir entries = record {
  directory = dir;
  nodes =
      map
        (λ entry. record {
          path = entry.path;
          kind = kind_of entry.kind;
          status = none;
          ignored = entry.ignored;
        })
        entries;
}

abbrev pub status_order : VcsStatusKind → ℕ
status_order conflicted = 0
status_order renamed = 1
status_order copied = 2
status_order type_changed = 3
status_order deleted = 4
status_order added = 5
status_order modified = 6
status_order untracked = 7

abbrev pub node_order : TreeNode → ℕ
node_order node = if node.kind == TreeNodeKind.directory then 0 else 1

-- The stronger of two statuses; the current one where they are as strong.
abbrev pub preferred : VcsStatusKind → VcsStatusKind → VcsStatusKind
preferred status current =
    if ltb (status_order status) (status_order current) then status else current

unfoldable pub insert_preferred_status :
    Map RelPath VcsStatusKind → RelPath → VcsStatusKind → Map RelPath VcsStatusKind
insert_preferred_status statuses path status = elim (Map.lookup path statuses) [
  | none ↦ BTreeMap.insert path status statuses
  | some current ↦ BTreeMap.insert path (preferred status current) statuses
]

abbrev pub is_root : RelPath → Bool
is_root [] = true
is_root (_ ∷ _) = false

abbrev pub ancestor_status : VcsStatusKind → VcsStatusKind
ancestor_status conflicted = conflicted
ancestor_status _ = modified

unfoldable pub insert_each :
    Map RelPath VcsStatusKind → List RelPath → VcsStatusKind → Map RelPath VcsStatusKind
insert_each statuses [] status = statuses
insert_each statuses (path ∷ paths) status =
    insert_each (insert_preferred_status statuses path status) paths status

abbrev insert_affected :
    Map RelPath VcsStatusKind → List RelPath → VcsStatusKind → Map RelPath VcsStatusKind
insert_affected statuses [] status = statuses
insert_affected statuses (entry ∷ ancestors) status =
    insert_each (insert_preferred_status statuses entry status) ancestors (ancestor_status status)

unfoldable pub insert_status_with_ancestors :
    Map RelPath VcsStatusKind → RelPath → VcsStatusKind → Map RelPath VcsStatusKind
insert_status_with_ancestors statuses path status =
    insert_affected statuses (take_while (λ p. not (is_root p)) (path ∷ above path)) status

unfoldable pub upsert_changed_file :
    Map RelPath (VcsStatusKind × Bool)
    → RelPath
    → VcsStatusKind
    → Bool
    → Map RelPath (VcsStatusKind × Bool)
upsert_changed_file changed path status missing = elim (Map.lookup path changed) [
  | none ↦ BTreeMap.insert path (status, missing) changed
  | some (kind, was_missing) ↦
      BTreeMap.insert path (preferred status kind, was_missing || missing) changed
]
