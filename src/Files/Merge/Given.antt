-- ===== src/Files/Merge/Given.antt =====
-- What a status snapshot gives a path, apart from the loops of `merge_workspace_status` in
-- src/files/tree.rs, and that the merge leaves it there.
use herdr_context.Base.{
  ℕ, ◌≡◌, Bool, Option, none, some, List, [], ◌∷◌, arith, nat_eq, list_eq, ◌==◌, if◌then◌else◌,
}
use herdr_context.Base.Order.{nat_ord, list_ord}
use herdr_context.Base.Map
use herdr_context.Base.Map.{Map}
use herdr_context.Base.Paths.{RelPath, starts_with}
use herdr_context.Vcs.Status.{
  VcsStatusKind, added, modified, deleted, renamed, copied, untracked, conflicted, type_changed,
  VcsEntryStatus,
}
use herdr_context.Files.Tree.Statuses.{rank, stronger}
use herdr_context.Files.Merge.{Merge, Metadata, names_of, shown, shown_source}
use herdr_context.Files.Merge.Ranks.{missing_strongest}
use herdr_context.Files.Merge.Missing.{if_missing}

-- The strength of a status, the strongest first; 8 is none.
abbrev pub level : Option VcsStatusKind → ℕ
level none = 8
level (some conflicted) = 0
level (some renamed) = 1
level (some copied) = 2
level (some type_changed) = 3
level (some deleted) = 4
level (some added) = 5
level (some modified) = 6
level (some untracked) = 7

-- A directory above a conflict is in conflict, and above anything else it is modified.
abbrev pub above_level : VcsStatusKind → ℕ
above_level conflicted = level (some conflicted)
above_level kind = level (some modified)

-- What a path with a status gives a path: its own status there, that of a directory above it there,
-- and nothing to the root and elsewhere.
abbrev pub gives : (p path : RelPath) → VcsStatusKind → ℕ
gives [] path kind = 8
gives (name ∷ names) path kind =
    if name ∷ names == path
    then level (some kind)
    else if starts_with path (name ∷ names)
    then above_level kind
    else 8

abbrev pub gives_shown : RelPath → VcsStatusKind → Option RelPath → ℕ
gives_shown p kind none = 8
gives_shown p kind (some path) = gives p path kind

-- What a source gives, where it is not on the disk.
abbrev pub gives_source : (RelPath → Metadata) → RelPath → VcsStatusKind → Option RelPath → ℕ
gives_source symlink_metadata p kind none = 8
gives_source symlink_metadata p kind (some path) =
    if_missing (symlink_metadata path) (gives p path kind)

module _ (is_visible : RelPath → Bool) (symlink_metadata : RelPath → Metadata)
    (prefix : RelPath) where
  -- The strongest of what was there, and of what the entries and their sources give.
  unfoldable pub strongest_given : RelPath → ℕ → List VcsEntryStatus → ℕ
  strongest_given p before [] = before
  strongest_given p before (entry ∷ entries) =
      strongest_given p
        (stronger
          (gives_source symlink_metadata p entry.kind
            (shown_source is_visible prefix entry.source_path))
          (stronger (gives_shown p entry.kind (shown is_visible prefix (names_of entry.path)))
            before))
        entries

pub level-rank : (o : Option VcsStatusKind) → rank o ≡ level o
level-rank o = ground arith

module _ (symlink_metadata : RelPath → Metadata) (p : RelPath) where
  -- The rank that the path has where the loop over the entries ends here.
  abbrev final : Merge → ℕ
  final m =
      missing_strongest symlink_metadata p (rank (Map.lookup p m.statuses)) m.virtual_candidates
