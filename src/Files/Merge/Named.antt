-- ===== src/Files/Merge/Named.antt =====
-- Which entries of a status snapshot name a path as gone, and that the candidates of
-- `merge_workspace_status` in src/files/tree.rs are these paths.
use herdr_context.Base.{
  ℕ, ◌≤◌, ◌≡◌, ap, ◌∙◌, subst, Bool, true, false, ◌||◌, Option, none, some, List, [], ◌∷◌, arith,
  nat_eq, list_eq, ◌==◌, if◌then◌else◌, inl, inr, Option-cases,
}
use herdr_context.Base.Order.{nat_ord, list_ord}
use herdr_context.Base.Map
use herdr_context.Base.Map.{Map}
use herdr_context.Base.BTreeMap
use herdr_context.Base.Paths.{RelPath}
use herdr_context.Vcs.Status.{VcsStatusKind, deleted, status_kind_eq, VcsEntryStatus}
use herdr_context.Files.Nodes.{node_kind_eq, insert_preferred_status}
use herdr_context.Files.Tree.Statuses.{rank, rank_le, stronger, rank-insert_preferred_status}
use herdr_context.Files.Merge.{
  Merge, names_of, shown, shown_source, merge_shown, merge_shown_source, merge_path, merge_source,
  merge_entry, merge_entries, is_deleted,
}
use herdr_context.Files.Merge.Given.{level}

abbrev is_deleted_state : Option VcsStatusKind → Bool
is_deleted_state (some deleted) = true
is_deleted_state _ = false

-- The entry says in one of its three states that its path is deleted.
abbrev pub says_deleted : VcsEntryStatus → Bool
says_deleted entry =
    is_deleted_state (some entry.kind)
    || is_deleted_state entry.index_state
    || is_deleted_state entry.worktree_state

-- What a path that an entry names as gone gives a path.
abbrev pub level_at : RelPath → VcsStatusKind → Option RelPath → ℕ
level_at p kind none = 8
level_at p kind (some path) = if p == path then level (some kind) else 8

module _ (is_visible : RelPath → Bool) (prefix : RelPath) where
  -- The strongest status of the entries that name the path as deleted or as a source.
  unfoldable pub named_level : RelPath → ℕ → List VcsEntryStatus → ℕ
  named_level p before [] = before
  named_level p before (entry ∷ entries) =
      let path = shown is_visible prefix (names_of entry.path) in
      let source = shown_source is_visible prefix entry.source_path in
      named_level p
        (stronger (level_at p entry.kind source)
          (if says_deleted entry then stronger (level_at p entry.kind path) before else before))
        entries

deleted_lem : (entry : VcsEntryStatus) → is_deleted entry ≡ says_deleted entry
unfolding status_kind_eq
deleted_lem entry = ground arith

inserted-level :
    (p path : RelPath) (kind : VcsStatusKind) (c : Map RelPath VcsStatusKind)
    → rank (Map.lookup p (insert_preferred_status c path kind))
      ≡ stronger (level_at p kind (some path)) (rank (Map.lookup p c))
inserted-level p path kind c = ground (arith, rank-insert_preferred_status c p path kind)

insert_preferred_status-IsDistinct :
    (c : Map RelPath VcsStatusKind) (path : RelPath) (kind : VcsStatusKind)
    → Map.IsDistinct c
    → Map.IsDistinct (insert_preferred_status c path kind)
unfolding insert_preferred_status
insert_preferred_status-IsDistinct c path kind d = elim (Option-cases (Map.lookup path c)) [
  | inl new ↦ rw (new, insert_preferred_status) (BTreeMap.insert-IsDistinct path kind c d)
  | inr (cur, old) ↦ rw (old, insert_preferred_status) (BTreeMap.insert-IsDistinct path _ c d)
]

-- The candidates give the path the level, and none stands twice.
abbrev pub Named : RelPath → Map RelPath VcsStatusKind → ℕ → Type 0
Named p c n = (rank (Map.lookup p c) ≡ n) × Map.IsDistinct c

inserted-Named :
    (p path : RelPath) (kind : VcsStatusKind) (c : Map RelPath VcsStatusKind) (n : ℕ)
    → Named p c n
    → Named p (insert_preferred_status c path kind) (stronger (level_at p kind (some path)) n)
inserted-Named p path kind c n (r, d) = (
  inserted-level p path kind c ∙ ap (stronger (level_at p kind (some path))) r,
  insert_preferred_status-IsDistinct c path kind d,
)

Named-le : (p : RelPath) (c : Map RelPath VcsStatusKind) (n : ℕ) → Named p c n → n ≤ 8
Named-le p c n (r, d) = ground (arith, r, rank_le (Map.lookup p c))

nothing-Named :
    (p : RelPath) (c : Map RelPath VcsStatusKind) (n : ℕ) (flag : Bool)
    → Named p c n
    → Named p c (if flag then stronger 8 n else n)
nothing-Named p c n true h = (h.0 ∙ ground (arith, Named-le p c n h), h.1)
nothing-Named p c n false h = h

chosen-Named :
    (p path : RelPath) (kind : VcsStatusKind) (c : Map RelPath VcsStatusKind) (n : ℕ) (flag : Bool)
    → Named p c n
    → Named p
        (if flag then insert_preferred_status c path kind else c)
        (if flag then stronger (level_at p kind (some path)) n else n)
chosen-Named p path kind c n true h = inserted-Named p path kind c n h
chosen-Named p path kind c n false h = h

merge_shown-Named :
    (p : RelPath) (m : Merge) (n : ℕ) (entry : VcsEntryStatus) (path : Option RelPath)
    → Named p m.virtual_candidates n
    → Named p
        (merge_shown entry path m).virtual_candidates
        (if says_deleted entry then stronger (level_at p entry.kind path) n else n)
unfolding merge_shown merge_path
merge_shown-Named p m n entry none h = nothing-Named p m.virtual_candidates n (says_deleted entry) h
merge_shown-Named p m n entry (some path) h =
    subst
      (λ flag.
        Named p
          (if is_deleted entry
            then insert_preferred_status m.virtual_candidates path entry.kind
            else m.virtual_candidates)
          (if flag then stronger (level_at p entry.kind (some path)) n else n))
      (deleted_lem entry)
      (chosen-Named p path entry.kind m.virtual_candidates n (is_deleted entry) h)

merge_shown_source-Named :
    (p : RelPath) (m : Merge) (n : ℕ) (entry : VcsEntryStatus) (path : Option RelPath)
    → Named p m.virtual_candidates n
    → Named p
        (merge_shown_source entry path m).virtual_candidates
        (stronger (level_at p entry.kind path) n)
unfolding merge_shown_source merge_source
merge_shown_source-Named p m n entry none h = nothing-Named p m.virtual_candidates n true h
merge_shown_source-Named p m n entry (some path) h =
    inserted-Named p path entry.kind m.virtual_candidates n h

pub merge_entries-Named :
    (is_visible : RelPath → Bool) (prefix p : RelPath) (m : Merge) (n : ℕ)
    (entries : List VcsEntryStatus)
    → Named p m.virtual_candidates n
    → Named p
        (merge_entries is_visible prefix m entries).virtual_candidates
        (named_level is_visible prefix p n entries)
unfolding merge_entries merge_entry named_level
merge_entries-Named is_visible prefix p m n [] h = h
merge_entries-Named is_visible prefix p m n (entry ∷ entries) h =
    let path = shown is_visible prefix (names_of entry.path) in
    let source = shown_source is_visible prefix entry.source_path in
    merge_entries-Named is_visible prefix p (merge_entry is_visible prefix m entry) _ entries (
      merge_shown_source-Named p (merge_shown entry path m) _ entry source
        (merge_shown-Named p m n entry path h))
