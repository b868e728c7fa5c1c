-- ===== src/Vcs/Fields.antt =====
-- The fields of a porcelain v2 record in src/vcs/git.rs: the readers and validators, in the order
-- of the file. Every error is a VcsError of kind InvalidData; its message is a constructor.
use herdr_context.Base.{
  ℕ, zero, suc, Bool, true, false, not, ◌&&◌, ◌||◌, Option, none, some, List, [], ◌∷◌, length, find,
  leb, ◌==◌, nat_eq, list_eq, option_eq, if◌then◌else◌,
}
use herdr_context.Base.Results.{Result, ok, err, ◌>>=◌, ◌>>◌, guard, map_err}
use herdr_context.Vcs.Status.{
  VcsStatusKind, added, modified, deleted, renamed, copied, conflicted, type_changed,
  status_kind_eq, VcsEntryStatus, VcsEntryStatusError, new,
}

pub data RecordName : Type 0 where
  ordinary rename_or_copy unmerged untracked ignored : RecordName

pub data InvalidOutput : Type 0 where
  not_terminated empty_record missing_source_record unknown_record too_many_entries : InvalidOutput
  malformed invalid_marker : RecordName → InvalidOutput
  invalid_submodule invalid_mode invalid_object_id invalid_score score_mismatch : InvalidOutput
  invalid_xy : RecordName → InvalidOutput
  xy_length unknown_code no_change : InvalidOutput
  invalid_entry : VcsEntryStatusError → InvalidOutput

-- The iterator of the fields gives its first one and moves on; an empty field is an error too.
unfoldable pub next_field :
    List (List ℕ) → RecordName → Result InvalidOutput (List ℕ × List (List ℕ))
next_field [] name = err (malformed name)
next_field ([] ∷ rest) name = err (malformed name)
next_field ((b ∷ bs) ∷ rest) name = ok (b ∷ bs, rest)

unfoldable pub expect_marker :
    List (List ℕ) → List ℕ → RecordName → Result InvalidOutput (List (List ℕ))
unfolding next_field list_eq nat_eq
expect_marker fields expected name = do
  (field, rest) ← next_field fields name
  if field == expected then ok rest else err (invalid_marker name)

unfoldable pub validate_fields :
    List (List ℕ)
    → ℕ
    → RecordName
    → (List ℕ → Result InvalidOutput (Unit {0}))
    → Result InvalidOutput (List (List ℕ))
unfolding next_field
validate_fields fields zero name validate = ok fields
validate_fields fields (suc count) name validate = do
  (field, rest) ← next_field fields name
  validate field
  validate_fields rest count name validate

-- Rust's `all` of the iterator over a field.
abbrev pub every : (ℕ → Bool) → List ℕ → Bool
every p [] = true
every p (b ∷ bs) = p b && every p bs

abbrev pub one_of : List ℕ → ℕ → Bool
one_of [] b = false
one_of (c ∷ cs) b = b == c || one_of cs b

abbrev is_submodule_state : List ℕ → Bool
is_submodule_state (s ∷ c ∷ m ∷ u ∷ []) =
    (s == b'S')
    && one_of (b'.' ∷ b'C' ∷ []) c
    && one_of (b'.' ∷ b'M' ∷ []) m
    && one_of (b'.' ∷ b'U' ∷ []) u
is_submodule_state _ = false

unfoldable pub validate_submodule : List ℕ → Result InvalidOutput (Unit {0})
unfolding list_eq nat_eq
validate_submodule field =
    guard (field == b'N' ∷ b'.' ∷ b'.' ∷ b'.' ∷ [] || is_submodule_state field) invalid_submodule

unfoldable pub validate_mode : List ℕ → Result InvalidOutput (Unit {0})
unfolding nat_eq
validate_mode field =
    guard (length field == 6 && every (λ b. leb b'0' b && leb b b'7') field) invalid_mode

abbrev pub is_ascii_digit : ℕ → Bool
is_ascii_digit b = leb b'0' b && leb b b'9'

abbrev pub is_ascii_hexdigit : ℕ → Bool
is_ascii_hexdigit b = is_ascii_digit b || (leb b'a' b && leb b b'f') || (leb b'A' b && leb b b'F')

unfoldable pub validate_object_id : List ℕ → Result InvalidOutput (Unit {0})
unfolding nat_eq
validate_object_id field =
    guard ((length field == 40 || length field == 64) && every is_ascii_hexdigit field)
      invalid_object_id

abbrev unchanged : List ℕ
unchanged = b'.' ∷ b'.' ∷ []

unfoldable pub validate_ordinary_xy : List ℕ → Result InvalidOutput (Unit {0})
unfolding list_eq nat_eq
validate_ordinary_xy field =
    guard (every (one_of (b'.' ∷ b'M' ∷ b'T' ∷ b'A' ∷ b'D' ∷ [])) field && not (field == unchanged))
      (invalid_xy ordinary)

unfoldable pub validate_rename_xy : List ℕ → Result InvalidOutput (Unit {0})
unfolding list_eq nat_eq
validate_rename_xy field =
    guard
      (every (one_of (b'.' ∷ b'M' ∷ b'T' ∷ b'A' ∷ b'D' ∷ b'R' ∷ b'C' ∷ [])) field
        && not (field == unchanged))
      (invalid_xy rename_or_copy)

-- The seven pairs of a merge conflict.
abbrev is_conflict : List ℕ → Bool
is_conflict (x ∷ y ∷ []) =
    (x == b'D' && one_of (b'D' ∷ b'U' ∷ []) y)
    || (x == b'A' && one_of (b'U' ∷ b'A' ∷ []) y)
    || (x == b'U' && one_of (b'D' ∷ b'A' ∷ b'U' ∷ []) y)
is_conflict _ = false

unfoldable pub validate_unmerged_xy : List ℕ → Result InvalidOutput (Unit {0})
unfolding nat_eq
validate_unmerged_xy field = guard (is_conflict field) (invalid_xy unmerged)

unfoldable pub map_state : ℕ → Result InvalidOutput (Option VcsStatusKind)
unfolding nat_eq
map_state state =
    if state == b'.'
    then ok none
    else if state == b'M'
    then ok (some modified)
    else if state == b'A'
    then ok (some added)
    else if state == b'D'
    then ok (some deleted)
    else if state == b'R'
    then ok (some renamed)
    else if state == b'C'
    then ok (some copied)
    else if state == b'T'
    then ok (some type_changed)
    else if state == b'U'
    then ok (some conflicted)
    else err unknown_code

unfoldable pub parse_xy :
    List ℕ → Result InvalidOutput (Option VcsStatusKind × Option VcsStatusKind)
unfolding map_state
parse_xy (x ∷ y ∷ []) = do ok ((← map_state x), (← map_state y))
parse_xy _ = err xy_length

abbrev precedence : List VcsStatusKind
precedence =
    conflicted ∷ renamed ∷ copied ∷ type_changed ∷ deleted ∷ added ∷ modified
    ∷ VcsStatusKind.untracked ∷ []

unfoldable pub combined_kind :
    Option VcsStatusKind → Option VcsStatusKind → Result InvalidOutput VcsStatusKind
unfolding option_eq status_kind_eq
combined_kind index worktree =
    elim (find (λ kind. index == some kind || worktree == some kind) precedence) [
      | none ↦ err no_change
      | some kind ↦ ok kind
    ]

unfoldable pub make_entry :
    List ℕ
    → Option (List ℕ)
    → VcsStatusKind
    → Option VcsStatusKind
    → Option VcsStatusKind
    → Result InvalidOutput VcsEntryStatus
make_entry path source_path kind index_state worktree_state =
    map_err invalid_entry (new path source_path kind index_state worktree_state)
