-- ===== src/Vcs/Jujutsu.antt =====
-- The parser of Jujutsu's template output in src/vcs/jj.rs, over the bytes. Every error is a VcsError
-- of kind InvalidData; its message is a constructor.
pub mod Snapshot
pub mod Records
pub mod Reread
use herdr_context.Base.{
  ℕ, suc, ◌+◌, Bool, true, false, not, ◌&&◌, ◌||◌, Option, none, some, List, [], ◌∷◌, ◌++◌, leb,
  any, ◌==◌, Eq, nat_eq, list_eq, if◌then◌else◌,
}
use herdr_context.Base.Results.{Result, ok, err, ◌>>=◌, ◌>>◌, guard, map_err}
use herdr_context.Base.Bytes.{split, last, drop_last}
use herdr_context.Vcs.Status.{
  VcsStatusKind, added, modified, deleted, renamed, copied, conflicted, type_changed,
  status_kind_eq, VcsEntryStatus, VcsEntryStatusError, VcsStatusSnapshot, Component, root_dir,
  components, normal, new,
}

pub data InvalidOutput : Type 0 where
  root_not_terminated malformed_root root_not_absolute not_terminated entry_limit truncated :
      InvalidOutput
  unknown_status invalid_conflict invalid_file_type empty_path non_normalized_path : InvalidOutput
  invalid_path : VcsEntryStatusError → InvalidOutput

pub data FileType : Type 0 where
  absent file symlink tree git_submodule conflict : FileType

instance unfoldable pub file_type_eq : Eq FileType
file_type_eq = record { dec = hlevel }

abbrev pub max_status_entries : ℕ
max_status_entries = 100000

-- `strip_suffix` of one byte.
unfoldable pub strip_last : ℕ → List ℕ → Option (List ℕ)
unfolding nat_eq
strip_last byte bytes = elim (last bytes) [
  | none ↦ none
  | some b ↦ if b == byte then some (drop_last bytes) else none
]

abbrev pub is_absolute : List Component → Bool
is_absolute (root_dir ∷ _) = true
is_absolute _ = false

unfoldable pub parse_workspace_root : List ℕ → Result InvalidOutput (List ℕ)
unfolding nat_eq list_eq
parse_workspace_root output = elim (strip_last b'\n' output) [
  | none ↦ err root_not_terminated
  | some root ↦
      if root == [] || any (λ b. b == 0) root
      then err malformed_root
      else if is_absolute (components root)
      then ok root
      else err root_not_absolute
]

unfoldable pub next_field : List (List ℕ) → Result InvalidOutput (List ℕ × List (List ℕ))
next_field [] = err truncated
next_field (field ∷ fields) = ok (field, fields)

unfoldable pub parse_status : List ℕ → Result InvalidOutput VcsStatusKind
unfolding list_eq nat_eq
parse_status value =
    if value == b'M' ∷ []
    then ok modified
    else if value == b'A' ∷ []
    then ok added
    else if value == b'D' ∷ []
    then ok deleted
    else if value == b'C' ∷ []
    then ok copied
    else if value == b'R' ∷ []
    then ok renamed
    else err unknown_status

unfoldable pub parse_bool : List ℕ → Result InvalidOutput Bool
unfolding list_eq nat_eq
parse_bool value =
    if value == b't' ∷ b'r' ∷ b'u' ∷ b'e' ∷ []
    then ok true
    else if value == b'f' ∷ b'a' ∷ b'l' ∷ b's' ∷ b'e' ∷ []
    then ok false
    else err invalid_conflict

abbrev pub type_name : FileType → List ℕ
type_name absent = []
type_name file = b'f' ∷ b'i' ∷ b'l' ∷ b'e' ∷ []
type_name symlink = b's' ∷ b'y' ∷ b'm' ∷ b'l' ∷ b'i' ∷ b'n' ∷ b'k' ∷ []
type_name tree = b't' ∷ b'r' ∷ b'e' ∷ b'e' ∷ []
type_name git_submodule =
    b'g' ∷ b'i' ∷ b't' ∷ b'-' ∷ b's' ∷ b'u' ∷ b'b' ∷ b'm' ∷ b'o' ∷ b'd' ∷ b'u' ∷ b'l' ∷ b'e' ∷ []
type_name conflict = b'c' ∷ b'o' ∷ b'n' ∷ b'f' ∷ b'l' ∷ b'i' ∷ b'c' ∷ b't' ∷ []

unfoldable pub parse_file_type : List ℕ → Result InvalidOutput FileType
unfolding list_eq nat_eq
parse_file_type value =
    if value == type_name absent
    then ok absent
    else if value == type_name file
    then ok file
    else if value == type_name symlink
    then ok symlink
    else if value == type_name tree
    then ok tree
    else if value == type_name git_submodule
    then ok git_submodule
    else if value == type_name conflict
    then ok conflict
    else err invalid_file_type

abbrev pub is_normal : Component → Bool
is_normal (normal _) = true
is_normal _ = false

abbrev pub check_components : List Component → Result InvalidOutput (Unit {0})
check_components [] = err empty_path
check_components (first ∷ rest) =
    if not (is_normal first) || any (λ c. not (is_normal c)) rest
    then err non_normalized_path
    else ok tt

unfoldable pub validate_status_path : List ℕ → Bool → Result InvalidOutput (Unit {0})
validate_status_path path in_entry =
    if not in_entry then ok tt else check_components (components path)

abbrev pub is_structural : FileType → Bool
is_structural absent = true
is_structural tree = true
is_structural _ = false

abbrev pub renames : VcsStatusKind → Bool
renames renamed = true
renames copied = true
renames _ = false

abbrev pub kind_of :
    VcsStatusKind → (source_conflict target_conflict : Bool) → FileType → FileType → VcsStatusKind
kind_of base source_conflict target_conflict source_type target_type =
    if source_conflict || target_conflict || source_type == conflict || target_type == conflict
    then conflicted
    else if base == modified
        && not (source_type == absent)
        && not (target_type == absent)
        && not (source_type == target_type)
    then type_changed
    else base

-- `then_some`.
abbrev pub conflicted_if : Bool → Option VcsStatusKind
conflicted_if b = if b then some conflicted else none

-- The entry of a record that is not skipped.
unfoldable pub make_entry :
    VcsStatusKind
    → (source target : List ℕ) → (source_conflict target_conflict : Bool) → FileType
    → FileType
    → Result InvalidOutput (Option VcsEntryStatus)
make_entry base source target source_conflict target_conflict source_type target_type =
    if is_structural source_type && is_structural target_type then ok none else do
      entry ← map_err invalid_path (
          new target (if renames base then some source else none)
            (kind_of base source_conflict target_conflict source_type target_type)
            (conflicted_if source_conflict) (conflicted_if target_conflict))
      ok (some entry)

-- The body of the loop, with the fields that follow the status. A skipped record has no entry.
unfoldable pub parse_record : List ℕ → List (List ℕ) → Result InvalidOutput (Option VcsEntryStatus)
parse_record status fields = do
  (source_path, fields) ← next_field fields
  (target_path, fields) ← next_field fields
  (source_field, fields) ← next_field fields
  source_conflict ← parse_bool source_field
  (target_field, fields) ← next_field fields
  target_conflict ← parse_bool target_field
  (source_type_field, fields) ← next_field fields
  source_type ← parse_file_type source_type_field
  (target_type_field, fields) ← next_field fields
  target_type ← parse_file_type target_type_field
  base_kind ← parse_status status
  validate_status_path source_path (renames base_kind)
  validate_status_path target_path true
  make_entry base_kind source_path target_path source_conflict target_conflict source_type
      target_type

abbrev pub pushed : List VcsEntryStatus → Option VcsEntryStatus → List VcsEntryStatus
pushed entries none = entries
pushed entries (some entry) = entries ++ entry ∷ []

-- The loop over the fields, seven to a record.
unfoldable pub parse_fields :
    ℕ → List VcsEntryStatus → List (List ℕ) → Result InvalidOutput (List VcsEntryStatus)
parse_fields records entries [] = ok entries
parse_fields records entries (status ∷ a ∷ b ∷ c ∷ d ∷ e ∷ f ∷ rest) =
    if records == max_status_entries then err entry_limit else do
      entry ← parse_record status (a ∷ b ∷ c ∷ d ∷ e ∷ f ∷ [])
      parse_fields (records + 1) (pushed entries entry) rest
parse_fields records entries (status ∷ few) =
    if records == max_status_entries
    then err entry_limit
    else do entry ← parse_record status few; ok (pushed entries entry)

unfoldable pub parse_templated_diff : List ℕ → Bool → Result InvalidOutput VcsStatusSnapshot
unfolding list_eq nat_eq
parse_templated_diff [] stale = ok (record { entries = []; stale = stale })
parse_templated_diff (b ∷ bs) stale = elim (strip_last 0 (b ∷ bs)) [
  | none ↦ err not_terminated
  | some output ↦ do
    entries ← parse_fields 0 [] (split 0 output)
    ok (record { entries = entries; stale = stale })
]

-- `is_ascii_whitespace` of a byte.
abbrev pub is_ascii_whitespace : ℕ → Bool
is_ascii_whitespace b = b == 32 || b == 9 || b == 10 || b == 12 || b == 13

unfoldable pub trim_start : List ℕ → List ℕ
trim_start [] = []
trim_start (b ∷ bs) = let rest = trim_start bs in if is_ascii_whitespace b then rest else b ∷ bs

-- The second loop: a byte stays where it is not white space or one after it stays.
unfoldable pub trim_end : List ℕ → List ℕ
trim_end [] = []
trim_end (b ∷ bs) = elim (trim_end bs) [
  | [] ↦ if is_ascii_whitespace b then [] else b ∷ []
  | c ∷ cs ↦ b ∷ c ∷ cs
]

unfoldable pub trim_ascii : List ℕ → List ℕ
trim_ascii value = trim_end (trim_start value)
