-- ===== src/Vcs/Porcelain.antt =====
-- The parser of `git status --porcelain=v2 -z` in src/vcs/git.rs, over the bytes of the output.
use herdr_context.Base.{
  ℕ, ◌+◌, ◌-◌, ◌*◌, Bool, false, not, ◌&&◌, ◌||◌, none, some, List, [], ◌∷◌, ◌++◌, length, ltb,
  ◌==◌, nat_eq, list_eq, option_eq, if◌then◌else◌,
}
use herdr_context.Base.Results.{Result, ok, err, ◌>>=◌, ◌>>◌, guard, ok_or}
use herdr_context.Base.Bytes.{split, splitn, strip_prefix, last, drop_last}
use herdr_context.Vcs.Status.{
  VcsStatusKind, renamed, copied, conflicted, status_kind_eq, VcsEntryStatus, VcsStatusSnapshot,
  path_leb,
}
use herdr_context.Vcs.Fields.{
  ordinary, rename_or_copy, unmerged, untracked, ignored, InvalidOutput, not_terminated,
  empty_record, missing_source_record, unknown_record, too_many_entries, malformed, invalid_score,
  score_mismatch, next_field, expect_marker, validate_fields, every, is_ascii_digit,
  validate_submodule, validate_mode, validate_object_id, validate_ordinary_xy, validate_rename_xy,
  validate_unmerged_xy, parse_xy, combined_kind, make_entry,
}

abbrev pub max_status_entries : ℕ
max_status_entries = 100000

unfoldable pub push_entry :
    List VcsEntryStatus → VcsEntryStatus → Result InvalidOutput (List VcsEntryStatus)
push_entry entries entry =
    if length entries == max_status_entries
    then err too_many_entries
    else ok (entries ++ entry ∷ [])

-- The fields of an ordinary record.
unfoldable pub parse_ordinary_fields : List (List ℕ) → Result InvalidOutput VcsEntryStatus
parse_ordinary_fields fields = do
  rest ← expect_marker fields (b'1' ∷ []) ordinary
  (xy, rest) ← next_field rest ordinary
  (index_state, worktree_state) ← parse_xy xy
  validate_ordinary_xy xy
  (submodule, rest) ← next_field rest ordinary
  validate_submodule submodule
  rest ← validate_fields rest 3 ordinary validate_mode
  rest ← validate_fields rest 2 ordinary validate_object_id
  (path, _) ← next_field rest ordinary
  kind ← combined_kind index_state worktree_state
  make_entry path none kind index_state worktree_state

unfoldable pub parse_ordinary : List ℕ → Result InvalidOutput VcsEntryStatus
parse_ordinary line = parse_ordinary_fields (splitn 9 b' ' line)

-- The value of the digits: at most three of them, so that it fits the u16.
abbrev decimal : ℕ → List ℕ → ℕ
decimal value [] = value
decimal value (digit ∷ digits) = decimal (value * 10 + (digit - b'0')) digits

abbrev is_similarity : List ℕ → Bool
is_similarity digits = not (
    length digits == 0
    || ltb 3 (length digits)
    || not (every is_ascii_digit digits)
    || ltb 100 (decimal 0 digits))

unfoldable pub parse_score : List ℕ → Result InvalidOutput VcsStatusKind
parse_score [] = err invalid_score
parse_score (tag ∷ similarity) =
    if not (is_similarity similarity)
    then err invalid_score
    else if tag == b'R'
    then ok renamed
    else if tag == b'C'
    then ok copied
    else err invalid_score

unfoldable pub parse_rename_fields : List (List ℕ) → List ℕ → Result InvalidOutput VcsEntryStatus
parse_rename_fields fields source = do
  rest ← expect_marker fields (b'2' ∷ []) rename_or_copy
  (xy, rest) ← next_field rest rename_or_copy
  (index_state, worktree_state) ← parse_xy xy
  validate_rename_xy xy
  (submodule, rest) ← next_field rest rename_or_copy
  validate_submodule submodule
  rest ← validate_fields rest 3 rename_or_copy validate_mode
  rest ← validate_fields rest 2 rename_or_copy validate_object_id
  (score, rest) ← next_field rest rename_or_copy
  kind ← parse_score score
  guard (index_state == some kind || worktree_state == some kind) score_mismatch
  (path, _) ← next_field rest rename_or_copy
  make_entry path (some source) kind index_state worktree_state

unfoldable pub parse_rename_or_copy : List ℕ → List ℕ → Result InvalidOutput VcsEntryStatus
parse_rename_or_copy line source = parse_rename_fields (splitn 10 b' ' line) source

unfoldable pub parse_unmerged_fields : List (List ℕ) → Result InvalidOutput VcsEntryStatus
parse_unmerged_fields fields = do
  rest ← expect_marker fields (b'u' ∷ []) unmerged
  (xy, rest) ← next_field rest unmerged
  validate_unmerged_xy xy
  (index_state, worktree_state) ← parse_xy xy
  (submodule, rest) ← next_field rest unmerged
  validate_submodule submodule
  rest ← validate_fields rest 4 unmerged validate_mode
  rest ← validate_fields rest 3 unmerged validate_object_id
  (path, _) ← next_field rest unmerged
  make_entry path none conflicted index_state worktree_state

unfoldable pub parse_unmerged : List ℕ → Result InvalidOutput VcsEntryStatus
parse_unmerged line = parse_unmerged_fields (splitn 11 b' ' line)

unfoldable pub parse_untracked : List ℕ → Result InvalidOutput VcsEntryStatus
parse_untracked line = do
  path ← ok_or (strip_prefix (b'?' ∷ b' ' ∷ []) line) (malformed untracked)
  make_entry path none VcsStatusKind.untracked none (some VcsStatusKind.untracked)

-- The arms of the match on the first byte of a record.
pub data Tag : Type 0 where
  empty header one two conflict question exclamation other : Tag

unfoldable pub tag_of : List ℕ → Tag
unfolding nat_eq
tag_of [] = empty
tag_of (tag ∷ _) =
    if tag == b'#'
    then header
    else if tag == b'1'
    then one
    else if tag == b'2'
    then two
    else if tag == b'u'
    then conflict
    else if tag == b'?'
    then question
    else if tag == b'!'
    then exclamation
    else other

-- A record that needs no further one; a rename here has no source path.
unfoldable pub parse_single :
    Tag → List ℕ → List VcsEntryStatus → Result InvalidOutput (List VcsEntryStatus)
parse_single empty line entries = err empty_record
parse_single header line entries = ok entries
parse_single one line entries = do push_entry entries (← parse_ordinary line)
parse_single two line entries = err missing_source_record
parse_single conflict line entries = do push_entry entries (← parse_unmerged line)
parse_single question line entries = do push_entry entries (← parse_untracked line)
parse_single exclamation line entries = do
  _ ← ok_or (strip_prefix (b'!' ∷ b' ' ∷ []) line) (malformed ignored)
  ok entries
parse_single other line entries = err unknown_record

-- The loop over the records: a rename takes the record after it as its source path.
unfoldable pub parse_records :
    List (List ℕ) → List VcsEntryStatus → Result InvalidOutput (List VcsEntryStatus)
parse_records [] entries = ok entries
parse_records (line ∷ []) entries = parse_single (tag_of line) line entries
parse_records (line ∷ following ∷ rest) entries = elim (tag_of line) [
  | two ↦ do
    entry ← parse_rename_or_copy line following
    entries' ← push_entry entries entry
    parse_records rest entries'
  | tag ↦ do entries' ← parse_single tag line entries; parse_records (following ∷ rest) entries'
]

-- The sort by path; which of two entries of one path comes first is left open by the code.
abbrev pub insert_entry : VcsEntryStatus → List VcsEntryStatus → List VcsEntryStatus
insert_entry entry [] = entry ∷ []
insert_entry entry (x ∷ xs) =
    if path_leb entry.path x.path then entry ∷ x ∷ xs else x ∷ insert_entry entry xs

unfoldable pub sort_by_path : List VcsEntryStatus → List VcsEntryStatus
sort_by_path [] = []
sort_by_path (x ∷ xs) = insert_entry x (sort_by_path xs)

unfoldable pub parse_porcelain_v2 : List ℕ → Result InvalidOutput VcsStatusSnapshot
parse_porcelain_v2 output =
    if not (output == []) && not (last output == some 0)
    then err not_terminated
    else if output == []
    then ok (record { entries = []; stale = false })
    else do
      entries ← parse_records (split 0 (drop_last output)) []
      ok (record { entries = sort_by_path entries; stale = false })
