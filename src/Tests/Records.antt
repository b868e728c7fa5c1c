-- ===== src/Tests/Records.antt =====
-- Records of Git's porcelain output at concrete bytes.
use herdr_context.Base.{
  ℕ, ◌≡◌, refl, false, List, [], ◌∷◌, ◌++◌, none, some, list_eq, nat_eq, option_eq,
}
use herdr_context.Base.Results.{ok}
use herdr_context.Vcs.Status.{
  VcsStatusKind, VcsEntryStatus, modified, deleted, status_kind_eq, path, path_leb, new,
  normalize_relative_path, normalize_source, components, first_component, later_components,
  normal_names,
}
use herdr_context.Vcs.Names.{IsNormal, normalize_relative_path-IsNormal}
use herdr_context.Vcs.Fields.{
  validate_submodule, validate_mode, validate_object_id, combined_kind, make_entry,
}
use herdr_context.Vcs.Kinds.{Strongest, combined_kind-Strongest}
use herdr_context.Vcs.Porcelain.{
  parse_ordinary, parse_porcelain_v2, parse_records, tag_of, parse_single, parse_untracked,
  push_entry, sort_by_path,
}
use herdr_context.Vcs.Entries.{Every}
use herdr_context.Vcs.Snapshot.{IsSnapshot, parse_porcelain_v2-IsSnapshot}
use herdr_context.Vcs.Printed.{OrdinaryRecord, IsPrintable, print}
use herdr_context.Vcs.Reread.{parse_ordinary-print}

abbrev mode : List ℕ
mode = b'1' ∷ b'0' ∷ b'0' ∷ b'6' ∷ b'4' ∷ b'4' ∷ []

abbrev ten : List ℕ
ten = b'0' ∷ b'1' ∷ b'2' ∷ b'3' ∷ b'4' ∷ b'5' ∷ b'6' ∷ b'7' ∷ b'a' ∷ b'f' ∷ []

abbrev object_id : List ℕ
object_id = ten ++ ten ++ ten ++ ten

abbrev source_file : List ℕ
source_file = b'a' ∷ b'/' ∷ b' ' ∷ b'b' ∷ []

source_file-IsNormal : IsNormal source_file
unfolding list_eq nat_eq
source_file-IsNormal = (
  b'a' ∷ [],
  (b' ' ∷ b'b' ∷ []) ∷ [],
  (((refl, tt), refl, refl, refl), (((refl, (refl, tt)), refl, refl, refl), tt)),
  refl,
)

-- A change in the index of `a/ b`.
abbrev modified_record : OrdinaryRecord
modified_record = record {
  index = some modified;
  worktree = none;
  submodule = b'N' ∷ b'.' ∷ b'.' ∷ b'.' ∷ [];
  modes = (mode, mode, mode);
  ids = (object_id, object_id);
  path = source_file;
}

modified_record-IsPrintable : IsPrintable modified_record
unfolding validate_submodule validate_mode validate_object_id
modified_record-IsPrintable = record {
  index_ordinary = refl;
  worktree_ordinary = refl;
  submodule_valid = refl;
  head_mode = refl;
  index_mode = refl;
  worktree_mode = refl;
  head_id = refl;
  index_id = refl;
  path_normal = source_file-IsNormal;
}

parse_ordinary-print_example :
    parse_ordinary (print modified_record)
    ≡ ok (record {
      path = source_file;
      source_path = none;
      kind = modified;
      index_state = some modified;
      worktree_state = none;
    })
unfolding combined_kind
parse_ordinary-print_example =
    parse_ordinary-print modified_record modified modified_record-IsPrintable refl

-- Two untracked files, not in order.
abbrev two_files : List ℕ
two_files = b'?' ∷ b' ' ∷ b'b' ∷ 0 ∷ b'?' ∷ b' ' ∷ b'a' ∷ 0 ∷ []

abbrev untracked_file : ℕ → VcsEntryStatus
untracked_file name = record {
  path = name ∷ [];
  source_path = none;
  kind = VcsStatusKind.untracked;
  index_state = none;
  worktree_state = some VcsStatusKind.untracked;
}

two_files_sorted :
    parse_porcelain_v2 two_files
    ≡ ok (record { entries = untracked_file b'a' ∷ untracked_file b'b' ∷ []; stale = false })
unfolding parse_porcelain_v2 parse_records tag_of parse_single parse_untracked push_entry
    sort_by_path path_leb make_entry new normalize_relative_path normalize_source components
    first_component later_components normal_names option_eq
two_files_sorted = refl

parse_porcelain_v2-IsSnapshot_example : Every IsSnapshot (parse_porcelain_v2 two_files)
parse_porcelain_v2-IsSnapshot_example = parse_porcelain_v2-IsSnapshot two_files

combined_kind-Strongest_example :
    Strongest (some modified) (some deleted) (combined_kind (some modified) (some deleted))
combined_kind-Strongest_example = combined_kind-Strongest (some modified) (some deleted)

-- `a//./ b`
abbrev loose_path : List ℕ
loose_path = b'a' ∷ b'/' ∷ b'/' ∷ b'.' ∷ b'/' ∷ b' ' ∷ b'b' ∷ []

normalize_relative_path-IsNormal_example :
    IsNormal source_file × (normalize_relative_path source_file path ≡ ok source_file)
unfolding normalize_relative_path components first_component later_components normal_names
normalize_relative_path-IsNormal_example =
    normalize_relative_path-IsNormal loose_path path path source_file refl
