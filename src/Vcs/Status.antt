-- ===== src/Vcs/Status.antt =====
-- src/vcs/status.rs: the status vocabulary that every adapter shares, and the entries, whose paths
-- are relative to the root and normalised. A path is its bytes, as on Unix.
use herdr_context.Base.{
  ℕ, Bool, true, false, not, ◌&&◌, ◌||◌, Option, none, some, List, [], ◌∷◌, ltb, ◌==◌, Eq, nat_eq,
  list_eq, option_eq, if◌then◌else◌,
}
use herdr_context.Base.Results.{Result, ok, err, ◌>>=◌}
use herdr_context.Base.Bytes.{split, join, lex_leb}

pub data VcsStatusKind : Type 0 where
  added modified deleted renamed copied untracked conflicted type_changed : VcsStatusKind

instance unfoldable pub status_kind_eq : Eq VcsStatusKind
status_kind_eq = record { dec = hlevel }

pub data Field : Type 0 where
  path source_path : Field

pub data VcsEntryStatusError : Type 0 where
  empty_path : Field → VcsEntryStatusError
  non_normalized_path : Field → List ℕ → VcsEntryStatusError
  missing_source_path : VcsStatusKind → VcsEntryStatusError

pub record VcsEntryStatus : Type 0 where
  pub path : List ℕ
  pub source_path : Option (List ℕ)
  pub kind : VcsStatusKind
  pub index_state : Option VcsStatusKind
  pub worktree_state : Option VcsStatusKind

pub record VcsStatusSnapshot : Type 0 where
  pub entries : List VcsEntryStatus
  pub stale : Bool

-- What `Path::components` of the standard library yields on Unix.
pub data Component : Type 0 where
  root_dir cur_dir parent_dir : Component
  normal : List ℕ → Component

-- The pieces after the first: empty ones and `.` are skipped.
unfoldable pub later_components : List (List ℕ) → List Component
unfolding list_eq nat_eq
later_components [] = []
later_components (piece ∷ pieces) =
    let rest = later_components pieces in
    if piece == [] || piece == b'.' ∷ []
    then rest
    else if piece == b'.' ∷ b'.' ∷ []
    then parent_dir ∷ rest
    else normal piece ∷ rest

-- A leading separator is the root, and a leading `.` is kept.
unfoldable pub first_component : List ℕ → List (List ℕ) → List Component
unfolding list_eq nat_eq
first_component whole [] = []
first_component whole (piece ∷ pieces) =
    if whole == []
    then []
    else if piece == []
    then root_dir ∷ later_components pieces
    else if piece == b'.' ∷ []
    then cur_dir ∷ later_components pieces
    else later_components (piece ∷ pieces)

unfoldable pub components : List ℕ → List Component
components bytes = first_component bytes (split b'/' bytes)

-- The loop over the components, which ends at the first one that is not a name.
unfoldable pub normal_names : List Component → Option (List (List ℕ))
normal_names [] = some []
normal_names (normal name ∷ rest) = elim (normal_names rest) [
  | none ↦ none
  | some names ↦ some (name ∷ names)
]
normal_names (_ ∷ rest) = none

unfoldable pub normalize_relative_path : List ℕ → Field → Result VcsEntryStatusError (List ℕ)
normalize_relative_path bytes field = elim (normal_names (components bytes)) [
  | none ↦ err (non_normalized_path field bytes)
  | some names ↦
      let normalized = join b'/' names in
      if normalized == []
      then err (empty_path field)
      else if normalized == bytes
      then ok bytes
      else ok normalized
]

abbrev pub is_some {ℓ} : {A : Type ℓ} → Option A → Bool
is_some none = false
is_some (some _) = true

abbrev pub needs_source : VcsStatusKind → Bool
needs_source renamed = true
needs_source copied = true
needs_source _ = false

-- `Option::map` and `transpose` of the source path.
unfoldable pub normalize_source : Option (List ℕ) → Result VcsEntryStatusError (Option (List ℕ))
normalize_source none = ok none
normalize_source (some bytes) = do p ← normalize_relative_path bytes source_path; ok (some p)

unfoldable pub new :
    List ℕ
    → Option (List ℕ)
    → VcsStatusKind
    → Option VcsStatusKind
    → Option VcsStatusKind
    → Result VcsEntryStatusError VcsEntryStatus
new bytes source kind index worktree = do
  p ← normalize_relative_path bytes path
  s ← normalize_source source
  if needs_source kind && not (is_some s)
      then err (missing_source_path kind)
      else ok (record {
        path = p;
        source_path = s;
        kind = kind;
        index_state = index;
        worktree_state = worktree;
      })

-- The derived order of `Component`: the variant first, then the name.
abbrev sort_key : Component → List ℕ
sort_key root_dir = 1 ∷ []
sort_key cur_dir = 2 ∷ []
sort_key parent_dir = 3 ∷ []
sort_key (normal name) = 4 ∷ name

abbrev pub component_lt : Component → Component → Bool
component_lt a b = not (lex_leb ltb (sort_key b) (sort_key a))

-- Whether the first path is not after the second: `Path::cmp` compares the components.
unfoldable pub path_leb : List ℕ → List ℕ → Bool
path_leb a b = lex_leb component_lt (components a) (components b)
