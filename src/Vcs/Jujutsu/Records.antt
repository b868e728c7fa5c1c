-- ===== src/Vcs/Jujutsu/Records.antt =====
-- What a record of Jujutsu's template says, apart from src/vcs/jj.rs, and that its parser builds it.
use herdr_context.Base.{
  ℕ, ◌≡◌, refl, Bool, true, false, not, ◌&&◌, ◌||◌, Option, none, some, List, arith, ◌==◌, nat_eq,
  list_eq, if◌then◌else◌,
}
use herdr_context.Vcs.Status.{
  VcsStatusKind, modified, renamed, copied, type_changed, conflicted, status_kind_eq,
  VcsEntryStatus,
}
use herdr_context.Vcs.Jujutsu.{
  FileType, absent, file, symlink, tree, git_submodule, conflict, file_type_eq, is_structural,
  renames, kind_of, conflicted_if,
}

pub record DiffRecord : Type 0 where
  pub status : VcsStatusKind
  pub source : List ℕ
  pub target : List ℕ
  pub source_conflict : Bool
  pub target_conflict : Bool
  pub source_type : FileType
  pub target_type : FileType

-- What a side of a record is: not there, a directory, or something with content.
pub data Side : Type 0 where
  missing folder content : Side

abbrev pub side_of : FileType → Side
side_of absent = missing
side_of tree = folder
side_of file = content
side_of symlink = content
side_of git_submodule = content
side_of conflict = content

abbrev pub tells_nothing : Side → Side → Bool
tells_nothing content _ = false
tells_nothing _ content = false
tells_nothing _ _ = true

abbrev pub is_conflict : FileType → Bool → Bool
is_conflict conflict _ = true
is_conflict _ flag = flag

-- Both sides are there, with two types.
abbrev pub retyped : Side → Side → Bool → Bool
retyped missing _ _ = false
retyped _ missing _ = false
retyped _ _ same = not same

-- A modified path is retyped, and every other status is what it says.
abbrev pub told_kind : VcsStatusKind → Bool → VcsStatusKind
told_kind modified true = type_changed
told_kind status _ = status

-- A rename and a copy have a source.
abbrev pub told_source : VcsStatusKind → List ℕ → Option (List ℕ)
told_source renamed source = some source
told_source copied source = some source
told_source _ source = none

abbrev pub told_state : Bool → Option VcsStatusKind
told_state true = some conflicted
told_state false = none

-- What the record says: nothing where both sides are absent or a directory.
abbrev pub entry_of : DiffRecord → Option VcsEntryStatus
entry_of r =
    if tells_nothing (side_of r.source_type) (side_of r.target_type)
    then none
    else some (record {
      path = r.target;
      source_path = told_source r.status r.source;
      kind =
          if is_conflict r.source_type r.source_conflict
            || is_conflict r.target_type r.target_conflict
          then conflicted
          else told_kind r.status (
              retyped (side_of r.source_type) (side_of r.target_type)
                (r.source_type == r.target_type));
      index_state = told_state r.source_conflict;
      worktree_state = told_state r.target_conflict;
    })

-- The entry as the parser builds it.
abbrev pub built : DiffRecord → Option VcsEntryStatus
built r =
    if is_structural r.source_type && is_structural r.target_type
    then none
    else some (record {
      path = r.target;
      source_path = if renames r.status then some r.source else none;
      kind = kind_of r.status r.source_conflict r.target_conflict r.source_type r.target_type;
      index_state = conflicted_if r.source_conflict;
      worktree_state = conflicted_if r.target_conflict;
    })

structural_lem :
    (a b : FileType) → (is_structural a && is_structural b) ≡ tells_nothing (side_of a) (side_of b)
structural_lem a b = ground arith

source_lem :
    (status : VcsStatusKind) (source : List ℕ)
    → (if renames status then some source else none) ≡ told_source status source
source_lem status source = ground arith

state_lem : (flag : Bool) → conflicted_if flag ≡ told_state flag
state_lem flag = ground arith

kind_lem :
    (status : VcsStatusKind) (a b : Bool) (s t : FileType)
    → kind_of status a b s t ≡ (
        if is_conflict s a || is_conflict t b
        then conflicted
        else told_kind status (retyped (side_of s) (side_of t) (s == t)))
unfolding status_kind_eq file_type_eq
kind_lem status a b s t = ground arith

pub built_lem : (r : DiffRecord) → built r ≡ entry_of r
built_lem r =
    rw
      (
        structural_lem r.source_type r.target_type,
        source_lem r.status r.source,
        state_lem r.source_conflict,
        state_lem r.target_conflict,
        kind_lem r.status r.source_conflict r.target_conflict r.source_type r.target_type,
      )
      refl
