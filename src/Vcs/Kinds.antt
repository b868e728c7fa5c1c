-- ===== src/Vcs/Kinds.antt =====
-- The kind that combines the two states of an entry in src/vcs/git.rs.
use herdr_context.Base.{ℕ, ◌≤◌, ◌≡◌, ◌⊎◌, Option, none, some, arith, option_eq}
use herdr_context.Base.Results.{Result, ok, err}
use herdr_context.Vcs.Status.{
  VcsStatusKind, added, modified, deleted, renamed, copied, untracked, conflicted, type_changed,
  status_kind_eq,
}
use herdr_context.Vcs.Fields.{InvalidOutput, no_change, combined_kind}

-- How weak a kind is.
abbrev pub weakness : VcsStatusKind → ℕ
weakness conflicted = 0
weakness renamed = 1
weakness copied = 2
weakness type_changed = 3
weakness deleted = 4
weakness added = 5
weakness modified = 6
weakness untracked = 7

-- The state is not a stronger one than the kind.
abbrev pub NotAbove : VcsStatusKind → Option VcsStatusKind → Type 0
NotAbove kind none = Unit
NotAbove kind (some other) = weakness kind ≤ weakness other

abbrev pub Strongest :
    Option VcsStatusKind → Option VcsStatusKind → Result InvalidOutput VcsStatusKind → Type 0
Strongest index worktree (err e) = (e ≡ no_change) × (index ≡ none) × (worktree ≡ none)
Strongest index worktree (ok kind) =
    ((index ≡ some kind) ⊎ (worktree ≡ some kind)) × NotAbove kind index × NotAbove kind worktree

-- The combined kind is one of the two states, and no state is stronger; it is an error exactly
-- where both are absent.
pub combined_kind-Strongest :
    (index worktree : Option VcsStatusKind)
    → Strongest index worktree (combined_kind index worktree)
unfolding combined_kind option_eq status_kind_eq
combined_kind-Strongest none none = ground arith
combined_kind-Strongest none (some b) = ground arith
combined_kind-Strongest (some a) none = ground arith
combined_kind-Strongest (some conflicted) (some b) = ground arith
combined_kind-Strongest (some renamed) (some b) = ground arith
combined_kind-Strongest (some copied) (some b) = ground arith
combined_kind-Strongest (some type_changed) (some b) = ground arith
combined_kind-Strongest (some deleted) (some b) = ground arith
combined_kind-Strongest (some added) (some b) = ground arith
combined_kind-Strongest (some modified) (some b) = ground arith
combined_kind-Strongest (some untracked) (some b) = ground arith
