-- ===== src/Files/View/Stale.antt =====
-- Which status results the Files view of src/files/mod.rs accepts: none that is superseded, failed
-- or made from an older tree.
use herdr_context.Base.{
  ℕ, ◌+◌, ◌<◌, ◌≡◌, refl, sym, ◌∙◌, Bool, true, false, ◌&&◌, Option, none, some, String, arith,
  u64_max, ◌==◌, nat_eq, list_eq, option_eq, if◌then◌else◌, inl, inr, ◌⊎◌, Bool-cases,
}
use herdr_context.Base.Results.{Result, ok, err}
use herdr_context.Base.Order.{nat_ord, list_ord}
use herdr_context.Base.BTreeMap
use herdr_context.Base.Paths.{RelPath}
use herdr_context.Vcs.Status.{VcsStatusSnapshot}
use herdr_context.Files.Tree.{
  FilesTree, restore_selection, restore_selection_from, rebuild_children, restored,
  ordered_first_path,
}
use herdr_context.Files.Merge.{Metadata, merge_workspace_status}
use herdr_context.Files.Refresh
use herdr_context.Files.Refresh.{RefreshCoordinator}
use herdr_context.Files.View.{
  VcsDiffStats, PreparedRefreshResult, FilesModel, accept, complete_prepared_refresh,
  complete_refresh, merge_now, merged, prepare, status_merge_input, begin_refresh, next_revision,
}

abbrev pub is_ok : {E A : Type 0} → Result E A → Bool
is_ok (ok _) = true
is_ok (err _) = false

pub finish_flag :
    (r : RefreshCoordinator) (g : ℕ)
    → (Refresh.finish r g).1 ≡ (r.running == some g && g == r.requested)
unfolding Refresh.finish
finish_flag r g = ground arith

start_again :
    (r : RefreshCoordinator) (g : ℕ)
    → r.running ≡ some g
    → g ≡ r.requested
    → r.requested < u64_max
    → (Refresh.start_next (Refresh.request (Refresh.finish r g).0).0).1 ≡ some (r.requested + 1)
unfolding Refresh.finish Refresh.request Refresh.start_next nat_eq
start_again r g runs newest room = ground arith

module _ {I E : Type 0} (to_string : E → String) where
  -- The results that are accepted.
  abbrev pub is_current : FilesModel I → PreparedRefreshResult I E → Bool
  is_current m result =
      m.refresh.running == some result.generation
      && result.generation == m.refresh.requested
      && result.tree_revision == m.tree_revision

  -- The view shows the tree of the result, with its statistics and its staleness and no notice, and
  -- the selection stays where its path is a node of that tree.
  abbrev pub Installed :
      FilesModel I → Option VcsDiffStats → Result E (FilesTree I × Bool) → FilesModel I → Type 0
  Installed m stats (err error) after = ⊥
  Installed m stats (ok (tree, stale)) after =
      (record after.tree { selection = none } ≡ record tree { selection = none })
      × ((p : RelPath)
          → m.tree.selection ≡ some p
          → BTreeMap.contains_key p tree.nodes ≡ true
          → after.tree.selection ≡ some p)
      × (after.diff_stats ≡ stats)
      × (after.status_is_stale ≡ stale)
      × (after.failure_notice ≡ none)

  abbrev Accepts :
      FilesModel I
      → Option VcsDiffStats
      → Result E (FilesTree I × Bool)
      → FilesModel I × Bool
      → Bool
      → Type 0
  Accepts m stats tree (after, changed) expected =
      (changed ≡ expected)
      × ((changed ≡ true) × Installed m stats tree after
          ⊎ (after.tree ≡ m.tree)
            × (after.diff_stats ≡ m.diff_stats)
            × (after.status_is_stale ≡ m.status_is_stale))
      × (after.tree_revision ≡ m.tree_revision)
      × (after.workspace_prefix ≡ m.workspace_prefix)

  kept_selection :
      (m : FilesModel I) (tree : FilesTree I) (p : RelPath)
      → m.tree.selection ≡ some p
      → BTreeMap.contains_key p tree.nodes ≡ true
      → (restore_selection_from tree m.tree.selection).selection ≡ some p
  unfolding restore_selection_from restore_selection restored
  kept_selection m tree p chosen there = rw (chosen, there, restored) refl

  accept-Accepts :
      (m : FilesModel I) (refresh : RefreshCoordinator) (stats : Option VcsDiffStats)
      (tree : Result E (FilesTree I × Bool))
      → Accepts m stats tree
          (accept to_string (record m { refresh = refresh }) stats tree)
          (is_ok tree)
  unfolding accept restore_selection_from restore_selection restored
  accept-Accepts m refresh stats (ok (tree, stale)) =
      (refl, inl (refl, (refl, kept_selection m tree, refl, refl, refl)), refl, refl)
  accept-Accepts m refresh stats (err error) = (refl, inr (refl, refl, refl), refl, refl)

  pub complete_prepared_refresh_lem :
      (m : FilesModel I) (result : PreparedRefreshResult I E)
      → let (after, changed) = complete_prepared_refresh to_string m result in
        (changed ≡ (is_current m result && is_ok result.tree))
        × ((changed ≡ true) × Installed m result.diff_stats result.tree after
            ⊎ (after.tree ≡ m.tree)
              × (after.diff_stats ≡ m.diff_stats)
              × (after.status_is_stale ≡ m.status_is_stale))
        × (after.tree_revision ≡ m.tree_revision)
        × (after.workspace_prefix ≡ m.workspace_prefix)
  unfolding complete_prepared_refresh
  complete_prepared_refresh_lem m result =
      let finished = Refresh.finish m.refresh result.generation in
      let flag = finish_flag m.refresh result.generation in
      elim (Bool-cases finished.1) [
        | inr old ↦
            rw (old, complete_prepared_refresh)
              (ground (arith, sym flag ∙ old), inr (refl, refl, refl), refl, refl)
        | inl current ↦ elim (Bool-cases (result.tree_revision == m.tree_revision)) [
          | inr moved ↦
              rw (current, moved, complete_prepared_refresh)
                (ground (arith, sym flag ∙ current), inr (refl, refl, refl), refl, refl)
          | inl same ↦
              let (changed, rest, revision, prefix) =
                accept-Accepts m finished.0 result.diff_stats result.tree in
              rw (current, same, complete_prepared_refresh)
                (ground (arith, changed, sym flag ∙ current), rest, revision, prefix)
        ]
      ]

  -- A result that was made from an older tree is not lost: where its generation is the one running
  -- and the newest requested, but the revision of the tree has moved on, the next start claims a
  -- new generation, the one above it (below the greatest u64).
  pub begin_refresh-complete_prepared_refresh :
      (m : FilesModel I) (result : PreparedRefreshResult I E)
      → m.refresh.running ≡ some result.generation
      → result.generation ≡ m.refresh.requested
      → m.refresh.requested < u64_max
      → (result.tree_revision == m.tree_revision) ≡ false
      → (begin_refresh (complete_prepared_refresh to_string m result).0).1
        ≡ some (m.refresh.requested + 1)
  unfolding begin_refresh complete_prepared_refresh
  begin_refresh-complete_prepared_refresh m result runs newest room moved =
      let flag = finish_flag m.refresh result.generation in
      let current : (Refresh.finish m.refresh result.generation).1 ≡ true =
        ground (arith, flag, runs, newest) in
      rw (current, moved, complete_prepared_refresh)
        (start_again m.refresh result.generation runs newest room)

-- The selection is restored last, so it may change between the capture and the end.
pub restored_late :
    {I : Type 0} (is_visible : I → RelPath → Bool) (symlink_metadata : RelPath → Metadata)
    (tree : FilesTree I) (snapshot : VcsStatusSnapshot) (prefix : RelPath)
    (selected : Option RelPath)
    → restore_selection_from
        (merge_workspace_status is_visible symlink_metadata tree snapshot prefix)
        selected
      ≡ merge_workspace_status is_visible symlink_metadata
          (record tree { selection = selected })
          snapshot
          prefix
unfolding merge_workspace_status restore_selection_from restore_selection rebuild_children restored
    ordered_first_path
restored_late is_visible symlink_metadata tree snapshot prefix none = refl
restored_late is_visible symlink_metadata tree snapshot prefix (some path) = refl

accept-merged :
    {I E : Type 0} (is_visible : I → RelPath → Bool) (symlink_metadata : RelPath → Metadata)
    (to_string : E → String) (m : FilesModel I) (refresh : RefreshCoordinator)
    (selected : Option RelPath) (snapshot : Result E VcsStatusSnapshot)
    (stats : Option VcsDiffStats)
    → let now : FilesModel I = record m {
      tree = record m.tree { selection = selected };
      refresh = refresh;
    } in
      let (through, changed) =
        accept to_string now stats
          (merged is_visible symlink_metadata (status_merge_input m) snapshot) in
      let (direct, changed_now) = merge_now is_visible symlink_metadata to_string now snapshot in
      (changed ≡ changed_now)
      × (through.tree ≡ direct.tree)
      × (through.refresh ≡ direct.refresh)
      × (through.failure_notice ≡ direct.failure_notice)
      × (through.status_is_stale ≡ direct.status_is_stale)
      × (through.workspace_prefix ≡ direct.workspace_prefix)
      × (through.diff_stats ≡ (if changed then stats else m.diff_stats))
      × (direct.diff_stats ≡ (if changed then none else m.diff_stats))
      × (through.tree_revision ≡ m.tree_revision)
      × (direct.tree_revision
          ≡ (if changed then next_revision m.tree_revision else m.tree_revision))
unfolding accept merge_now merged status_merge_input
accept-merged is_visible symlink_metadata to_string m refresh selected (ok snapshot) stats = (
  refl,
  restored_late is_visible symlink_metadata m.tree snapshot m.workspace_prefix selected,
  refl,
  refl,
  refl,
  refl,
  refl,
  refl,
  refl,
  refl,
)
accept-merged is_visible symlink_metadata to_string m refresh selected (err error) stats =
    (refl, refl, refl, refl, refl, refl, refl, refl, refl, refl)

-- Capturing the tree, merging it in a worker and accepting the result has the effect on the tree,
-- the gate, the notice, the staleness and the prefix, and the flag, that merging in place has, also
-- where the user has changed the selection meanwhile. The two differ in this: where they change the
-- view, the first installs the diff statistics of the result and keeps the revision of the tree,
-- and the second drops the statistics and counts the revision on; else both keep both.
pub complete_prepared_refresh-prepare :
    {I E : Type 0} (is_visible : I → RelPath → Bool) (symlink_metadata : RelPath → Metadata)
    (to_string : E → String) (fingerprint : VcsStatusSnapshot → ℕ) (m : FilesModel I) (g : ℕ)
    (selected : Option RelPath) (snapshot : Result E VcsStatusSnapshot)
    (stats : Option VcsDiffStats)
    → let now : FilesModel I = record m { tree = record m.tree { selection = selected } } in
      let result =
        prepare is_visible symlink_metadata fingerprint g (status_merge_input m) snapshot stats in
      let (through, changed) = complete_prepared_refresh to_string now result in
      let (direct, changed_now) =
        complete_refresh is_visible symlink_metadata to_string now g snapshot in
      (changed ≡ changed_now)
      × (through.tree ≡ direct.tree)
      × (through.refresh ≡ direct.refresh)
      × (through.failure_notice ≡ direct.failure_notice)
      × (through.status_is_stale ≡ direct.status_is_stale)
      × (through.workspace_prefix ≡ direct.workspace_prefix)
      × (through.diff_stats ≡ (if changed then stats else m.diff_stats))
      × (direct.diff_stats ≡ (if changed then none else m.diff_stats))
      × (through.tree_revision ≡ m.tree_revision)
      × (direct.tree_revision
          ≡ (if changed then next_revision m.tree_revision else m.tree_revision))
unfolding complete_prepared_refresh complete_refresh prepare status_merge_input
complete_prepared_refresh-prepare is_visible symlink_metadata to_string fingerprint m g selected
      snapshot stats =
    let same : (m.tree_revision == m.tree_revision) ≡ true = ground arith in
    elim (Bool-cases (Refresh.finish m.refresh g).1) [
      | inr old ↦
          rw (old, complete_prepared_refresh, complete_refresh)
            (refl, refl, refl, refl, refl, refl, refl, refl, refl, refl)
      | inl current ↦
          rw (current, same, complete_prepared_refresh, complete_refresh)
            (accept-merged is_visible symlink_metadata to_string m (Refresh.finish m.refresh g).0
              selected snapshot stats)
    ]
