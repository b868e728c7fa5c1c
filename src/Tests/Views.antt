-- ===== src/Tests/Views.antt =====
-- The Files view at concrete inputs.
use herdr_context.Base.{
  ℕ, ◌+◌, ◌<◌, ◌≡◌, refl, true, false, none, some, String, List, [], ◌∷◌, arith, u64_max, nat_eq,
  list_eq, option_eq, if◌then◌else◌,
}
use herdr_context.Base.Results.{ok}
use herdr_context.Vcs.Status.{VcsStatusSnapshot}
use herdr_context.Files.Merge.{merge_workspace_status}
use herdr_context.Files.Refresh
use herdr_context.Files.View.{
  PreparedRefreshResult, FilesModel, new, select, request_refresh, begin_refresh, apply_directory,
  accept, complete_prepared_refresh, complete_refresh, prepare, merged, status_merge_input,
  next_revision,
}
use herdr_context.Files.View.Stale.{
  begin_refresh-complete_prepared_refresh, complete_prepared_refresh-prepare,
}
use herdr_context.Files.View.Flight.{
  System, Event, selects, applies, requests, starts, step, run, land,
}
use herdr_context.Files.View.Flight.Merges.{land-run}
use herdr_context.Tests.Trees.{
  src_tree, all_visible, nothing_on_disk, statuses, src_path, root_snapshot,
}

abbrev Failure : Type 0
Failure = Unit {0}

abbrev message : Failure → String
message _ = "status failed"

abbrev no_fingerprint : VcsStatusSnapshot → ℕ
no_fingerprint _ = 0

-- Generation 1 runs.
abbrev running : FilesModel (Unit {0})
running = record {
  tree = src_tree;
  refresh = record { requested = 1; completed = 0; running = some 1 };
  workspace_prefix = [];
  failure_notice = none;
  status_is_stale = false;
  diff_stats = none;
  tree_revision = 2;
}

-- A result for it, of the revision given.
abbrev result : ℕ → PreparedRefreshResult (Unit {0}) Failure
result revision = record {
  generation = 1;
  tree_revision = revision;
  tree = ok (src_tree, false);
  status_fingerprint = none;
  diff_stats = none;
}

begin_refresh-complete_prepared_refresh_example :
    (begin_refresh (complete_prepared_refresh message running (result 1)).0).1 ≡ some (1 + 1)
unfolding nat_eq
begin_refresh-complete_prepared_refresh_example =
    begin_refresh-complete_prepared_refresh message running (result 1) refl refl (omega arith) refl

complete_prepared_refresh-prepare_example :
    let now : FilesModel (Unit {0}) = record running {
      tree = record src_tree { selection = some src_path };
    } in
    let prepared =
      prepare all_visible nothing_on_disk no_fingerprint 1
        (status_merge_input running)
        (ok statuses)
        none in
    let (through, changed) = complete_prepared_refresh message now prepared in
    let (direct, changed_now) =
      complete_refresh all_visible nothing_on_disk message now 1 (ok statuses) in
    (changed ≡ changed_now)
    × (through.tree ≡ direct.tree)
    × (through.refresh ≡ direct.refresh)
    × (through.failure_notice ≡ direct.failure_notice)
    × (through.status_is_stale ≡ direct.status_is_stale)
    × (through.workspace_prefix ≡ direct.workspace_prefix)
    × (through.diff_stats ≡ (if changed then none else running.diff_stats))
    × (direct.diff_stats ≡ (if changed then none else running.diff_stats))
    × (through.tree_revision ≡ running.tree_revision)
    × (direct.tree_revision
        ≡ (if changed then next_revision running.tree_revision else running.tree_revision))
complete_prepared_refresh-prepare_example =
    complete_prepared_refresh-prepare all_visible nothing_on_disk message no_fingerprint running 1
      (some src_path) (ok statuses) none

-- A directory arrives, a refresh is requested and started, and the user selects a path.
abbrev events : List (Event (Unit {0}) Failure)
events = applies root_snapshot ∷ requests ∷ starts ∷ selects src_path ∷ []

abbrev after : System (Unit {0})
after =
    run all_visible nothing_on_disk message no_fingerprint
      (record { model = new src_tree []; flight = none }) events

after-revision : after.model.tree_revision < u64_max
unfolding run step new apply_directory request_refresh begin_refresh select
after-revision = omega arith

after-accepted :
    (land all_visible nothing_on_disk message no_fingerprint after (ok statuses) none).1 ≡ true
unfolding run step new apply_directory request_refresh begin_refresh select land prepare merged
    status_merge_input complete_prepared_refresh accept Refresh.new Refresh.request
    Refresh.start_next Refresh.finish nat_eq
after-accepted = refl

land-run_example :
    (land all_visible nothing_on_disk message no_fingerprint after (ok statuses) none).0.model.tree
    ≡ merge_workspace_status all_visible nothing_on_disk after.model.tree statuses
        after.model.workspace_prefix
land-run_example =
    land-run all_visible nothing_on_disk message no_fingerprint src_tree [] events after statuses
      none refl after-revision after-accepted
