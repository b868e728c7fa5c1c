-- ===== src/Files/View/Flight/Merges.antt =====
-- The tree that a status result leaves in src/files/mod.rs, however the calls are ordered.
use herdr_context.Base.{
  ℕ, ◌+◌, ◌≤◌, ◌<◌, ◌≡◌, refl, ap, ◌∙◌, Bool, true, Option, none, some, String, List, [], ◌∷◌,
  arith, leb, u64_max, ◌==◌, nat_eq, list_eq, option_eq, inl, inr, ◌⊎◌, Bool-cases,
}
use herdr_context.Base.Results.{Result, ok}
use herdr_context.Base.Order.{nat_ord, list_ord}
use herdr_context.Base.BTreeMap
use herdr_context.Base.Paths.{RelPath}
use herdr_context.Vcs.Status.{VcsStatusSnapshot}
use herdr_context.Files.Tree
use herdr_context.Files.Tree.{FilesTree}
use herdr_context.Files.Merge.{Metadata, merge_workspace_status}
use herdr_context.Files.Refresh
use herdr_context.Files.Refresh.{RefreshCoordinator}
use herdr_context.Files.View.{
  VcsDiffStats, StatusMergeInput, FilesModel, new, select, apply_directory, mark_status_stale,
  request_refresh, begin_refresh, cancel_refresh_start, replace_tree, accept,
  complete_prepared_refresh, merged, prepare, status_merge_input, next_revision,
}
use herdr_context.Files.View.Stale.{
  is_current, finish_flag, restored_late, complete_prepared_refresh_lem,
}
use herdr_context.Files.View.Flight.{
  System, Event, selects, applies, replaces, marks_stale, requests, starts, cancels, completes,
  launched, land, step, run, SameFiles, Fresh,
}

next_lem :
    (n r : ℕ)
    → n ≤ r
    → r ≤ u64_max
    → (n ≤ next_revision r)
      × (next_revision r ≤ u64_max)
      × ((n < next_revision r) ⊎ (u64_max ≤ next_revision r))
next_lem n r h room = elim (Bool-cases (leb (r + 1) u64_max)) [
  | inl more ↦ rw more (ground arith, ground (arith, more), inl (ground arith))
  | inr full ↦ rw full (ground arith, ground arith, inr (ground arith))
]

module _ {I : Type 0} where
  bumped :
      (m : FilesModel I) (tree : FilesTree I) (flight : Option (ℕ × StatusMergeInput I))
      → m.tree_revision ≤ u64_max
      → Fresh m flight
      → Fresh (record m { tree = tree; tree_revision = next_revision m.tree_revision }) flight
  bumped m tree none room h = tt
  bumped m tree (some (generation, input)) room (below, prefix, _) =
      let (above, _, which) = next_lem input.tree_revision m.tree_revision below room in
      (above, prefix, elim which [ inl older ↦ inl older | inr full ↦ inr (inl full) ])

  moved :
      (m m' : FilesModel I) (flight : Option (ℕ × StatusMergeInput I))
      → m'.tree_revision ≡ m.tree_revision
      → m'.workspace_prefix ≡ m.workspace_prefix
      → SameFiles m.tree m'.tree
      → Fresh m flight
      → Fresh m' flight
  moved m m' none r p same h = tt
  moved m m' (some (generation, input)) r p same (below, prefix, fresh) =
      rw (r, p)
        (
          below,
          prefix,
          elim fresh [
            | inl older ↦ inl older
            | inr (inl full) ↦ inr (inl full)
            | inr (inr captured) ↦ inr (inr (captured ∙ same))
          ],
        )

  -- The invariant of the runs.
  abbrev pub IsFresh : System I → Type 0
  IsFresh s = (s.model.tree_revision ≤ u64_max) × Fresh s.model s.flight

  select-SameFiles :
      (m : FilesModel I) (path : RelPath)
      → ((select m path).0.tree_revision ≡ m.tree_revision)
        × ((select m path).0.workspace_prefix ≡ m.workspace_prefix)
        × SameFiles m.tree (select m path).0.tree
  unfolding select Tree.select
  select-SameFiles m path = elim (Bool-cases (BTreeMap.contains_key path m.tree.nodes)) [
    | inl there ↦ rw there (refl, refl, refl)
    | inr absent ↦ rw absent (refl, refl, refl)
  ]

  launched-Fresh :
      (m : FilesModel I) (refresh : RefreshCoordinator) (generation : Option ℕ)
      (flight : Option (ℕ × StatusMergeInput I))
      → Fresh m flight
      → let started : FilesModel I = record m { refresh = refresh } in
        Fresh started (launched started generation flight)
  unfolding status_merge_input
  launched-Fresh m refresh none flight h =
      moved m (record m { refresh = refresh }) flight refl refl refl h
  launched-Fresh m refresh (some generation) flight h = (omega arith, refl, inr (inr refl))

module _ {I E : Type 0} (is_visible : I → RelPath → Bool) (symlink_metadata : RelPath → Metadata)
    (to_string : E → String) (fingerprint : VcsStatusSnapshot → ℕ) where
  land-IsFresh :
      (s : System I) (snapshot : Result E VcsStatusSnapshot) (stats : Option VcsDiffStats)
      → s.model.tree_revision ≤ u64_max
      → Fresh s.model s.flight
      → IsFresh (land is_visible symlink_metadata to_string fingerprint s snapshot stats).0
  unfolding land
  land-IsFresh s snapshot stats room h = go s.flight refl
    where
      go :
          (flight : Option (ℕ × StatusMergeInput I))
          → s.flight ≡ flight
          → IsFresh (land is_visible symlink_metadata to_string fingerprint s snapshot stats).0
      go none e = rw (e, land) (room, h)
      go (some (generation, input)) e =
          let result =
            prepare is_visible symlink_metadata fingerprint generation input snapshot stats in
          let (_, _, revision, _) = complete_prepared_refresh_lem to_string s.model result in
          rw (e, land) (rw revision room, tt)

  step-IsFresh :
      (s : System I) (event : Event I E)
      → IsFresh s
      → IsFresh (step is_visible symlink_metadata to_string fingerprint s event)
  unfolding step apply_directory replace_tree request_refresh begin_refresh cancel_refresh_start
      mark_status_stale
  step-IsFresh s (selects path) (room, h) =
      let (r, p, same) = select-SameFiles s.model path in
      (rw r room, moved s.model (select s.model path).0 s.flight r p same h)
  step-IsFresh s (applies snapshot) (room, h) = (
    (next_lem 0 s.model.tree_revision (omega arith) room).1,
    bumped s.model (Tree.apply_directory s.model.tree snapshot) s.flight room h,
  )
  step-IsFresh s (replaces tree) (room, h) =
      ((next_lem 0 s.model.tree_revision (omega arith) room).1, bumped s.model tree s.flight room h)
  step-IsFresh s marks_stale (room, h) = elim (Bool-cases s.model.status_is_stale) [
    | inl already ↦ rw (already, mark_status_stale) (room, h)
    | inr fresh ↦
        rw (fresh, mark_status_stale)
          (
            room,
            moved s.model (record s.model { status_is_stale = true }) s.flight refl refl refl h,
          )
  ]
  step-IsFresh s requests (room, h) =
      (room, moved s.model (request_refresh s.model).0 s.flight refl refl refl h)
  step-IsFresh s starts (room, h) = (
    room,
    launched-Fresh s.model (Refresh.start_next s.model.refresh).0
        (Refresh.start_next s.model.refresh).1 s.flight h,
  )
  step-IsFresh s (cancels generation) (room, h) =
      (room, moved s.model (cancel_refresh_start s.model generation).0 s.flight refl refl refl h)
  step-IsFresh s (completes snapshot stats) (room, h) = land-IsFresh s snapshot stats room h

  run-IsFresh :
      (s : System I) (events : List (Event I E))
      → IsFresh s
      → IsFresh (run is_visible symlink_metadata to_string fingerprint s events)
  unfolding run
  run-IsFresh s [] h = h
  run-IsFresh s (event ∷ events) h =
      run-IsFresh (step is_visible symlink_metadata to_string fingerprint s event) events
        (step-IsFresh s event h)

  -- A result of the captured tree that is accepted is the merge of the tree that is there.
  accepted-merge :
      (m : FilesModel I) (g : ℕ) (input : StatusMergeInput I) (snapshot : VcsStatusSnapshot)
      (stats : Option VcsDiffStats)
      → Fresh m (some (g, input))
      → m.tree_revision < u64_max
      → let result = prepare is_visible symlink_metadata fingerprint g input (ok snapshot) stats in
        is_current to_string m result ≡ true
        → (complete_prepared_refresh to_string m result).0.tree
          ≡ merge_workspace_status is_visible symlink_metadata m.tree snapshot m.workspace_prefix
  unfolding complete_prepared_refresh prepare merged accept
  accepted-merge m g input snapshot stats (below, prefix, fresh) room current =
      let finished : (Refresh.finish m.refresh g).1 ≡ true =
        ground (arith, finish_flag m.refresh g, current) in
      let same_revision : (input.tree_revision == m.tree_revision) ≡ true =
        ground (arith, current) in
      let same : SameFiles input.tree m.tree = elim fresh [
        | inl older ↦ absurd (ground (arith, older, same_revision))
        | inr (inl full) ↦ absurd (omega (arith, full, room))
        | inr (inr captured) ↦ captured
      ] in
      rw (finished, same_revision, complete_prepared_refresh)
        (restored_late is_visible symlink_metadata input.tree snapshot input.workspace_prefix
            m.tree.selection
          ∙ rw prefix (
              ap
                (λ tree.
                  merge_workspace_status is_visible symlink_metadata
                    (record tree { selection = m.tree.selection }) snapshot m.workspace_prefix)
                same))

  land-merges :
      (s : System I) (snapshot : VcsStatusSnapshot) (stats : Option VcsDiffStats)
      → Fresh s.model s.flight
      → s.model.tree_revision < u64_max
      → (land is_visible symlink_metadata to_string fingerprint s (ok snapshot) stats).1 ≡ true
      → (land is_visible symlink_metadata to_string fingerprint s (ok snapshot) stats).0.model.tree
        ≡ merge_workspace_status is_visible symlink_metadata s.model.tree snapshot
            s.model.workspace_prefix
  unfolding land prepare
  land-merges s snapshot stats fresh room accepted = go s.flight refl
    where
      go :
          (flight : Option (ℕ × StatusMergeInput I))
          → s.flight ≡ flight
          → (land is_visible symlink_metadata to_string fingerprint s
              (ok snapshot)
              stats).0.model.tree
            ≡ merge_workspace_status is_visible symlink_metadata s.model.tree snapshot
                s.model.workspace_prefix
      go none e = absurd (ground (arith, rw (e, land) at accepted))
      go (some (g, input)) e =
          let result =
            prepare is_visible symlink_metadata fingerprint g input (ok snapshot) stats in
          let (changed, _, _, _) = complete_prepared_refresh_lem to_string s.model result in
          let current : is_current to_string s.model result ≡ true =
            ground (arith, changed, rw (e, land) at accepted) in
          rw (e, land) (accepted-merge s.model g input snapshot stats (rw e at fresh) room current)

  -- No status overwrites a directory that was loaded meanwhile. However the calls are ordered, with
  -- any number of directories applied, trees replaced and selections made while the job runs, a
  -- successful result that the view accepts leaves the merge of its snapshot into the tree that the
  -- view has when the job ends (below the greatest revision).
  pub land-run :
      (tree : FilesTree I) (prefix : RelPath) (events : List (Event I E)) (s : System I)
      (snapshot : VcsStatusSnapshot) (stats : Option VcsDiffStats)
      → run is_visible symlink_metadata to_string fingerprint
          (record { model = new tree prefix; flight = none })
          events
        ≡ s
      → s.model.tree_revision < u64_max
      → (land is_visible symlink_metadata to_string fingerprint s (ok snapshot) stats).1 ≡ true
      → (land is_visible symlink_metadata to_string fingerprint s (ok snapshot) stats).0.model.tree
        ≡ merge_workspace_status is_visible symlink_metadata s.model.tree snapshot
            s.model.workspace_prefix
  unfolding new
  land-run tree prefix events s snapshot stats reached room accepted =
      let fresh =
        run-IsFresh (record { model = new tree prefix; flight = none }) events (omega arith, tt) in
      land-merges s snapshot stats (rw reached at fresh).1 room accepted
