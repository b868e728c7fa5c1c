-- ===== src/Files/Merge/Ranks.antt =====
-- What `merge_workspace_status` of src/files/tree.rs makes of a status snapshot, path by path.
use herdr_context.Base.{
  append_assoc, append_nil, ℕ, ◌≡◌, refl, sym, ap, ◌∙◌, Bool, true, false, not, Option, none, some,
  List, [], ◌∷◌, ◌++◌, map, arith, nat_eq, list_eq,
}
use herdr_context.Base.Order.{nat_ord, list_ord}
use herdr_context.Base.Map
use herdr_context.Base.Map.{Map}
use herdr_context.Base.BTreeMap
use herdr_context.Base.Paths.{RelPath}
use herdr_context.Vcs.Status.{VcsStatusKind, VcsEntryStatus, VcsStatusSnapshot}
use herdr_context.Files.Nodes.{TreeNode, virtual, insert_status_with_ancestors, upsert_changed_file}
use herdr_context.Files.Children.{is_virtual, keyed, overlaid}
use herdr_context.Files.Tree.{FilesTree, restore_selection, rebuild_children}
use herdr_context.Files.Tree.Statuses.{
  rank, rank_le, stronger, contribution, rank-insert_status_with_ancestors,
}
use herdr_context.Files.Tree.Invariant.{IsWellShaped}
use herdr_context.Files.Merge.{
  Merge, Metadata, found, not_found, unreadable, empty_merge, names_of, shown, shown_source,
  merge_shown, merge_shown_source, merge_path, merge_source, merge_entry, merge_entries, probe,
  merge_workspace_status,
}

-- What an entry gives the status of a path.
abbrev pub shown_contribution : RelPath → VcsStatusKind → Option RelPath → ℕ
shown_contribution p kind none = 8
shown_contribution p kind (some path) = contribution p path kind

module _ (is_visible : RelPath → Bool) (prefix : RelPath) where
  -- The strongest of what was there and what the entries give.
  unfoldable pub strongest : RelPath → ℕ → List VcsEntryStatus → ℕ
  strongest p before [] = before
  strongest p before (entry ∷ entries) =
      strongest p
        (stronger (shown_contribution p entry.kind (shown is_visible prefix (names_of entry.path)))
          before)
        entries

source_statuses :
    (entry : VcsEntryStatus) (path : Option RelPath) (m : Merge)
    → (merge_shown_source entry path m).statuses ≡ m.statuses
unfolding merge_shown_source merge_source
source_statuses entry none m = refl
source_statuses entry (some path) m = refl

pub rank-merge_shown :
    (m : Merge) (p : RelPath) (entry : VcsEntryStatus) (path : Option RelPath)
    → rank (Map.lookup p (merge_shown entry path m).statuses)
      ≡ stronger (shown_contribution p entry.kind path) (rank (Map.lookup p m.statuses))
unfolding merge_shown merge_path
rank-merge_shown m p entry none = ground (arith, rank_le (Map.lookup p m.statuses))
rank-merge_shown m p entry (some path) =
    rank-insert_status_with_ancestors m.statuses p path entry.kind

module _ (is_visible : RelPath → Bool) (prefix : RelPath) where
  rank-merge_entry :
      (m : Merge) (p : RelPath) (entry : VcsEntryStatus)
      → rank (Map.lookup p (merge_entry is_visible prefix m entry).statuses)
        ≡ stronger
            (shown_contribution p entry.kind (shown is_visible prefix (names_of entry.path)))
            (rank (Map.lookup p m.statuses))
  unfolding merge_entry
  rank-merge_entry m p entry =
      ap (λ s. rank (Map.lookup p s))
        (source_statuses entry (shown_source is_visible prefix entry.source_path)
          (merge_shown entry (shown is_visible prefix (names_of entry.path)) m))
      ∙ rank-merge_shown m p entry (shown is_visible prefix (names_of entry.path))

  pub rank-merge_entries :
      (m : Merge) (p : RelPath) (entries : List VcsEntryStatus)
      → rank (Map.lookup p (merge_entries is_visible prefix m entries).statuses)
        ≡ strongest is_visible prefix p (rank (Map.lookup p m.statuses)) entries
  unfolding merge_entries strongest
  rank-merge_entries m p [] = refl
  rank-merge_entries m p (entry ∷ entries) =
      rank-merge_entries (merge_entry is_visible prefix m entry) p entries
      ∙ ap (λ r. strongest is_visible prefix p r entries) (rank-merge_entry m p entry)

module _ (symlink_metadata : RelPath → Metadata) where
  -- What the candidates that are not on the disk give the status of a path.
  unfoldable pub missing_strongest : RelPath → ℕ → Map RelPath VcsStatusKind → ℕ
  missing_strongest p before [] = before
  missing_strongest p before ((path, status) ∷ candidates) = elim (symlink_metadata path) [
    | found ↦ missing_strongest p before candidates
    | unreadable ↦ missing_strongest p before candidates
    | not_found ↦ missing_strongest p (stronger (contribution p path status) before) candidates
  ]

  -- The nodes that stand for these candidates.
  unfoldable pub missing_nodes : Map RelPath VcsStatusKind → List TreeNode
  missing_nodes [] = []
  missing_nodes ((path, status) ∷ candidates) = elim (symlink_metadata path) [
    | found ↦ missing_nodes candidates
    | unreadable ↦ missing_nodes candidates
    | not_found ↦
        (record { path = path; kind = virtual; status = some status; ignored = false })
        ∷ missing_nodes candidates
  ]

  abbrev pub missing_node : RelPath → VcsStatusKind → TreeNode
  missing_node path status = record {
    path = path;
    kind = virtual;
    status = some status;
    ignored = false;
  }

  abbrev mark_missing : Merge → RelPath → VcsStatusKind → Merge
  mark_missing m path status = record m {
    statuses = insert_status_with_ancestors m.statuses path status;
    changed = upsert_changed_file m.changed path status true;
  }

  -- Both results of the loop.
  abbrev Probed : Merge → List TreeNode → RelPath → Map RelPath VcsStatusKind → Type 0
  Probed m nodes p candidates =
      (rank (Map.lookup p (probe symlink_metadata m nodes candidates).0.statuses)
        ≡ missing_strongest p (rank (Map.lookup p m.statuses)) candidates)
      × ((probe symlink_metadata m nodes candidates).1 ≡ nodes ++ missing_nodes candidates)

  probe_lem :
      (m : Merge) (nodes : List TreeNode) (p : RelPath) (candidates : Map RelPath VcsStatusKind)
      → Probed m nodes p candidates
  unfolding probe missing_strongest missing_nodes
  probe_lem m nodes p [] = (refl, sym (append_nil nodes))
  probe_lem m nodes p ((path, status) ∷ candidates) =
      go (symlink_metadata path) refl (λ m' nodes'. probe_lem m' nodes' p candidates)
    where
      All_cases : Type 0
      All_cases = (m' : Merge) (nodes' : List TreeNode) → Probed m' nodes' p candidates

      go :
          (o : Metadata)
          → symlink_metadata path ≡ o
          → All_cases
          → Probed m nodes p ((path, status) ∷ candidates)
      go found e ih = rw (e, probe, missing_strongest, missing_nodes) (ih m nodes)
      go unreadable e ih = rw (e, probe, missing_strongest, missing_nodes) (ih m nodes)
      go not_found e ih =
          let (ranks, nodes_eq) =
            ih (mark_missing m path status) (nodes ++ missing_node path status ∷ []) in
          let here = rank-insert_status_with_ancestors m.statuses p path status in
          rw (e, probe, missing_strongest, missing_nodes)
            (
              ranks ∙ ap (λ r. missing_strongest p r candidates) here,
              nodes_eq
                  ∙ sym (
                      append_assoc nodes (missing_node path status ∷ [])
                        (missing_nodes candidates)),
            )

module _ {I : Type 0} (is_visible : I → RelPath → Bool)
    (symlink_metadata : RelPath → Metadata) where
  abbrev pub candidates_of : FilesTree I → VcsStatusSnapshot → RelPath → Map RelPath VcsStatusKind
  candidates_of tree snapshot prefix =
      (merge_entries (is_visible tree.ignore) prefix empty_merge
        snapshot.entries).virtual_candidates

  pub rank-merged :
      (tree : FilesTree I) (snapshot : VcsStatusSnapshot) (prefix p : RelPath)
      → rank (
          Map.lookup p
            (merge_workspace_status is_visible symlink_metadata tree snapshot prefix).statuses)
        ≡ missing_strongest symlink_metadata p
            (strongest (is_visible tree.ignore) prefix p 8 snapshot.entries)
            (candidates_of tree snapshot prefix)
  unfolding merge_workspace_status restore_selection rebuild_children Map.lookup
  rank-merged tree snapshot prefix p =
      let m = merge_entries (is_visible tree.ignore) prefix empty_merge snapshot.entries in
      (probe_lem symlink_metadata m [] p m.virtual_candidates).0
      ∙ ap (λ r. missing_strongest symlink_metadata p r m.virtual_candidates)
          (rank-merge_entries (is_visible tree.ignore) prefix empty_merge p snapshot.entries)

  pub lookup-merged :
      (tree : FilesTree I) (snapshot : VcsStatusSnapshot) (prefix p : RelPath)
      → IsWellShaped tree
      → let merged = merge_workspace_status is_visible symlink_metadata tree snapshot prefix in
        Map.lookup p merged.nodes
        ≡ BTreeMap.last_value p
            (map keyed (missing_nodes symlink_metadata (candidates_of tree snapshot prefix)))
            (BTreeMap.changed
              (overlaid merged.statuses)
              (BTreeMap.kept (λ node. not (is_virtual node)) (Map.lookup p tree.nodes)))
  unfolding merge_workspace_status restore_selection rebuild_children
  lookup-merged tree snapshot prefix p h =
      let m = merge_entries (is_visible tree.ignore) prefix empty_merge snapshot.entries in
      let probed = probe symlink_metadata m [] m.virtual_candidates in
      let real = BTreeMap.retain (λ _ node. not (is_virtual node)) tree.nodes in
      let shown_nodes = BTreeMap.map_values (λ _ node. overlaid probed.0.statuses node) real in
      let news = (probe_lem symlink_metadata m [] p m.virtual_candidates).1 in
      let old =
        BTreeMap.lookup-map_values p (λ _ node. overlaid probed.0.statuses node) real
        ∙ ap (BTreeMap.changed (overlaid probed.0.statuses))
            (BTreeMap.lookup-retain p (λ _ node. not (is_virtual node)) tree.nodes h.once) in
      BTreeMap.lookup-extend p (map keyed probed.1) shown_nodes
      ∙ ap (BTreeMap.last_value p (map keyed probed.1)) old
      ∙ ap
          (λ nodes. BTreeMap.last_value p (map keyed nodes) (
            BTreeMap.changed (overlaid probed.0.statuses)
              (BTreeMap.kept (λ node. not (is_virtual node)) (Map.lookup p tree.nodes))))
          news
