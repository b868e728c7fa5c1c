-- ===== src/Files/Search/Kept.antt =====
-- What a page of src/files/search.rs keeps of the search index.
use herdr_context.Base.{
  ℕ, ◌≡◌, Bool, true, String, List, [], ◌∷◌, nat_eq, list_eq, inl, inr, Bool-cases,
}
use herdr_context.Base.Order.{nat_ord, list_ord}
use herdr_context.Base.Map.{Map}
use herdr_context.Base.BTreeMap
use herdr_context.Base.BTreeMap.Entries
use herdr_context.Base.Paths.{RelPath}
use herdr_context.Files.Nodes.{DirectorySnapshot}
use herdr_context.Files.Tree.{FilesTree, apply_directory}
use herdr_context.Files.Tree.Invariant.{IsWellShaped}
use herdr_context.Files.Tree.Operations.{apply_directory-IsWellShaped}
use herdr_context.Files.Search.{
  IndexedSearchPath, SearchablePaths, SearchPageRequest, Page, empty_page, Loaded, settle,
  apply_all, forget_directories, scan, prepare_page,
}

-- Every searchable path is a node of the index.
abbrev pub AreIndexed : {I : Type 0} → FilesTree I → SearchablePaths → Type 0
AreIndexed index searchable =
    Entries.AllEntries
      (λ path (_ : IndexedSearchPath). BTreeMap.contains_key path index.nodes ≡ true) searchable

retained-Passing :
    {V : Type 0} (p : RelPath → V → Bool) (m : Map RelPath V)
    → Entries.AllEntries (λ path v. p path v ≡ true) (BTreeMap.retain p m)
unfolding BTreeMap.retain
retained-Passing p [] = tt
retained-Passing p ((path, v) ∷ m) = elim (Bool-cases (p path v)) [
  | inl keep ↦ rw keep (keep, retained-Passing p m)
  | inr drop ↦ rw drop (retained-Passing p m)
]

apply_all-IsWellShaped :
    {I : Type 0} (index : FilesTree I) (snapshots : List DirectorySnapshot)
    → IsWellShaped index
    → IsWellShaped (apply_all index snapshots)
unfolding apply_all
apply_all-IsWellShaped index [] h = h
apply_all-IsWellShaped index (snapshot ∷ snapshots) h =
    apply_all-IsWellShaped (apply_directory index snapshot) snapshots
      (apply_directory-IsWellShaped index snapshot h)

settle-Kept :
    {I : Type 0} (request : SearchPageRequest I) (page : Page)
    → IsWellShaped request.index
    → AreIndexed request.index request.searchable
    → IsWellShaped (settle request page).index
      × AreIndexed (settle request page).index (settle request page).searchable
unfolding settle
settle-Kept request page shape indexed = elim (Bool-cases page.was_cancelled) [
  | inl stop ↦ rw (stop, settle) (shape, indexed)
  | inr done ↦
      let index = apply_all request.index page.snapshots in
      let merged =
        BTreeMap.extend page.entries
          (forget_directories page.scanned_directories request.searchable) in
      rw (done, settle)
        (
          apply_all-IsWellShaped request.index page.snapshots shape,
          retained-Passing (λ path _. BTreeMap.contains_key path index.nodes) merged,
        )
]

-- A page keeps the search index consistent, whatever the walk of the directories gives and whenever
-- it is cancelled: the index keeps its shape, and every searchable path is a node of it.
pub prepare_page-AreIndexed :
    {I : Type 0} (before after : ℕ → Bool) (load_bounded : ℕ → RelPath → ℕ → ℕ → Loaded)
    (normalize : RelPath → String) (request : SearchPageRequest I)
    → IsWellShaped request.index
    → AreIndexed request.index request.searchable
    → let page = prepare_page before after load_bounded normalize request in
      IsWellShaped page.index × AreIndexed page.index page.searchable
unfolding prepare_page
prepare_page-AreIndexed before after load_bounded normalize request shape indexed =
    settle-Kept request
      (scan before after load_bounded normalize request.remaining_entries request.remaining_examined
        0 empty_page request.directories)
      shape indexed
