-- ===== src/Files/Search/Budgets.antt =====
-- The budgets of a page of src/files/search.rs.
use herdr_context.Base.{
  ℕ, suc, ◌-◌, max, ◌≤◌, ◌≡◌, refl, Bool, true, false, ◌||◌, none, some, String, List, [], ◌∷◌,
  arith, length, saturating_add, u64_max, ◌==◌, nat_eq, inl, inr, Bool-cases,
}
use herdr_context.Base.Paths.{RelPath}
use herdr_context.Files.Nodes.{DirectorySnapshot}
use herdr_context.Files.Search.{
  SearchPageRequest, Page, empty_page, Loaded, visited, skipped, settle, scan, prepare_page,
}

-- The walk of a directory keeps its two budgets, each raised to 1 where it is 0, as
-- `visible_entries_bounded` of src/files/ignore.rs raises them.
abbrev pub RespectsBudgets : (ℕ → RelPath → ℕ → ℕ → Loaded) → Type 0
RespectsBudgets load_bounded =
    (n : ℕ) (dir : RelPath) (max_entries max_examined : ℕ) (snapshot : DirectorySnapshot)
    (examined : ℕ) (cut : Bool)
    → load_bounded n dir max_entries max_examined ≡ some (snapshot, examined, cut)
    → (length snapshot.nodes ≤ max max_entries 1) × (examined ≤ max max_examined 1)

abbrev Within : ℕ → ℕ → Page → Type 0
Within remaining_entries remaining_examined page =
    (page.scanned_entries ≤ remaining_entries) × (page.examined_entries ≤ remaining_examined)

settled :
    {I : Type 0} (request : SearchPageRequest I) (page : Page)
    → Within request.remaining_entries request.remaining_examined page
    → ((settle request page).scanned_entries ≤ request.remaining_entries)
      × ((settle request page).examined_entries ≤ request.remaining_examined)
unfolding settle
settled request page h = elim (Bool-cases page.was_cancelled) [
  | inl stop ↦ rw (stop, settle) h
  | inr done ↦ rw (done, settle) h
]

unraised : (n budget : ℕ) → n ≤ max budget 1 → (budget == 0) ≡ false → n ≤ budget
unfolding nat_eq
unraised n budget h some_left = ground (arith, h, some_left)

added : (a b most : ℕ) → a ≤ most → b ≤ most - a → saturating_add u64_max a b ≤ most
added a b most h g = ground (arith, h, g)

module _ (before after : ℕ → Bool) (load_bounded : ℕ → RelPath → ℕ → ℕ → Loaded)
    (normalize : RelPath → String) (remaining_entries remaining_examined : ℕ) where
  visited-Within :
      (page : Page) (dir : RelPath) (snapshot : DirectorySnapshot) (examined : ℕ) (cut : Bool)
      → Within remaining_entries remaining_examined page
      → length snapshot.nodes ≤ remaining_entries - page.scanned_entries
      → examined ≤ remaining_examined - page.examined_entries
      → Within remaining_entries remaining_examined
          (visited normalize page dir snapshot examined cut)
  unfolding visited
  visited-Within page dir snapshot examined cut (scanned, walked) few less = (
    added page.scanned_entries (length snapshot.nodes) remaining_entries scanned few,
    added page.examined_entries examined remaining_examined walked less,
  )

  scan-Within :
      (n : ℕ) (page : Page) (dirs : List RelPath)
      → RespectsBudgets load_bounded
      → Within remaining_entries remaining_examined page
      → Within remaining_entries remaining_examined (
          scan before after load_bounded normalize remaining_entries remaining_examined n page dirs)
  unfolding scan
  scan-Within n page [] respects h = h
  scan-Within n page (dir ∷ dirs) respects h =
      let entry_budget = remaining_entries - page.scanned_entries in
      let examined_budget = remaining_examined - page.examined_entries in
      elim (Bool-cases (before n)) [
        | inl stop ↦ rw (stop, scan) h
        | inr on ↦ elim (Bool-cases (entry_budget == 0 || examined_budget == 0)) [
          | inl spent ↦ rw (on, spent, scan) h
          | inr left ↦
              go (load_bounded n dir entry_budget examined_budget) refl on left
                (λ page' h'. scan-Within (suc n) page' dirs respects h')
        ]
      ]
    where
      Scanned : Type 0
      Scanned = Within remaining_entries remaining_examined (
          scan before after load_bounded normalize remaining_entries remaining_examined n page
            (dir ∷ dirs))

      go :
          (o : Loaded)
          → load_bounded n dir
              (remaining_entries - page.scanned_entries)
              (remaining_examined - page.examined_entries)
            ≡ o
          → before n ≡ false
          → (remaining_entries - page.scanned_entries == 0
              || remaining_examined - page.examined_entries == 0)
            ≡ false
          → ((page' : Page)
              → Within remaining_entries remaining_examined page'
              → Within remaining_entries remaining_examined (
                  scan before after load_bounded normalize remaining_entries remaining_examined
                    (suc n)
                    page'
                    dirs))
          → Scanned
      go none e on left ih = rw (on, left, e, scan) (ih (skipped page) h)
      go (some (snapshot, examined, true)) e on left ih =
          let (few, less) = respects n dir _ _ snapshot examined true e in
          let few' =
            unraised _ (remaining_entries - page.scanned_entries) few (ground (arith, left)) in
          let less' =
            unraised _ (remaining_examined - page.examined_entries) less (ground (arith, left)) in
          elim (Bool-cases (after n)) [
            | inl stop ↦ rw (on, left, e, stop, scan) h
            | inr run ↦
                rw (on, left, e, run, scan)
                  (visited-Within page dir snapshot examined true h few' less')
          ]
      go (some (snapshot, examined, false)) e on left ih =
          let (few, less) = respects n dir _ _ snapshot examined false e in
          let few' =
            unraised _ (remaining_entries - page.scanned_entries) few (ground (arith, left)) in
          let less' =
            unraised _ (remaining_examined - page.examined_entries) less (ground (arith, left)) in
          elim (Bool-cases (after n)) [
            | inl stop ↦ rw (on, left, e, stop, scan) h
            | inr run ↦
                rw (on, left, e, run, scan)
                  (ih (visited normalize page dir snapshot examined false)
                    (visited-Within page dir snapshot examined false h few' less'))
          ]

-- A page stays within what the search has left, cancelled or not: where the walk of each directory
-- keeps the two budgets that it is given, or gives one entry where one is 0, the entries that a page scans are no more than
-- `remaining_entries` and those that it examines no more than `remaining_examined`.
pub prepare_page-Within :
    {I : Type 0} (before after : ℕ → Bool) (load_bounded : ℕ → RelPath → ℕ → ℕ → Loaded)
    (normalize : RelPath → String) (request : SearchPageRequest I)
    → RespectsBudgets load_bounded
    → let page = prepare_page before after load_bounded normalize request in
      (page.scanned_entries ≤ request.remaining_entries)
      × (page.examined_entries ≤ request.remaining_examined)
unfolding prepare_page
prepare_page-Within before after load_bounded normalize request respects =
    let page =
      scan before after load_bounded normalize request.remaining_entries request.remaining_examined
        0 empty_page request.directories in
    settled request page (
      scan-Within before after load_bounded normalize request.remaining_entries
        request.remaining_examined 0 empty_page request.directories respects
        (omega arith, omega arith))
