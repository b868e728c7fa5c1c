-- ===== src/Files/Search.antt =====
-- The search index of src/files/search.rs: one page of directories is walked within its budgets. The
-- walk of one directory, the reads of the two cancellation flags and the searchable text of a path
-- are parameters.
pub mod Budgets
pub mod Kept
pub mod Projection
pub mod Descent
pub mod Loops
pub mod Projected
use herdr_context.Base.{
  ℕ, zero, suc, ◌+◌, ◌-◌, ◌*◌, Bool, true, false, not, ◌&&◌, ◌||◌, Option, none, some, String, List,
  [], ◌∷◌, ◌++◌, map, retain, length, saturating_add, u64_max, ◌==◌, nat_eq, list_eq, option_eq,
  if◌then◌else◌,
}
use herdr_context.Base.Order.{nat_ord, list_ord}
use herdr_context.Base.Map.{Map}
use herdr_context.Base.BTreeMap
use herdr_context.Base.Paths.{RelPath, parent}
use herdr_context.Files.Nodes.{
  TreeNodeKind, directory, virtual, node_kind_eq, TreeNode, DirectorySnapshot,
}
use herdr_context.Files.Tree.{FilesTree, apply_directory}

pub record IndexedSearchPath : Type 0 where
  pub kind : TreeNodeKind
  pub normalized : String

abbrev pub SearchablePaths : Type 0
SearchablePaths = Map RelPath IndexedSearchPath

pub record SearchPageRequest (I : Type 0) : Type 0 where
  pub index : FilesTree I
  pub searchable : SearchablePaths
  pub directories : List RelPath
  pub remaining_entries : ℕ  -- usize
  pub remaining_examined : ℕ  -- usize

pub record PreparedSearchPage (I : Type 0) : Type 0 where
  pub index : FilesTree I
  pub searchable : SearchablePaths
  pub discovered_directories : List RelPath
  pub scanned_entries : ℕ  -- usize
  pub examined_entries : ℕ  -- usize
  pub skipped_directories : ℕ  -- usize
  pub truncated : Bool
  pub cancelled : Bool

-- The variables of the loop over the directories.
pub record Page : Type 0 where
  pub snapshots : List DirectorySnapshot
  pub scanned_directories : List RelPath
  pub discovered_directories : List RelPath
  pub entries : List (RelPath × IndexedSearchPath)
  pub scanned_entries : ℕ  -- usize
  pub examined_entries : ℕ  -- usize
  pub skipped_directories : ℕ  -- usize
  pub truncated : Bool
  pub was_cancelled : Bool

abbrev pub empty_page : Page
empty_page = record {
  snapshots = [];
  scanned_directories = [];
  discovered_directories = [];
  entries = [];
  scanned_entries = 0;
  examined_entries = 0;
  skipped_directories = 0;
  truncated = false;
  was_cancelled = false;
}

abbrev pub directories_of : List TreeNode → List RelPath
directories_of nodes = map (λ node. node.path) (retain (λ node. node.kind == directory) nodes)

-- The nodes that are no directories, with their searchable texts.
abbrev pub entries_of : (RelPath → String) → List TreeNode → List (RelPath × IndexedSearchPath)
entries_of normalize nodes =
    map (λ node. (node.path, record { kind = node.kind; normalized = normalize node.path }))
      (retain (λ node. not (node.kind == directory)) nodes)

-- What the walk of one directory gives: its snapshot, the number of entries examined, and whether
-- a budget cut it short; nothing where it fails.
abbrev pub Loaded : Type 0
Loaded = Option (DirectorySnapshot × ℕ × Bool)

unfoldable pub visited : (RelPath → String) → Page → RelPath → DirectorySnapshot → ℕ → Bool → Page
visited normalize page dir snapshot examined directory_truncated = record page {
  snapshots = page.snapshots ++ snapshot ∷ [];
  scanned_directories = page.scanned_directories ++ dir ∷ [];
  discovered_directories = page.discovered_directories ++ directories_of snapshot.nodes;
  entries = page.entries ++ entries_of normalize snapshot.nodes;
  scanned_entries = saturating_add u64_max page.scanned_entries (length snapshot.nodes);
  examined_entries = saturating_add u64_max page.examined_entries examined;
  truncated = page.truncated || directory_truncated;
}

abbrev pub skipped : Page → Page
skipped page = record page {
  skipped_directories = saturating_add u64_max page.skipped_directories 1;
}

-- `searchable.retain` for each scanned directory.
unfoldable pub forget_directories : List RelPath → SearchablePaths → SearchablePaths
unfolding node_kind_eq option_eq list_eq nat_eq
forget_directories [] searchable = searchable
forget_directories (dir ∷ dirs) searchable = forget_directories dirs (
    BTreeMap.retain (λ path indexed. indexed.kind == virtual || not (parent path == some dir))
      searchable)

module _ {I : Type 0} where
  unfoldable pub apply_all : FilesTree I → List DirectorySnapshot → FilesTree I
  apply_all index [] = index
  apply_all index (snapshot ∷ snapshots) = apply_all (apply_directory index snapshot) snapshots

  abbrev pub prepared : FilesTree I → SearchablePaths → Page → PreparedSearchPage I
  prepared index searchable page = record {
    index = index;
    searchable = searchable;
    discovered_directories = page.discovered_directories;
    scanned_entries = page.scanned_entries;
    examined_entries = page.examined_entries;
    skipped_directories = page.skipped_directories;
    truncated = page.truncated;
    cancelled = page.was_cancelled;
  }

  -- The part after the loop, which a cancelled page leaves out.
  unfoldable pub settle : SearchPageRequest I → Page → PreparedSearchPage I
  settle request page =
      if page.was_cancelled
      then prepared request.index request.searchable page
      else let index = apply_all request.index page.snapshots in
        let merged =
          BTreeMap.extend page.entries
            (forget_directories page.scanned_directories request.searchable) in
        prepared index (BTreeMap.retain (λ path _. BTreeMap.contains_key path index.nodes) merged)
          page

-- The reads of the flags before and after the walk of the n-th directory, and that walk.
module _ (before after : ℕ → Bool) (load_bounded : ℕ → RelPath → ℕ → ℕ → Loaded)
    (normalize : RelPath → String) (remaining_entries remaining_examined : ℕ) where
  unfoldable pub scan : ℕ → Page → List RelPath → Page
  scan n page [] = page
  scan n page (dir ∷ dirs) =
      let entry_budget = remaining_entries - page.scanned_entries in
      let examined_budget = remaining_examined - page.examined_entries in
      if before n
      then record page { was_cancelled = true }
      else if entry_budget == 0 || examined_budget == 0
      then record page { truncated = true }
      else elim (load_bounded n dir entry_budget examined_budget) [
        | none ↦ scan (suc n) (skipped page) dirs
        | some (snapshot, examined, directory_truncated) ↦
            if after n
            then record page { was_cancelled = true }
            else if directory_truncated
            then visited normalize page dir snapshot examined true
            else scan (suc n) (visited normalize page dir snapshot examined false) dirs
      ]

unfoldable pub prepare_page :
    {I : Type 0}
    → (before after : ℕ → Bool) → (ℕ → RelPath → ℕ → ℕ → Loaded)
    → (RelPath → String)
    → SearchPageRequest I
    → PreparedSearchPage I
prepare_page before after load_bounded normalize request = settle request (
    scan before after load_bounded normalize request.remaining_entries request.remaining_examined 0
      empty_page request.directories)
