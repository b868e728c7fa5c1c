-- ===== src/Tests/Pages.antt =====
-- A page of the search index at concrete inputs.
use herdr_context.Base.{ℕ, ap, ◌≤◌, ◌≡◌, Bool, false, none, some, String, [], ◌∷◌, arith, length}
use herdr_context.Base.Paths.{RelPath}
use herdr_context.Files.Tree.Operations.{new-IsWellShaped}
use herdr_context.Files.Tree.Invariant.{IsWellShaped}
use herdr_context.Files.Search.{SearchPageRequest, Loaded, prepare_page}
use herdr_context.Files.Search.Budgets.{RespectsBudgets, prepare_page-Within}
use herdr_context.Files.Search.Kept.{AreIndexed, prepare_page-AreIndexed}
use herdr_context.Files.Tree.{new}
use herdr_context.Tests.Trees.{root_snapshot}

-- The root directory has one entry, which is given whatever the budgets are.
abbrev walk : ℕ → RelPath → ℕ → ℕ → Loaded
walk n dir max_entries max_examined = some (root_snapshot, 1, false)

abbrev entries_of : Loaded → ℕ
entries_of none = 0
entries_of (some (snapshot, _, _)) = length snapshot.nodes

abbrev examined_of : Loaded → ℕ
examined_of none = 0
examined_of (some (_, examined, _)) = examined

walk-RespectsBudgets : RespectsBudgets walk
walk-RespectsBudgets n dir max_entries max_examined snapshot examined cut e =
    let few : 1 ≡ length snapshot.nodes = ap entries_of e in
    let less : 1 ≡ examined = ap examined_of e in (omega (arith, few), omega (arith, less))

abbrev never : ℕ → Bool
never _ = false

abbrev no_text : RelPath → String
no_text _ = ""

abbrev page_request : SearchPageRequest (Unit {0})
page_request = record {
  index = new tt;
  searchable = [];
  directories = [] ∷ [];
  remaining_entries = 5;
  remaining_examined = 5;
}

prepare_page-Within_example :
    let page = prepare_page never never walk no_text page_request in
    (page.scanned_entries ≤ 5) × (page.examined_entries ≤ 5)
prepare_page-Within_example =
    prepare_page-Within never never walk no_text page_request walk-RespectsBudgets

prepare_page-AreIndexed_example :
    let page = prepare_page never never walk no_text page_request in
    IsWellShaped page.index × AreIndexed page.index page.searchable
unfolding new
prepare_page-AreIndexed_example =
    prepare_page-AreIndexed never never walk no_text page_request (new-IsWellShaped tt) tt
