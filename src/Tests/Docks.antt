-- ===== src/Tests/Docks.antt =====
-- The dock state and Jujutsu's records at concrete inputs.
use herdr_context.Base.{
  ℕ, ◌≡◌, refl, true, false, ◌&&◌, Option, none, some, String, List, [], ◌∷◌, arith, ◌==◌,
  string_eq, nat_eq, list_eq, if◌then◌else◌,
}
use herdr_context.Base.Results.{ok}
use herdr_context.Base.Order.{nat_ord, list_ord}
use herdr_context.Base.Map
use herdr_context.Base.BTreeMap
use herdr_context.Host.DockState.{
  DockRecord, DockStateFile, Socket, empty_state, same_tab, upsert, remove, load, upsert_record,
}
use herdr_context.Host.DockState.Docks.{find_dock, find_dock-upsert, find_dock-remove}
use herdr_context.Host.DockState.Caps.{load-upsert_record}
use herdr_context.Vcs.Status.{renamed}
use herdr_context.Vcs.Entries.{Every}
use herdr_context.Vcs.Jujutsu.{file, parse_templated_diff}
use herdr_context.Vcs.Jujutsu.Snapshot.{IsSnapshot, parse_templated_diff-IsSnapshot}
use herdr_context.Vcs.Jujutsu.Records.{DiffRecord}
use herdr_context.Vcs.Jujutsu.Reread.{IsPrintable, entries_of, print, parse_templated_diff-print}

abbrev socket : Socket
socket = b'/' ∷ b's' ∷ []

abbrev workspace : String
workspace = "w"

abbrev tab : String
tab = "t"

abbrev dock : DockRecord
dock = record { workspace_id = workspace; tab_id = tab; dock_pane_id = "p"; width = 40 }

-- The state with that dock only.
abbrev one_dock : DockStateFile
one_dock = record { version = 1; servers = (socket, dock ∷ []) ∷ [] }

find_dock-upsert_example : find_dock one_dock socket workspace tab ≡ (
    if socket == socket && same_tab workspace tab dock
    then some dock
    else find_dock empty_state socket workspace tab)
unfolding upsert BTreeMap.insert BTreeMap.contains_key BTreeMap.place Map.lookup
find_dock-upsert_example =
    find_dock-upsert empty_state one_dock socket socket dock workspace tab refl

find_dock-remove_example :
    find_dock (remove one_dock socket workspace tab).0 socket workspace tab ≡ (
      if socket == socket && (workspace == workspace && tab == tab)
      then none
      else find_dock one_dock socket workspace tab)
find_dock-remove_example = find_dock-remove one_dock socket socket workspace tab workspace tab

-- A decoder that knows the one state, and its encoder.
abbrev decode : List ℕ → Option DockStateFile
decode (_ ∷ []) = some one_dock
decode _ = none

abbrev encode : DockStateFile → List ℕ
encode _ = b'1' ∷ []

load-upsert_record_example :
    find_dock
      (load decode encode (upsert_record decode encode none socket dock).0)
      socket
      workspace
      tab
    ≡ (if socket == socket && same_tab workspace tab dock
        then some dock
        else find_dock (load decode encode none) socket workspace tab)
unfolding load upsert BTreeMap.insert BTreeMap.contains_key BTreeMap.place Map.lookup
load-upsert_record_example =
    load-upsert_record decode encode none socket dock one_dock socket workspace tab refl refl
      (omega arith)

abbrev old_name : List ℕ
old_name = b'o' ∷ []

abbrev new_name : List ℕ
new_name = b'n' ∷ []

-- A renamed file.
abbrev renamed_record : DiffRecord
renamed_record = record {
  status = renamed;
  source = old_name;
  target = new_name;
  source_conflict = false;
  target_conflict = false;
  source_type = file;
  target_type = file;
}

renamed_record-IsPrintable : IsPrintable renamed_record
unfolding list_eq nat_eq
renamed_record-IsPrintable = record {
  status_known = refl;
  source_normal = (old_name, [], (((refl, tt), refl, refl, refl), tt), refl);
  target_normal = (new_name, [], (((refl, tt), refl, refl, refl), tt), refl);
  source_free = (refl, tt);
  target_free = (refl, tt);
}

parse_templated_diff-IsSnapshot_example :
    Every (IsSnapshot true) (parse_templated_diff (print (renamed_record ∷ [])) true)
parse_templated_diff-IsSnapshot_example =
    parse_templated_diff-IsSnapshot (print (renamed_record ∷ [])) true

parse_templated_diff-print_example :
    parse_templated_diff (print (renamed_record ∷ [])) true
    ≡ ok (record { entries = entries_of (renamed_record ∷ []); stale = true })
parse_templated_diff-print_example =
    parse_templated_diff-print (renamed_record ∷ []) true (renamed_record-IsPrintable, tt)
      (omega arith)
