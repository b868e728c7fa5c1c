-- ===== src/Tests/Keys.antt =====
-- Keys at concrete values.
use herdr_context.Base.{ℕ, ◌≡◌, false, none, some}
use herdr_context.Intent.{begin_file_search}
use herdr_context.Model.Geometry.{UiGeometry, Rect}
use herdr_context.Input.{
  file_search, file_search_active, KeyEvent, char, press, release, key_event,
  map_event_with_keybindings,
}
use herdr_context.Input.Modes.{AreSearch, file_search-AreSearch}

abbrev line : ℕ → ℕ → Rect
line y height = record { x = 0; y = y; width = 40; height = height }

abbrev geometry : UiGeometry
geometry = record { files_tab = line 0 1; conversations_tab = line 1 1; content = line 2 20 }

abbrev slash : KeyEvent
slash = record { code = char "/"; control = false; kind = press }

file_search-AreSearch_example :
    AreSearch (
      map_event_with_keybindings
        (key_event slash)
        file_search
        geometry
        (some λ _. some begin_file_search))
    × (map_event_with_keybindings
          (key_event (record slash { kind = release }))
          file_search_active
          geometry
          (some λ _. some begin_file_search)
        ≡ none)
file_search-AreSearch_example =
    file_search-AreSearch slash file_search_active geometry (some λ _. some begin_file_search)
