-- ===== src/Input/Modes.antt =====
-- What the modes of src/input.rs let through.
use Prim.Native.Char.{Char, code}
use herdr_context.Base.{◌≡◌, refl, Bool, true, false, Option, none, some, arith, nat_eq}
use herdr_context.Intent.{
  Intent, quit, next_view, previous_view, file_search_input, file_search_backspace,
  file_search_clear, file_search_commit, file_search_cancel,
}
use herdr_context.Model.Geometry.{UiGeometry}
use herdr_context.Input.{
  InputMode, normal, file_search, file_search_active, KeyCode, char, KeyEventKind, release,
  KeyEvent, key_event, map_normal_key, map_file_search_key, map_key, map_key_event,
  map_event_with_keybindings, map_event, is_release, search_code, control_code,
}

-- Ctrl-C quits in every mode, held down or pressed, where no key bindings are configured.
pub control_c-quit :
    (c : Char) (kind : KeyEventKind) (mode : InputMode) (geometry : UiGeometry)
    → code c ≡ b'c'
    → is_release kind ≡ false
    → map_event (key_event (record { code = char c; control = true; kind = kind })) mode geometry
      ≡ some quit
unfolding map_event map_event_with_keybindings map_key_event map_key map_normal_key
    map_file_search_key nat_eq
control_c-quit c kind normal geometry e h = ground (arith, e, h)
control_c-quit c kind file_search geometry e h = ground (arith, e, h)
control_c-quit c kind file_search_active geometry e h = ground (arith, e, h)

-- The intents of the search prompt: its edits, the two view keys and quit.
abbrev pub is_search_intent : Intent → Bool
is_search_intent quit = true
is_search_intent next_view = true
is_search_intent previous_view = true
is_search_intent (file_search_input _) = true
is_search_intent file_search_backspace = true
is_search_intent file_search_clear = true
is_search_intent file_search_commit = true
is_search_intent file_search_cancel = true
is_search_intent _ = false

abbrev pub AreSearch : Option Intent → Type 0
AreSearch none = Unit
AreSearch (some intent) = is_search_intent intent ≡ true

search_code-AreSearch : (k : KeyCode) → AreSearch (search_code k)
search_code-AreSearch k = ground arith

control_code-AreSearch : (k : KeyCode) → AreSearch (control_code k)
unfolding nat_eq
control_code-AreSearch k = ground arith

-- In the search prompt no key, whatever the configured bindings, gives any other intent than an
-- edit of the search, a change of the view or quit; and the release of a key gives none in any mode.
pub file_search-AreSearch :
    (key : KeyEvent) (mode : InputMode) (geometry : UiGeometry)
    (bindings : Option (KeyEvent → Option Intent))
    → AreSearch (map_event_with_keybindings (key_event key) file_search geometry bindings)
      × (map_event_with_keybindings
            (key_event (record key { kind = release }))
            mode
            geometry
            bindings
          ≡ none)
unfolding map_event_with_keybindings map_key_event map_key map_file_search_key
file_search-AreSearch key mode geometry bindings =
    (grind (arith, search_code-AreSearch, control_code-AreSearch), refl)
