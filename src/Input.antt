-- ===== src/Input.antt =====
-- src/input.rs: the map from terminal events to intents. Of crossterm's events it has what the
-- code reads; what the code does not name is `other`.
pub mod Modes
use Prim.Native.Char.{Char, code}
use herdr_context.Base.{
  ℕ, String, Bool, true, false, not, ◌&&◌, ◌||◌, Option, none, some, ◌==◌, nat_eq, if◌then◌else◌,
}
use herdr_context.Intent.{
  View, files, conversations, PointerAction, select, toggle, Delta, back, forward, Intent, quit,
  switch_view, next_view, previous_view, select_previous, select_next, select_first, select_last,
  expand_or_descend, collapse_or_ascend, toggle_selected, refresh, toggle_ignored_files,
  switch_files_pane, begin_file_search, file_search_input, file_search_backspace, file_search_clear,
  file_search_commit, file_search_cancel, pointer, scroll, resize,
}
use herdr_context.Model.Geometry.{UiGeometry, tab_at, content_contains}

pub data InputMode : Type 0 where
  normal file_search file_search_active : InputMode

pub data KeyCode : Type 0 where
  esc tab back_tab up down home end right left enter backspace : KeyCode
  char : Char → KeyCode
  other : ℕ → KeyCode

pub data KeyEventKind : Type 0 where
  press repeat release : KeyEventKind

-- `control` says whether the modifiers contain CONTROL.
pub record KeyEvent : Type 0 where
  pub code : KeyCode
  pub control : Bool
  pub kind : KeyEventKind

pub data MouseButton : Type 0 where
  left_button right_button middle_button : MouseButton

pub data MouseEventKind : Type 0 where
  pressed : MouseButton → MouseEventKind
  scroll_up scroll_down : MouseEventKind
  other_mouse : ℕ → MouseEventKind

pub record MouseEvent : Type 0 where
  pub kind : MouseEventKind
  pub column : ℕ
  pub row : ℕ

pub data Event : Type 0 where
  key_event : KeyEvent → Event
  paste : String → Event
  mouse : MouseEvent → Event
  resized : Event
  other_event : ℕ → Event

abbrev one_char : Char → String
one_char c = String.◌∷◌ c String.[]

abbrev is_char : KeyCode → ℕ → Bool
is_char (char c) letter = code c == letter
is_char _ letter = false

-- The arms of the match on a character.
abbrev normal_char : ℕ → Option Intent
normal_char c =
    if c == b'q'
    then some quit
    else if c == b'1'
    then some (switch_view files)
    else if c == b'2'
    then some (switch_view conversations)
    else if c == b'k'
    then some select_previous
    else if c == b'j'
    then some select_next
    else if c == b'l'
    then some expand_or_descend
    else if c == b'h'
    then some collapse_or_ascend
    else if c == b' '
    then some toggle_selected
    else if c == b'r'
    then some refresh
    else if c == b'w'
    then some switch_files_pane
    else if c == b'i'
    then some toggle_ignored_files
    else if c == b'/'
    then some begin_file_search
    else none

abbrev normal_code : KeyCode → Option Intent
normal_code esc = some quit
normal_code tab = some next_view
normal_code back_tab = some previous_view
normal_code up = some select_previous
normal_code down = some select_next
normal_code home = some select_first
normal_code end = some select_last
normal_code right = some expand_or_descend
normal_code left = some collapse_or_ascend
normal_code enter = some toggle_selected
normal_code backspace = none
normal_code (char c) = normal_char (code c)
normal_code (other _) = none

unfoldable pub map_normal_key : KeyEvent → Option Intent
map_normal_key key =
    if key.control && is_char key.code b'c' then some quit else normal_code key.code

abbrev pub control_code : KeyCode → Option Intent
control_code (char c) =
    if code c == b'c' then some quit else if code c == b'u' then some file_search_clear else none
control_code _ = none

abbrev pub search_code : KeyCode → Option Intent
search_code esc = some file_search_cancel
search_code enter = some file_search_commit
search_code backspace = some file_search_backspace
search_code tab = some next_view
search_code back_tab = some previous_view
search_code (char c) = some (file_search_input (one_char c))
search_code _ = none

unfoldable pub map_file_search_key : KeyEvent → Option Intent
map_file_search_key key = if key.control then control_code key.code else search_code key.code

unfoldable pub map_key : KeyEvent → InputMode → Option Intent
map_key key normal = map_normal_key key
map_key key file_search_active = map_normal_key key
map_key key file_search = map_file_search_key key

-- The configured bindings, given by what they map a key to, or the built-in ones.
abbrev with_bindings : Option (KeyEvent → Option Intent) → KeyEvent → InputMode → Option Intent
with_bindings none key mode = map_key key mode
with_bindings (some bindings) key mode = bindings key

abbrev is_esc : KeyCode → Bool
is_esc esc = true
is_esc _ = false

unfoldable pub map_key_event :
    KeyEvent → InputMode → Option (KeyEvent → Option Intent) → Option Intent
map_key_event key normal bindings = with_bindings bindings key normal
map_key_event key file_search_active bindings =
    if is_esc key.code
    then some file_search_cancel
    else with_bindings bindings key file_search_active
map_key_event key file_search bindings = map_key key file_search

abbrev is_left_press : MouseEventKind → Bool
is_left_press (pressed left_button) = true
is_left_press _ = false

abbrev content_intent : MouseEvent → MouseEventKind → Option Intent
content_intent m (pressed left_button) = some (pointer m.column m.row select)
content_intent m (pressed right_button) = some (pointer m.column m.row toggle)
content_intent m (pressed middle_button) = none
content_intent m scroll_up = some (scroll (back 1))
content_intent m scroll_down = some (scroll (forward 1))
content_intent m (other_mouse _) = none

abbrev pressed_tab : UiGeometry → MouseEvent → Option View
pressed_tab geometry m = if is_left_press m.kind then tab_at geometry m.column m.row else none

unfoldable pub map_mouse : MouseEvent → UiGeometry → Option Intent
map_mouse m geometry = elim (pressed_tab geometry m) [
  | some view ↦ some (switch_view view)
  | none ↦ if not (content_contains geometry m.column m.row) then none else content_intent m m.kind
]

abbrev pub is_release : KeyEventKind → Bool
is_release release = true
is_release _ = false

unfoldable pub map_event_with_keybindings :
    Event → InputMode → UiGeometry → Option (KeyEvent → Option Intent) → Option Intent
map_event_with_keybindings (key_event key) mode geometry bindings =
    if is_release key.kind then none else map_key_event key mode bindings
map_event_with_keybindings (paste value) file_search geometry bindings =
    some (file_search_input value)
map_event_with_keybindings (paste value) _ geometry bindings = none
map_event_with_keybindings (mouse m) mode geometry bindings = map_mouse m geometry
map_event_with_keybindings resized mode geometry bindings = some resize
map_event_with_keybindings (other_event _) mode geometry bindings = none

unfoldable pub map_event : Event → InputMode → UiGeometry → Option Intent
map_event event mode geometry = map_event_with_keybindings event mode geometry none
