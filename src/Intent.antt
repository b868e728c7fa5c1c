-- ===== src/Intent.antt =====
-- src/intent.rs: the views and the closed set of user intents. A key's signed scroll delta (i8) is
-- its sign and its size.
use herdr_context.Base.{ℕ, String}

pub data View : Type 0 where
  files conversations : View

unfoldable pub next : View → View
next files = conversations
next conversations = files

unfoldable pub previous : View → View
unfolding next
previous v = next v

pub data PointerAction : Type 0 where
  select toggle : PointerAction

-- A signed step of the selection.
pub data Delta : Type 0 where
  back forward : ℕ → Delta

pub data Intent : Type 0 where
  quit : Intent
  switch_view : View → Intent
  next_view previous_view : Intent
  select_previous select_next select_first select_last : Intent
  expand_or_descend collapse_or_ascend toggle_selected : Intent
  refresh toggle_ignored_files switch_files_pane : Intent
  begin_file_search : Intent
  file_search_input : String → Intent
  file_search_backspace file_search_clear file_search_commit file_search_cancel : Intent
  pointer : (column row : ℕ) → PointerAction → Intent
  scroll : Delta → Intent
  resize : Intent
