-- ===== src/Model/Geometry.antt =====
-- `Rect` as src/model.rs reads it, and `UiGeometry`: which tab or pane a cell lies in.
use herdr_context.Base.{
  ℕ, Bool, ◌&&◌, Option, none, some, ltb, leb, saturating_add, u16_max, if◌then◌else◌,
}
use herdr_context.Intent.{View, files, conversations}

-- ratatui's `Rect`: its `right` and `bottom` add with saturation at u16.
pub record Rect : Type 0 where
  pub x : ℕ
  pub y : ℕ
  pub width : ℕ
  pub height : ℕ

pub record UiGeometry : Type 0 where
  pub files_tab : Rect
  pub conversations_tab : Rect
  pub content : Rect

unfoldable pub contains : Rect → ℕ → ℕ → Bool
contains area column row =
    leb area.x column
    && ltb column (saturating_add u16_max area.x area.width)
    && leb area.y row
    && ltb row (saturating_add u16_max area.y area.height)

unfoldable pub tab_at : UiGeometry → ℕ → ℕ → Option View
unfolding contains
tab_at g column row =
    if contains g.files_tab column row
    then some files
    else if contains g.conversations_tab column row
    then some conversations
    else none

unfoldable pub content_contains : UiGeometry → ℕ → ℕ → Bool
unfolding contains
content_contains g column row = contains g.content column row
