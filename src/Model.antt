-- ===== src/Model.antt =====
-- src/model.rs: the state of the conversations view.
pub mod Geometry
pub mod State
pub mod Rows
pub mod Select
pub mod RowList
pub mod SelectedRow
pub mod Moved
pub mod Viewport
pub mod Files
pub mod Replace
