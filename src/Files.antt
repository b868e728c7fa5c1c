-- ===== src/Files.antt =====
-- src/files: the refresh gate of a workspace.
pub mod Refresh
pub mod Nodes
pub mod Children
pub mod Tree
pub mod Merge
pub mod View
pub mod Search
