-- ===== src/Host.antt =====
-- src/host: the docks that a restart opens again.
pub mod DockState
