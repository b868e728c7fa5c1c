-- ===== src/Vcs.antt =====
-- src/vcs: the normalised status of a workspace and the parser of Git's porcelain output.
pub mod Status
pub mod Names
pub mod Fields
pub mod Porcelain
pub mod Kinds
pub mod Entries
pub mod Snapshot
pub mod Printed
pub mod Reread
pub mod Reader
pub mod Jujutsu
