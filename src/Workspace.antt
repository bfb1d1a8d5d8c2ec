-- ===== src/Workspace.antt =====
-- crates/silo-workspace: the registry of locked workspaces, and the review of one that is unlocked.
pub mod AutoExec
pub mod Diff
pub mod Manager
