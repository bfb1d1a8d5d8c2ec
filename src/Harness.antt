-- ===== src/Harness.antt =====
-- The orchestrator, crates/silo-harness.
pub mod Shutdown
pub mod Session
pub mod Tools
pub mod Agent
pub mod Children
mod Examples
