-- ===== src/Core.antt =====
-- The shared types of crates/silo-core.
pub mod Journal
pub mod Conversation
pub mod Tool
pub mod Cost
pub mod EventBus
pub mod Replay
pub mod Risk
