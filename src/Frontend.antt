-- ===== src/Frontend.antt =====
-- crates/silo-frontend: the interactive frontend's authentication.
pub mod Pairing
