-- ===== src/Rules.antt =====
-- The mock rules: their repository, their service and their HTTP handlers.
pub mod Repo
pub mod Service
pub mod Handlers
