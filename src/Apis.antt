-- ===== src/Apis.antt =====
-- The inventory of the APIs of a project: its repository, its service and its HTTP handlers.
pub mod Service
pub mod Repo
pub mod Handlers
