-- ===== src/Testing.antt =====
-- Test cases and test runs of a project: their services and their HTTP handlers. What a run does
-- once it has started is in Runner.
pub mod Repo
pub mod Cases
pub mod Runs
pub mod Handlers
