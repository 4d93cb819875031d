-- ===== src/Contract.antt =====
-- OpenAPI contracts: Differ compares two sets of APIs.
pub mod Differ
pub mod Parser
pub mod Specs
