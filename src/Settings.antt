-- ===== src/Settings.antt =====
-- Small packages: the checks on the configuration, and the parameters of a page.
pub mod Config
pub mod Pagination
