-- ===== src/Auth.antt =====
-- Authentication: Service has registration, login and refresh, and Tokens the refresh tokens' rows.
pub mod Service
pub mod Users
pub mod Handlers
pub mod Tokens
