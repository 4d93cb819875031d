-- ===== src/Gate.antt =====
-- The middleware in front of the handlers: the access tokens, the cookies, and the double submit
-- of CSRF tokens.
pub mod Jwt
pub mod Auth
pub mod Csrf
pub mod Cookies
