-- ===== src/Mock.antt =====
-- backend/internal/mock: the mock server. A request is matched against the project's rules
-- (Matcher), values are extracted into the session's bag (Extractor, VarBag) and substituted into
-- the response, and Engine is the handler that does these in turn.
pub mod Matcher
pub mod VarBag
pub mod Extractor
pub mod Engine
