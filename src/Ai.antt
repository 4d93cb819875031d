-- ===== src/Ai.antt =====
-- The AI features: the budget guard, the cache of answers, the engine that calls a provider, and
-- the service over them.
pub mod Types
pub mod Guard
pub mod Cache
pub mod Engine
pub mod Service
pub mod Handlers
