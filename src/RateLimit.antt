-- ===== src/RateLimit.antt =====
-- The rate limiter: src/modules/ratelimitters.
pub mod Storage
pub mod Service
pub mod KeyExtractor
pub mod Guard
pub mod Laws
pub mod Window
pub mod RetryAfter
mod Examples
