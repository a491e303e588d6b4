-- ===== src/RateLimit.antt =====
-- The rate limiter (server/internal/ratelimit/ratelimit.go).
pub mod Limiter
pub mod Tokens
pub mod Granted
pub mod Answers
pub mod Snapshot
pub mod Examples
