-- ===== src/Retention.antt =====
-- The purge of old rows (server/internal/retention/retention.go, server/internal/store/purge.go).
pub mod Purge
pub mod Batches
pub mod Examples
