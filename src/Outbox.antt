-- ===== src/Outbox.antt =====
-- The delivery of the outbox (server/internal/outbox/worker.go, server/internal/store/outbox.go).
pub mod Queue
pub mod Worker
pub mod Backoff
pub mod Lease
pub mod Settled
pub mod Rounds
pub mod Weight
pub mod Ends
pub mod Purge
pub mod Examples
