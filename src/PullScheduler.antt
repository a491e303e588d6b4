-- ===== src/PullScheduler.antt =====
-- The scheduler of polls (server/internal/pullscheduler/scheduler.go).
pub mod Scheduler
pub mod InFlight
pub mod Spacing
pub mod Examples
