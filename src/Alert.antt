-- ===== src/Alert.antt =====
-- The alert engine (server/internal/alertengine) with the tables it works on.
pub mod Types
pub mod Table
pub mod World
pub mod Recipients
pub mod Change
pub mod Flush
pub mod HostState
pub mod Engine
pub mod Reconcile
pub mod Metrics
pub mod Conditions
pub mod StatusAlerts
pub mod Evaluate
pub mod Operations
pub mod Fixtures
pub mod Examples
pub mod Guarantees
pub mod Reasons
pub mod Delivery
pub mod Atomic
pub mod Waiting
pub mod LevelAfter
pub mod Lookup
pub mod Calm
pub mod Announced
pub mod Maintenance
pub mod Invariants
pub mod Keeps
pub mod Yields
pub mod Preserved
