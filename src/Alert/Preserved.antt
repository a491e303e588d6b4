-- ===== src/Alert/Preserved.antt =====
-- A predicate on the world that every change of an alert keeps is kept by the whole engine: one
-- lemma for each function of engine.go, status.go and numeric.go.
pub mod Lifecycle
pub mod Subjects
pub mod MetricReports
pub mod StatusReports
pub mod Reports
pub mod Tables
pub mod Dispatch
