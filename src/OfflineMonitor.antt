-- ===== src/OfflineMonitor.antt =====
-- Hosts that fall silent (server/internal/offlinemonitor/monitor.go).
pub mod Monitor
pub mod Silent
pub mod Examples
