-- ===== src/Maintenance.antt =====
-- Maintenance windows (server/internal/maintenance).
pub mod Window
pub mod Calendar
pub mod Days
pub mod Weeks
pub mod Earliest
pub mod Next
pub mod Validate
pub mod Coverage
pub mod Fields
pub mod Accepted
pub mod Exceptions
pub mod Examples
