-- ===== src/Version.antt =====
-- The order of the agent's versions (server/internal/version).
pub mod Compare
pub mod Numeric
pub mod Reversed
pub mod Examples
