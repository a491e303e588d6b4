-- ===== src/ClientIp.antt =====
-- The address of a client (server/internal/clientip/clientip.go).
pub mod Resolver
pub mod Forwarded
pub mod Lookups
pub mod Examples
