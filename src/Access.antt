-- ===== src/Access.antt =====
-- The scopes of users (server/internal/access/access.go).
pub mod Scope
pub mod Directory
pub mod Refines
pub mod Settles
pub mod Kept
pub mod Stable
pub mod Examples
