-- ===== src/Ingest.antt =====
-- What the server stores of a report (server/internal/model/ingest_v4.go).
pub mod Text
pub mod Types
pub mod Ranges
pub mod Entries
pub mod Lists
pub mod Sections
pub mod Timed
pub mod Named
pub mod Storable
pub mod Measured
pub mod Listing
pub mod Sanitized
pub mod State
pub mod Unchanged
pub mod Examples
