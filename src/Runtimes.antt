-- ===== src/Runtimes.antt =====
-- Runtime packages: crates/runtime/src/lib.rs.
pub mod Timestamp
pub mod Fields
pub mod Catalog
pub mod Document
pub mod Installed
pub mod Retry
pub mod Sample
mod Tests
