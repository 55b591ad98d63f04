-- ===== src/Sites.antt =====
-- The sites of crates/core/src/site.rs, and how crates/core/src/storage.rs keeps them.
pub mod Domain
pub mod PhpVersion
pub mod Site
