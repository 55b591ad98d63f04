-- ===== src/Updates.antt =====
-- Updates of the application: crates/updater.
pub mod Segments
pub mod Release
pub mod Package
pub mod Catalogs
mod Tests
