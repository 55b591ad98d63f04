-- ===== src/Downloads.antt =====
-- The runtime downloads of crates/agent/src/main.rs: one task, and the registry of tasks.
pub mod Task
pub mod Registry
mod Tests
