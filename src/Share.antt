-- ===== src/Share.antt =====
-- LAN site sharing: crates/share/src/lib.rs and the agent's state of it.
pub mod Server
pub mod State
mod Tests
