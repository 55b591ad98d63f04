-- ===== src/Proxy.antt =====
-- The development proxy of crates/proxy/src/lib.rs: the health of one connection, the settings of a
-- connection, and the manager that starts and stops listeners.
pub mod Health
pub mod Settings
pub mod Manager
