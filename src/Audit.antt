-- ===== src/Audit.antt =====
-- src/proxy.rs and src/undo.rs: the network audit events that the proxy records, as Python dicts and
-- back, and the session that keeps them.
pub mod Event
pub mod Dict
pub mod Decode
pub mod Session
