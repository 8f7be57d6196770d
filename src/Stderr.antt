-- ===== src/Stderr.antt =====
-- src/stderr_observation.rs: what the error output of a command says about denied paths.
pub mod Text
pub mod Paths
pub mod Lines
pub mod Scan
mod Tests
