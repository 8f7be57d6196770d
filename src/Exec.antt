-- ===== src/Exec.antt =====
-- src/sandboxed_exec.rs: running a command in a sandboxed child.
pub mod Env
pub mod Identity
pub mod Limits
pub mod Request
pub mod Bootstrap
pub mod Supervisor
pub mod Wait
pub mod Child
pub mod Fds
pub mod Io
pub mod Handshake
pub mod Listener
