-- ===== src/Policy.antt =====
-- src/policy.rs: the policy groups and what is resolved from them. `HashMap`s are lists of pairs in
-- the order of their iteration, with keys looked up by `get`.
pub mod Types
pub mod Network
pub mod Paths
pub mod Checks
pub mod Files
pub mod Resolution
pub mod Groups
pub mod Overrides
