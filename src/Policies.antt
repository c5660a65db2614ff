-- ===== src/Policies.antt =====
-- The policy engine (src/policies.rs).
pub mod Records
pub mod Lab
pub mod Client
pub mod Changes
pub mod Operations
pub mod Scoped
