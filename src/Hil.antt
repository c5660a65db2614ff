-- ===== src/Hil.antt =====
-- The review service (src/hil.rs).
pub mod Records
pub mod Answers
pub mod Client
pub mod Lookups
pub mod Decide
pub mod Bodies
pub mod Credentialed
