-- ===== src/Brain.antt =====
-- The brain (src/brain.rs).
pub mod Records
pub mod Client
