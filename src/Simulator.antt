-- ===== src/Simulator.antt =====
-- The simulator (src/sim.rs).
pub mod Records
pub mod Client
pub mod Attributed
