-- ===== src/Ledger.antt =====
-- The audit ledger (src/ledger.rs).
pub mod Records
pub mod Reports
pub mod Meters
pub mod Query
pub mod Split
pub mod Reading
pub mod Values
pub mod Filters
pub mod Client
pub mod Audit
pub mod Analysis
pub mod Cases
pub mod Export
