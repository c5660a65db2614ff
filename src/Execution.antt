-- ===== src/Execution.antt =====
-- src/execution.rs: the governed execution of tools.
pub mod Contracts
pub mod Validation
pub mod Prepared
pub mod Decision
pub mod Authorize
pub mod Complete
pub mod Execute
pub mod Operations
pub mod Reconcile
pub mod Keeps
pub mod Responsive
pub mod Recovery
pub mod Guarded
pub mod Quiet
pub mod AtMostOnce
pub mod Accounted
pub mod Uncertain
pub mod Success
pub mod Session
pub mod Outbox
