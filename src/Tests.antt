-- ===== src/Tests.antt =====
-- Concrete runs: an in-memory store, a Proxy that grants, an executor, and the theorems at them.
mod World
mod Lawful
mod Examples
mod Bodies
mod Recovery
mod Liveness
mod Answers
mod Registry
mod Digests
mod Review
mod Credentials
mod Packs
mod Services
