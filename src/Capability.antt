-- ===== src/Capability.antt =====
-- The requests for capabilities and their results, as src/engine/capability-execution-coordinator.mjs
-- keeps them.
mod Examples
pub mod Receipt
pub mod Recovery
pub mod Terminal
pub mod Store
pub mod Reserve
pub mod Complete
pub mod Reconcile
pub mod Change
pub mod Runs
pub mod Reader
