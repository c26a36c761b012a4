-- ===== src/Workflow.antt =====
-- The workflow engine (src/workflow).
mod Examples
mod PlanExamples
pub mod Spec
pub mod Inspect
pub mod Decide
pub mod Recovery
pub mod Progression
pub mod Derivation
pub mod Registry
pub mod Execution
