-- ===== src/Governance.antt =====
-- The branches of a repository: whether each is on its way to the trunk
-- (src/governance/branch-flow.mjs) and which may be retired (src/development/continuity-audit.mjs).
mod Examples
pub mod Flow
pub mod Retire
pub mod Audit
