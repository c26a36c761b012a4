-- ===== src/Authority.antt =====
-- Authority to execute: approvals of a plan (src/security/approval-policy.mjs) and receipts of the
-- control tower (src/engine/control-tower-authority.mjs).
mod Examples
pub mod Approval
pub mod Receipt
