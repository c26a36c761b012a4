-- ===== src/Chain.antt =====
-- The work ledger file of scripts/work-ledger.mjs. A ledger is its lines after `JSON.parse`: an
-- object, or `none` for a line that does not parse. The schema test, which a library compiles from
-- contracts/work-ledger-event.schema.json, is a parameter.
mod Examples
pub mod Checks
pub mod Verify
pub mod Append
pub mod File
pub mod DryRun
