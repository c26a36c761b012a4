-- ===== src/Lib.antt =====
-- Verification of the core of ai-core: the workflow engine, the components that run on it, and the
-- checks that stand before an execution.
--
-- The program describes every process as a workflow document: axes with states, transitions with
-- guards, permissions, evidence and approvals. The engine (src/workflow/engine.mjs) inspects and
-- decides transitions of a projection; the work ledger shadow, the order task runtime and the
-- capability execution shadow call it with facts and guards of their own; the order store calls the
-- order task runtime inside a transaction. An execution needs an approval bundle and a receipt of
-- the control tower. The coordinator of executions (src/engine/capability-execution-coordinator.mjs)
-- reserves a request for an order, asks the engine before it stores a result, and settles a lost answer
-- from a terminal receipt that src/engine/execution-receipt.mjs reads. The work ledger file
-- (scripts/work-ledger.mjs) is a chain of hashed events; an append asks the work ledger shadow and
-- verifies the chain with the new record. Branch flow and continuity audit judge the branches.
--
-- Base: lists, results, maps and tests on numbers and texts that all parts share.
-- Json: JSON values and `canonical` and `digest` of src/workflow/engine.mjs.
-- Workflow: src/workflow. Spec holds the documents, Inspect `inspectTransition`, Decide `decide`,
--   Recovery `resolveFailure`, `availableActions` and `dueAutomations`, Progression
--   progression.mjs, Derivation projection.mjs, Registry registry.mjs, Execution
--   capability-execution-shadow.mjs.
-- Ledger: src/workflow/work-ledger-shadow.mjs. Events holds its records, Steps the guards and what an
--   event makes of a projection, Ledger itself the calls.
-- Orders: Spec, Input, Actions and Store model src/orders/store.mjs, Runtime
--   src/workflow/order-task-runtime.mjs, Lifecycle the order-task workflow of
--   registry/workflows.json.
-- Chain: scripts/work-ledger.mjs. Checks holds the checks of one event, Verify `verifyLedgerText`,
--   Append the decision on a new event, File `appendLedgerEvent` on the file, its last line break and
--   its lock, DryRun the two calls that write nothing.
-- Capability: src/engine/capability-execution-coordinator.mjs. Receipt holds `safeReceipt`, Recovery the
--   recovery snapshot, Store the tables, Reserve `recover` and `reserve`, Complete `complete`,
--   Reconcile `reconcile`; Change and Runs say what calls do to the tables, one by one and in
--   sequences. Terminal is src/engine/execution-receipt.mjs, Reader joins it to the coordinator.
-- Governance: Flow models src/governance/branch-flow.mjs, Retire and Audit
--   src/development/continuity-audit.mjs.
-- Authority: Approval models src/security/approval-policy.mjs, Receipt
--   src/engine/control-tower-authority.mjs.
--
-- A throw is the value `err` of a result; an object that a call changes is passed in and returned. A
-- property that may be missing is an option, or a `Field` where the program tells `undefined` and
-- `null` apart. Times are numbers of milliseconds, and numbers are natural numbers; the program's
-- are doubles, exact below 2 ^ 53. A call reads the clock once, and draws one identifier for each
-- thing it creates. The clock, the identifiers, the hash, the reader of the context,
-- the ledger verifier of the authority bridge, the control tower, the hook of the store, the schema test
-- of ledger events, the file system and node:path of the receipt reader are parameters. Every loop is a
-- recursion on its list; only the caller who retries runs on fuel, and its theorem says how much.
--
-- A ledger line is an object or does not parse: a line that holds another JSON value is left out. A
-- record that is written after a last line without its line break joins that line. The appends of a
-- ledger file run one after the other, as the lock makes them. A call that waits reads one state of the
-- tables and writes to a later one. A transaction of the coordinator's `complete` changes the tables
-- step by step and puts them back where it throws; the transactions of the order store and of
-- `reserve` change the tables where they commit.
--
-- Not modelled: SQLite, failures of the reads and writes of the ledger file, the processes, the
-- hand-off packets of the store, the list that the coordinator displays, the
-- message texts of errors, and the parts of the repository that are reports, catalogues and pages.
pub mod Base
pub mod Json
pub mod Workflow
pub mod Ledger
pub mod Orders
pub mod Authority
pub mod Chain
pub mod Capability
pub mod Governance
