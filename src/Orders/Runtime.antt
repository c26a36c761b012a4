-- ===== src/Orders/Runtime.antt =====
-- The runtime that puts the tasks of an order under the workflow engine
-- (src/workflow/order-task-runtime.mjs).
use Prim.Native.String
use ai_core.Base.{
  ℕ, String, Bool, false, not, ◌&&◌, ◌||◌, Option, none, some, List, [], ◌∷◌, ◌==◌, any, every,
  find, includes, length, ltb, leb, eqb, is_empty, same_text, if◌then◌else◌,
}
use ai_core.Base.Result.{Result, ok, err}
use ai_core.Base.Table.{Table}
use ai_core.Json.{Json, bool}
use ai_core.Workflow.Spec.{Projection, absent}
use ai_core.Workflow.Inspect.{Thrown, version_mismatch, type_error, Host}
use ai_core.Workflow.Decide.{Decision, HistoryItem, Request, Stamp, decide}
use ai_core.Orders.Spec.{
  Lease, Task, Order, Action, assign, claim, heartbeat, report, block, Command,
}
use ai_core.Orders.Input.{actor_ids, is_text}
use ai_core.Orders.Lifecycle.{order_task_workflow}

-- The task's own data in the projection.
pub record TaskData : Type 0 where
  pub order_id : String
  pub task_id : String
  pub requirement_revision : ℕ
  pub assigned_actor : String
  pub attempt : ℕ
  pub lease : Option Lease

-- The `code` of a refusal.
pub data Refusal : Type 0 where
  terminal_order stale_version task_not_found stale_lease transition_not_allowed : Refusal
  engine_error : Thrown → Refusal

pub data Verdict : Type 0 where
  eligible : Decision TaskData → Verdict
  heartbeat_allowed : Verdict
  refused : Refusal → Verdict

-- `TERMINAL_ORDERS.has(status)`
unfoldable pub is_terminal : String → Bool
is_terminal status = status == "CLOSED" || status == "CANCELLED"

-- `reportContentValid`
unfoldable pub report_content_valid : Command → Bool
report_content_valid c = is_text c.summary 10000 && (elim c.evidence [
  | none ↦ false
  | some es ↦ ltb 0 (length es) && leb (length es) 30 && every (λ e. is_text (some e) 2000) es
])

-- `activeLease`
unfoldable pub active_lease : Option Lease → ℕ → Bool
active_lease none now = false
active_lease (some l) now = ltb now l.expires_at

-- `task.lease?.token === command?.token`, where the lease is there
unfoldable pub token_matches : Option Lease → Option String → Bool
token_matches none token = false
token_matches (some l) token = same_text (some l.token) token

unfoldable pub same_number : Option ℕ → ℕ → Bool
same_number none n = false
same_number (some m) n = eqb m n

lease_revision : Option Lease → Option ℕ
lease_revision none = none
lease_revision (some l) = some l.revision

-- `order.tasks.slice(0, index).every(item => item.status === 'REPORTED')` for the index of the
-- first task with the id, and false where there is none
unfoldable pub earlier_reported : String → List Task → Bool
earlier_reported id [] = false
earlier_reported id (t ∷ ts) = t.id == id || (t.status == "REPORTED" && earlier_reported id ts)

unfoldable pub find_task : Option String → List Task → Option Task
find_task id tasks = find (λ (t : Task). same_text (some t.id) id) tasks

-- `facts` of `context`
unfoldable pub task_facts : ℕ → Order → Task → Command → Table Json
unfolding report_content_valid active_lease token_matches same_number lease_revision
    earlier_reported
task_facts now order task c =
    ("task.actor_valid", bool (elim c.actor [ none ↦ false | some a ↦ includes actor_ids a ]))
    ∷ ("task.actor_assigned", bool (same_text (some task.assigned) c.actor))
    ∷ ("task.lease_inactive", bool (not (active_lease task.lease now)))
    ∷ (
      "task.lease_valid",
      bool (
          task.status == "RUNNING"
          && active_lease task.lease now
          && token_matches task.lease c.token
          && same_text (some task.assigned) c.actor),
    )
    ∷ ("task.dependencies_reported", bool (earlier_reported task.id order.tasks))
    ∷ (
      "task.revision_current",
      bool (
          same_number c.revision order.revision
          && same_number (lease_revision task.lease) order.revision),
    )
    ∷ ("task.report_content_valid", bool (report_content_valid c))
    ∷ ("task.reason_valid", bool (is_text c.reason 2000))
    ∷ []

unfoldable pub task_projection : Order → Task → Projection TaskData
task_projection order task = record {
  entity_id = some (String.◌++◌ order.id (String.◌++◌ ":" task.id));
  revision = order.version;
  states = ("lifecycle", task.status) ∷ [];
  updated_at = none;
  extra = record {
    order_id = order.id;
    task_id = task.id;
    requirement_revision = order.revision;
    assigned_actor = task.assigned;
    attempt = task.attempt;
    lease = task.lease;
  };
}

-- `transitionId`
unfoldable pub transition_id : Action → String → Option String
transition_id assign state =
    if state == "PENDING"
    then some "order-task.assign.pending"
    else if state == "BLOCKED"
    then some "order-task.assign.blocked"
    else if state == "RUNNING"
    then some "order-task.assign.expired-running"
    else none
transition_id claim state =
    if state == "PENDING"
    then some "order-task.claim.pending"
    else if state == "BLOCKED"
    then some "order-task.claim.blocked"
    else if state == "RUNNING"
    then some "order-task.claim.expired-running"
    else none
transition_id report state = if state == "RUNNING" then some "order-task.report" else none
transition_id block state = if state == "RUNNING" then some "order-task.block" else none
transition_id _ state = none

-- `commandId`
command_id : Action → Option String
command_id assign = some "order-task.assign"
command_id claim = some "order-task.claim"
command_id report = some "order-task.report"
command_id block = some "order-task.block"
command_id _ = none

-- `deriveOrderAggregateStatus`
unfoldable pub derive_status : String → List Task → String
unfolding is_terminal
derive_status status tasks =
    if is_terminal status
    then status
    else if not (is_empty tasks) && every (λ (t : Task). t.status == "REPORTED") tasks
    then "REVIEW"
    else if any (λ (t : Task). t.status == "BLOCKED") tasks
    then "BLOCKED"
    else if any (λ (t : Task). t.status == "RUNNING" || t.status == "REPORTED") tasks
    then "ACTIVE"
    else "NEW"

-- A `WorkflowError` is a refusal; a `TypeError` goes on to the caller.
unfoldable pub verdict_of : Result Thrown (Decision TaskData) → Result Thrown Verdict
verdict_of (ok d) = ok (eligible d)
verdict_of (err version_mismatch) = ok (refused stale_version)
verdict_of (err type_error) = err type_error
verdict_of (err e) = ok (refused (engine_error e))

-- `createOrderTaskRuntime(workflow, { actorIds, now })` at the order-task lifecycle
module _ (sha256_json : Json → String) where
  -- `createWorkflowEngine(workflow)`, with no evaluator for guards
  abbrev pub task_host : Host (Unit {0}) TaskData
  task_host = record { sha256_json = sha256_json; evaluate_guard = none }

  -- The engine's request for a transition of a task.
  unfoldable pub task_request :
      ℕ
      → Order
      → Task
      → Command
      → (transition command : String) → Option String
      → List (HistoryItem TaskData)
      → Request (Unit {0}) TaskData
  unfolding task_projection task_facts
  task_request now order task c transition command actor history = record {
    projection = some (task_projection order task);
    transition_id = transition;
    command_id = command;
    command_payload = c.document;
    actor = actor;
    reason = c.reason;
    permissions = [];
    facts = task_facts now order task c;
    evidence = absent;
    approvals = [];
    guard_context = tt;
    expected_revision = c.version;
    idempotency_key = c.request_id;
    request_id = none;
    history = history;
    override = false;
  }

  -- The branch of `decide` for the four actions that change a task's state.
  unfoldable pub decide_task :
      ℕ → Stamp → Order → Task → Command → List (HistoryItem TaskData) → Result Thrown Verdict
  unfolding transition_id command_id task_request verdict_of
  decide_task now stamp order task c history = elim (transition_id c.action task.status) [
    | none ↦ ok (refused transition_not_allowed)
    | some transition ↦ elim (command_id c.action) [
      | none ↦ ok (refused transition_not_allowed)
      | some command ↦ verdict_of (
          decide task_host order_task_workflow stamp
            (task_request now order task c transition command c.actor history))
    ]
  ]

  -- The branch of `decide` for `heartbeat`: `task.actor_valid` and `task.lease_valid`
  heartbeat_verdict : ℕ → Task → Command → Verdict
  unfolding active_lease token_matches
  heartbeat_verdict now task c =
      if (elim c.actor [ none ↦ false | some a ↦ includes actor_ids a ])
        && task.status == "RUNNING"
        && active_lease task.lease now
        && token_matches task.lease c.token
        && same_text (some task.assigned) c.actor
      then heartbeat_allowed
      else refused stale_lease

  act :
      Action
      → ℕ
      → Stamp
      → Order
      → Task
      → Command
      → List (HistoryItem TaskData)
      → Result Thrown Verdict
  unfolding decide_task heartbeat_verdict
  act heartbeat now stamp order task c history = ok (heartbeat_verdict now task c)
  act _ now stamp order task c history = decide_task now stamp order task c history

  -- `decide`
  unfoldable pub decide_command :
      ℕ → Stamp → Order → Command → List (HistoryItem TaskData) → Result Thrown Verdict
  unfolding act is_terminal same_number find_task
  decide_command now stamp order c history =
      if is_terminal order.status
      then ok (refused terminal_order)
      else if not (same_number c.version order.version)
      then ok (refused stale_version)
      else elim (find_task c.task_id order.tasks) [
        | none ↦ ok (refused task_not_found)
        | some task ↦ act c.action now stamp order task c history
      ]

  -- `decideInvalidation`; `c` is the command that the source builds from the id, the version, the
  -- task and the reason.
  unfoldable pub decide_invalidation : ℕ → Stamp → Order → Task → Command → Result Thrown Verdict
  unfolding task_request is_terminal
  decide_invalidation now stamp order task c =
      if is_terminal order.status
      then ok (refused terminal_order)
      else elim (decide task_host order_task_workflow stamp (
          task_request now order task c "order-task.invalidate" "order-task.invalidate"
            (some "user") [])) [
              | ok d ↦ ok (eligible d)
              | err e ↦ elim e [
                | type_error ↦ err type_error
                | other ↦ ok (refused (engine_error other))
              ]
            ]
