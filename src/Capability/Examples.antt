-- ===== src/Capability/Examples.antt =====
-- A concrete run of src/engine/capability-execution-coordinator.mjs.
mod Files
use ai_core.Capability.Store.{with_result}
use ai_core.Workflow.Inspect.{inspect_transition}
use ai_core.Workflow.Decide.{decide}
use ai_core.Json.{field_at}
use ai_core.Json.{lookup}
use ai_core.Capability.Runs.Once.{results_of}
use ai_core.Base.{
  String, true, false, none, some, [], ◌∷◌, ◌≡◌, refl, subst, Option, inl, inr, Bool-cases, ◌==◌,
  eq_iff, arith,
}
use ai_core.Base.Table
use ai_core.Base.Result.{ok, err}
use ai_core.Json.{end, field, str, nil, obj, Fields, canonical}
use ai_core.Orders.Spec.{Order, Routing}
use ai_core.Workflow.Spec.{no_approval, no_retry, Transition, Workflow}
use ai_core.Workflow.Inspect.{Host}
use ai_core.Workflow.Decide.{Stamp}
use ai_core.Workflow.Execution.{WorkResult}
use ai_core.Capability.Receipt.{Runtime}
use ai_core.Capability.Recovery.{
  Project, Capability, Snapshot, snapshot, taken, recovery_snapshot, column_of, parse_snapshot,
  recovery_binding,
}
use ai_core.Capability.Recovery.Stored.{parse_snapshot-column_of}
use ai_core.Capability.Store.{Request, Binding, Db, request_row}
use ai_core.Capability.Reserve.{
  Call, Answer, Observation, ReceiptReader, result_context_mismatch, reserve, recover, replay_of,
}
use ai_core.Capability.Complete.{complete}
use ai_core.Capability.Complete.Replays.{complete_twice}
use ai_core.Capability.Complete.Failures.{complete-err}
use ai_core.Capability.Reconcile.{Paths, result, terminal_result, reconcile}
use ai_core.Capability.Reconcile.Verified.{
  IsSettled, IsRegistered, NoCollision, reconcile-IsSettled,
}
use ai_core.Capability.Change.Rows.{IsKept, HoldsRow}
use ai_core.Capability.Runs.{Runs, no_call, by_reserve, by_complete, Runs-HoldsRow}
use ai_core.Capability.Runs.Once.{IsSound, IsRecorded, Runs-IsSound}
use ai_core.Capability.Runs.Recovered.{recover-reserve}

abbrev runtime : Runtime
runtime = record {
  is_trimmed = λ _. true;
  units = λ _. 2;
  cut = λ _ s. s;
  sha256_json = λ _. "hash";
}

abbrev host : Host (Unit {0}) (Unit {0})
host = record { sha256_json = λ _. "hash"; evaluate_guard = none }

abbrev transition : (id : String) → Transition
transition id = record {
  transition_id = id;
  purpose = "ADVANCE";
  axis_id = "lifecycle";
  from = "RESERVED" ∷ [];
  to = "RESULT";
  command_id = id;
  event_type = "completed";
  guards = [];
  permissions = [];
  required_evidence = [];
  approval = record { policy = no_approval; required_roles = []; separation_of_duties = false };
  effects = [];
  failure = record {
    on_exhausted = "FAIL";
    failure_state = none;
    compensation_transition_id = none;
    escalation_event_type = none;
  };
  retry = record {
    strategy = no_retry;
    max_attempts = 1;
    base_delay_ms = 0;
    retryable_error_codes = [];
  };
  automation = record { is_manual = true; trigger_event_types = [] };
  manual_override = record {
    allowed = false;
    permissions = [];
    can_bypass = [];
    requires_reason = true;
  };
  reversible = false;
  compensation_transition_id = none;
  reason_required = false;
  timeout = none;
  sla = none;
}

abbrev workflow : Workflow
workflow = record {
  workflow_id = "ai-core.capability-execution";
  version = "1";
  state_axes =
      record {
        axis_id = "lifecycle";
        initial_state = "RESERVED";
        states = "RESERVED" ∷ "RESULT" ∷ [];
      }
      ∷ [];
  guards = [];
  evidence_requirements = [];
  commands =
      record { command_id = "capability-execution.complete"; idempotency_required = true }
      ∷ record { command_id = "capability-execution.reconcile"; idempotency_required = true }
      ∷ [];
  transitions =
      transition "capability-execution.complete"
      ∷ record (transition "capability-execution.reconcile-terminal") {
        command_id = "capability-execution.reconcile";
      }
      ∷ [];
}

abbrev stamp : Stamp
stamp = record { now = "2026-01-01"; event_id = "E1"; audit_id = "A1" }

abbrev commit : String
commit = "0123456789abcdef0123456789abcdef01234567"

abbrev route : Routing
route = record {
  keys = [];
  status = none;
  work_type_id = none;
  capability_id = some "build";
  target_project_id = some "P1";
  target_revision = some commit;
  requirement_revision = some 1;
  blockers = none;
}

abbrev order : Order
order = record {
  id = "O1";
  title = "t";
  intent = "i";
  project = "P1";
  kind = "general";
  criteria = [];
  source = "s";
  routing = some route;
  revision = 1;
  version = 1;
  status = "OPEN";
  created_at = 0;
  updated_at = 0;
  tasks = [];
  closure = none;
}

abbrev binding : Binding
binding = record {
  order_id = "O1";
  requirement_revision = 1;
  work_id = "W1";
  project_id = "P1";
  subject_revision = commit;
}

abbrev empty : Db
empty = record {
  requests = [];
  bindings = some (binding ∷ []);
  orders = ("O1", order) ∷ [];
  events = [];
}

abbrev project : Project
project = record { project_id = some "P1"; repository = some "git"; local_path = some "/p" }

abbrev capability : Capability
capability = record {
  id = "build";
  status = "ACTIVE";
  projects = "*" ∷ [];
  receipt = some (field "kind" (str "NEW_JSON_TERMINAL_RECEIPT") end);
  mode = none;
  walls = "w" ∷ [];
}

abbrev call : Call
call = record {
  request_id = some "K1";
  order_id = some "O1";
  work_id = some "W1";
  capability = some capability;
  input = none;
  perform = true;
}

abbrev observation : Observation
observation = record {
  status = some "SUCCEEDED";
  reason = none;
  state = some "done";
  path = none;
  identity_verified = true;
}

abbrev reader : ReceiptReader
reader = record { snapshot = λ _ _. some nil; reconcile = λ _ _ _ _. some observation }

abbrev projects : Table.Table Project
projects = ("P1", project) ∷ []

abbrev stored : Snapshot
stored = record {
  before = nil;
  receipt = field "kind" (str "NEW_JSON_TERMINAL_RECEIPT") end;
  project_binding =
      field "local_path" (str "/p")
        (field "project_id" (str "P1") (field "repository" (str "git") end));
  mode = none;
  walls = "w" ∷ [];
}

snapshot_taken : recovery_snapshot runtime capability (some nil) (some project) ≡ taken stored
unfolding recovery_snapshot
snapshot_taken = refl

parse_snapshot-column_of_example :
    parse_snapshot runtime (column_of (some stored)) ≡ snapshot stored
parse_snapshot-column_of_example =
    parse_snapshot-column_of runtime capability (some nil) project stored snapshot_taken

abbrev row : Request
row = record {
  request_id = "K1";
  order_id = "O1";
  requirement_revision = 1;
  work_id = "W1";
  capability_id = "build";
  project_id = "P1";
  subject_revision = commit;
  payload_digest = "sha256:hash";
  input_digest = "sha256:hash";
  perform = true;
  before_receipts = column_of (some stored);
  state = "RESERVED";
  result = none;
  reason = none;
  created_at = "2026-01-01";
  updated_at = "2026-01-01";
}

abbrev answer : Answer
answer = record { status = "RESERVED"; replay = false; row = row; result = none }

abbrev reserved : Db
reserved = record empty { requests = row ∷ [] }

call_reserved :
    reserve runtime reader projects empty empty call "2026-01-01" ≡ (reserved, ok answer)
unfolding reserve Table.get
call_reserved = refl

own_id : (k : String) (o : Order) → Table.get k empty.orders ≡ some o → o.id ≡ k
unfolding Table.get
own_id k o h = elim (Bool-cases ("O1" == k)) [
  | inl e ↦ ground (arith, eq_iff "O1" k)
  | inr e ↦ absurd (ground arith)
]

abbrev receipt : WorkResult
receipt = record {
  schema = some "ai-core-work-result/v1";
  order_id = some "O1";
  work_id = some "W1";
  project_id = some "P1";
  capability_id = some "build";
  subject_revision = some commit;
  mode = none;
  status = some "SUCCEEDED";
  summary = some "built";
  artifact_refs = some [];
  evidence_refs = some ("log" ∷ []);
  checks = some [];
  execution = record {
    performed = true;
    external_effect = false;
    started_at = none;
    ended_at = none;
    authorization_source = none;
  };
  observed = true;
  blockers = some [];
  next_action = none;
  walls = some [];
}

completed : Db
unfolding complete
completed = (complete runtime host workflow reserved stamp "K1" (some receipt) none).0

run_completed :
    complete runtime host workflow reserved stamp "K1" (some receipt) none
    ≡ (completed, ok (some receipt))
unfolding complete completed ai_core.Workflow.Decide.decide
    ai_core.Workflow.Inspect.inspect_transition ai_core.Capability.Store.with_result
run_completed = refl

after_reserve : Runs runtime host workflow empty reserved
unfolding reserve Table.get
after_reserve = by_reserve empty reader projects empty call "2026-01-01" no_call

after_complete : Runs runtime host workflow reserved completed
unfolding completed
after_complete = by_complete reserved stamp "K1" (some receipt) none no_call

row_found : request_row "K1" reserved.requests ≡ some row
unfolding request_row
row_found = refl

Runs-HoldsRow_example : HoldsRow runtime completed "K1" row
Runs-HoldsRow_example =
    Runs-HoldsRow runtime host workflow reserved completed "K1" row after_complete row_found

recover-reserve_example :
    (r : Request) × IsKept runtime row r
    × (recover runtime completed call ≡ ok (some (replay_of r)))
recover-reserve_example =
    recover-reserve runtime host workflow reader projects empty empty reserved completed call
      "2026-01-01" answer own_id call_reserved refl after_complete

empty-IsSound : IsSound runtime empty
unfolding IsSound IsRecorded request_row results_of
empty-IsSound id = refl

Runs-IsSound_example : IsSound runtime reserved
Runs-IsSound_example = Runs-IsSound runtime host workflow empty reserved after_reserve empty-IsSound

complete_twice_example :
    complete runtime host workflow completed stamp "K1" (some receipt) none
    ≡ (completed, ok (some receipt))
complete_twice_example =
    complete_twice runtime host workflow reserved completed stamp stamp "K1" (some receipt) none
      none (some receipt) Runs-IsSound_example run_completed

-- A result of another work.
abbrev other_receipt : WorkResult
other_receipt = record receipt { work_id = some "W2" }

after_error : Db
unfolding complete
after_error = (complete runtime host workflow reserved stamp "K1" (some other_receipt) none).0

mismatch :
    complete runtime host workflow reserved stamp "K1" (some other_receipt) none
    ≡ (after_error, err result_context_mismatch)
unfolding complete after_error
mismatch = refl

complete-err_example : after_error ≡ reserved
complete-err_example =
    complete-err runtime host workflow reserved after_error stamp "K1" (some other_receipt) none
      result_context_mismatch mismatch

abbrev paths : Paths
paths = record { relative = λ _ s. s; is_absolute = λ _. false }

abbrev terminal : WorkResult
terminal = terminal_result row stored observation none "2026-01-01"

reconciled : Db
unfolding reconcile
reconciled = (reconcile runtime projects reader paths host workflow reserved reserved stamp "K1").0

run_reconciled :
    reconcile runtime projects reader paths host workflow reserved reserved stamp "K1"
    ≡ (reconciled, ok (result (some terminal)))
unfolding reconcile reconciled column_of lookup field_at Table.get decide inspect_transition
    with_result
run_reconciled = refl

row_waits : row.state == "RESULT" ≡ false
row_waits = refl

snapshot_eq : {a b : Snapshot} → snapshot a ≡ snapshot b → a ≡ b
snapshot_eq h = cc

binding_eq : {a b : Fields} → ◌≡◌ {A = Option Fields} (some a) (some b) → a ≡ b
binding_eq h = cc

row_binding : NoCollision runtime projects reader row
unfolding NoCollision parse_snapshot recovery_binding canonical column_of Table.get lookup field_at
row_binding s current p b h =
    subst (λ (x : Snapshot). canonical (obj current) ≡ canonical (obj x.project_binding))
      (snapshot_eq p)
      (subst (λ x. canonical (obj x) ≡ canonical (obj stored.project_binding)) (binding_eq b) refl)

reconcile-IsSettled_example :
    (x : IsSettled runtime projects reader paths host workflow row reserved reconciled stamp
      (some terminal))
    × IsRegistered runtime projects reader row x.stored
reconcile-IsSettled_example =
    reconcile-IsSettled runtime projects reader paths host workflow reserved reserved reconciled
      stamp "K1" row (some terminal) row_found row_waits row_binding run_reconciled
