-- ===== src/Workflow/Execution/Examples.antt =====
-- A concrete completion of src/workflow/capability-execution-shadow.mjs.
use ai_core.Base.{◌==◌, true, false, none, some, [], ◌∷◌, ◌≡◌, refl}
use ai_core.Base.Result.{ok}
use ai_core.Json.{null}
use ai_core.Workflow.Spec.{no_approval, no_retry, Transition, Workflow}
use ai_core.Workflow.Inspect.{Host, inspect_transition}
use ai_core.Workflow.Decide.{Stamp, Decision, decide, accepted}
use ai_core.Workflow.Execution.{
  WorkResult, Row, ExecutionData, completed, Outside, complete_request, execution_projection,
  decide_complete, CapabilityEntry, Observed, persist_terminal_result, reconciled_result,
  classify_reconciliation, same_context, same_capability, same_revision,
}
use ai_core.Workflow.Execution.Matching.{
  IsMatched, IsMapped, decide_complete-IsMatched, classify_reconciliation_matches,
}

abbrev complete : Transition
complete = record {
  transition_id = "capability-execution.complete";
  purpose = "ADVANCE";
  axis_id = "lifecycle";
  from = "RESERVED" ∷ [];
  to = "RESULT";
  command_id = "capability-execution.complete";
  event_type = "completed";
  guards = [];
  permissions = [];
  required_evidence = [];
  approval = record { policy = no_approval; required_roles = []; separation_of_duties = false };
  effects = [];
  failure = record {
    on_exhausted = "FAIL";
    failure_state = none;
    compensation_transition_id = none;
    escalation_event_type = none;
  };
  retry = record {
    strategy = no_retry;
    max_attempts = 1;
    base_delay_ms = 0;
    retryable_error_codes = [];
  };
  automation = record { is_manual = true; trigger_event_types = [] };
  manual_override = record {
    allowed = false;
    permissions = [];
    can_bypass = [];
    requires_reason = true;
  };
  reversible = false;
  compensation_transition_id = none;
  reason_required = false;
  timeout = none;
  sla = none;
}

abbrev execution : Workflow
execution = record {
  workflow_id = "ai-core.capability-execution";
  version = "1";
  state_axes =
      record {
        axis_id = "lifecycle";
        initial_state = "RESERVED";
        states = "RESERVED" ∷ "RESULT" ∷ [];
      }
      ∷ [];
  guards = [];
  evidence_requirements = [];
  commands =
      record { command_id = "capability-execution.complete"; idempotency_required = true } ∷ [];
  transitions = complete ∷ [];
}

abbrev outside : Outside
outside = record {
  cut = λ _ s. s;
  is_trimmed = λ _. true;
  same_digest = λ _ _. false;
  payload = λ _. null;
}

abbrev host : Host (Unit {0}) ExecutionData
host = record { sha256_json = λ _. "hash"; evaluate_guard = none }

abbrev stamp : Stamp
stamp = record { now = "2026-01-01"; event_id = "E1"; audit_id = "A1" }

abbrev row : Row
row = record {
  request_id = some "K1";
  version = some 2;
  state = "RESERVED";
  order_id = some "O1";
  requirement_revision = some 1;
  work_id = some "W1";
  capability_id = some "build";
  project_id = some "P1";
  subject_revision = some "r1";
  payload_digest = none;
  input_digest = none;
  perform = true;
  result = none;
}

abbrev receipt : WorkResult
receipt = record {
  schema = some "ai-core-work-result/v1";
  order_id = some "O1";
  work_id = some "W1";
  project_id = some "P1";
  capability_id = some "build";
  subject_revision = some "r1";
  mode = none;
  status = some "SUCCEEDED";
  summary = some "built";
  artifact_refs = some [];
  evidence_refs = some ("log" ∷ []);
  checks = some [];
  execution = record {
    performed = true;
    external_effect = false;
    started_at = none;
    ended_at = none;
    authorization_source = none;
  };
  observed = true;
  blockers = some [];
  next_action = none;
  walls = some [];
}

decision : Decision ExecutionData
unfolding accepted complete_request execution_projection
decision =
    accepted host execution stamp (complete_request outside row receipt (some "K1") false)
      (execution_projection outside row) complete (some "RESERVED")

completion_runs :
    decide_complete outside host execution stamp (some row) (some receipt) none false
    ≡ ok (completed receipt decision)
unfolding decide_complete decide decision accepted complete_request execution_projection
    inspect_transition
completion_runs = refl

decide_complete-IsMatched_example :
    IsMatched outside host execution row (some receipt) none false receipt decision
decide_complete-IsMatched_example =
    decide_complete-IsMatched outside host execution stamp row (some receipt) none false receipt
      decision completion_runs

abbrev build_entry : CapabilityEntry
build_entry = record { has_receipt = true; mode = some "LOCAL"; walls = none }

abbrev failure_seen : Observed
failure_seen = record {
  status = some "FAILED";
  reason = some "EXIT_1";
  state = some "DONE";
  ref = some "out/receipt.json";
}

abbrev recovered : WorkResult
recovered = reconciled_result row build_entry (some failure_seen) "2026-01-02"

reconciliation_runs :
    classify_reconciliation (some row) (some build_entry) (some failure_seen) "2026-01-02"
    ≡ persist_terminal_result "FAILED" recovered
unfolding classify_reconciliation
reconciliation_runs = refl

classify_reconciliation_matches_example :
    ((row.state == "RESULT") ≡ false)
    × ((entry : CapabilityEntry) × (some build_entry ≡ some entry) × (entry.has_receipt ≡ true))
    × (same_context outside row recovered ≡ true)
    × (same_capability outside row recovered ≡ true)
    × (same_revision outside row recovered ≡ true)
    × (recovered.status ≡ some "FAILED")
    × IsMapped (some failure_seen) "FAILED"
classify_reconciliation_matches_example =
    classify_reconciliation_matches outside row (some build_entry) (some failure_seen) "2026-01-02"
      "FAILED" recovered reconciliation_runs
