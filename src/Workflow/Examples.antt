-- ===== src/Workflow/Examples.antt =====
-- Concrete runs of src/workflow.
use ai_core.Base.{is_content, true, false, none, some, [], ◌∷◌, ◌≡◌, refl, ◌↔◌}
use ai_core.Base.Result.{ok}
use ai_core.Json.{null, str}
use ai_core.Workflow.Spec.{
  fact_present, no_approval, exponential, Transition, Workflow, Projection, absent,
}
use ai_core.Workflow.Inspect.{Host, inspect_transition, Inspection}
use ai_core.Workflow.Inspect.Eligibility.{IsOpen, inspect_iff}
use ai_core.Workflow.Decide.{
  Decision, Request, Stamp, decide, accepted, find_transition, context_of,
}
use ai_core.Workflow.Decide.Acceptance.{IsAdvance, decide-IsAdvance, decide-IsOpen}
use ai_core.Workflow.Decide.Overrides.{IsEnforced, decide-IsEnforced}
use ai_core.Workflow.Decide.Replays.{again, decide-again}

abbrev approve : Transition
approve = record {
  transition_id = "approve";
  purpose = "ADVANCE";
  axis_id = "lifecycle";
  from = "DRAFT" ∷ [];
  to = "APPROVED";
  command_id = "approve";
  event_type = "approved";
  guards = "priced" ∷ [];
  permissions = "editor" ∷ [];
  required_evidence = [];
  approval = record { policy = no_approval; required_roles = []; separation_of_duties = false };
  effects = [];
  failure = record {
    on_exhausted = "FAIL";
    failure_state = none;
    compensation_transition_id = none;
    escalation_event_type = none;
  };
  retry = record {
    strategy = exponential;
    max_attempts = 3;
    base_delay_ms = 100;
    retryable_error_codes = [];
  };
  automation = record { is_manual = true; trigger_event_types = [] };
  manual_override = record {
    allowed = true;
    permissions = "editor" ∷ [];
    can_bypass = "GUARDS" ∷ [];
    requires_reason = true;
  };
  reversible = false;
  compensation_transition_id = none;
  reason_required = false;
  timeout = none;
  sla = none;
}

abbrev document : Workflow
document = record {
  workflow_id = "document";
  version = "1";
  state_axes =
      record { axis_id = "lifecycle"; initial_state = "DRAFT"; states = "DRAFT" ∷ "APPROVED" ∷ [] }
      ∷ [];
  guards = record { guard_id = "priced"; kind = fact_present "price" } ∷ [];
  evidence_requirements = [];
  commands = record { command_id = "approve"; idempotency_required = true } ∷ [];
  transitions = approve ∷ [];
}

abbrev draft : Projection (Unit {0})
draft = record {
  entity_id = some "D1";
  revision = 4;
  states = ("lifecycle", "DRAFT") ∷ [];
  updated_at = none;
  extra = tt;
}

abbrev host : Host (Unit {0}) (Unit {0})
host = record { sha256_json = λ _. "hash"; evaluate_guard = none }

abbrev stamp : Stamp
stamp = record { now = "2026-01-01"; event_id = "E1"; audit_id = "A1" }

abbrev request : Request (Unit {0}) (Unit {0})
request = record {
  projection = some draft;
  transition_id = "approve";
  command_id = "approve";
  command_payload = null;
  actor = some "claude";
  reason = some "ready";
  permissions = "editor" ∷ [];
  facts = ("price", str "10") ∷ [];
  evidence = absent;
  approvals = [];
  guard_context = tt;
  expected_revision = some 4;
  idempotency_key = some "K1";
  request_id = none;
  history = [];
  override = false;
}

-- The same request without the fact that the guard wants, and with an override.
abbrev forced : Request (Unit {0}) (Unit {0})
forced = record request { facts = []; override = true }

result_of : Request (Unit {0}) (Unit {0}) → Decision (Unit {0})
result_of r = accepted host document stamp r draft approve (some "DRAFT")

request_runs : decide host document stamp request ≡ ok (result_of request)
unfolding decide accepted result_of inspect_transition
request_runs = refl

forced_runs : decide host document stamp forced ≡ ok (result_of forced)
unfolding decide accepted result_of inspect_transition is_content
forced_runs = refl

decide-IsAdvance_example : IsAdvance host document request (result_of request)
unfolding accepted result_of
decide-IsAdvance_example =
    decide-IsAdvance host document stamp request (result_of request) request_runs refl

decide-IsEnforced_example :
    (p : Projection (Unit {0})) × (t : Transition) × (forced.projection ≡ some p)
    × (find_transition document forced.transition_id ≡ some t)
    × IsEnforced document (some p) t (context_of host document forced)
unfolding accepted result_of
decide-IsEnforced_example =
    decide-IsEnforced host document stamp forced (result_of forced) forced_runs refl

decide-IsOpen_example :
    (p : Projection (Unit {0})) × (t : Transition) × (request.projection ≡ some p)
    × (find_transition document request.transition_id ≡ some t)
    × IsOpen host document (some p) t (context_of host document request)
unfolding accepted result_of
decide-IsOpen_example =
    decide-IsOpen host document stamp request (result_of request) request_runs refl refl

-- The entity as it stands after two more changes.
abbrev later_draft : Projection (Unit {0})
later_draft = record draft { revision = 7; states = ("lifecycle", "APPROVED") ∷ [] }

abbrev later : Stamp
later = record { now = "2026-02-02"; event_id = "E2"; audit_id = "A2" }

decide-again_example :
    decide host document later (again request (result_of request) later_draft (some 4) [])
    ≡ ok (record (result_of request) { replayed = true })
unfolding accepted result_of
decide-again_example =
    decide-again host document stamp later request (result_of request) later_draft (some 4) []
      request_runs refl refl refl

inspect_iff_example :
    ((i : Inspection) × (inspect_transition host document
          (some draft)
          approve
          (context_of host document request)
        ≡ ok i)
      × (i.eligible ≡ true))
    ↔ IsOpen host document (some draft) approve (context_of host document request)
inspect_iff_example =
    inspect_iff host document (some draft) approve (context_of host document request)
