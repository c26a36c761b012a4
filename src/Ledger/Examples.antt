-- ===== src/Ledger/Examples.antt =====
-- A concrete ledger of two events, as src/workflow/work-ledger-shadow.mjs replays it.
use ai_core.Base.{true, false, none, some, List, [], ◌∷◌, ◌≡◌, refl}
use ai_core.Base.Field.{null_value, value}
use ai_core.Base.Result.{ok}
use ai_core.Workflow.Spec.{custom, no_approval, no_retry, Transition, Workflow}
use ai_core.Workflow.Decide.{Stamp, decide}
use ai_core.Ledger.{replay, valid}
use ai_core.Ledger.Events.{created, transitioned, LedgerEvent, WorkProjection}
use ai_core.Ledger.Counts.{IsCounted, replay-IsCounted}

abbrev begin : Transition
begin = record {
  transition_id = "work.received.to.planned";
  purpose = "ADVANCE";
  axis_id = "lifecycle";
  from = "RECEIVED" ∷ [];
  to = "PLANNED";
  command_id = "work.plan";
  event_type = "work.planned";
  guards = "work.project-same" ∷ [];
  permissions = [];
  required_evidence = [];
  approval = record { policy = no_approval; required_roles = []; separation_of_duties = false };
  effects = [];
  failure = record {
    on_exhausted = "FAIL";
    failure_state = none;
    compensation_transition_id = none;
    escalation_event_type = none;
  };
  retry = record {
    strategy = no_retry;
    max_attempts = 1;
    base_delay_ms = 0;
    retryable_error_codes = [];
  };
  automation = record { is_manual = true; trigger_event_types = [] };
  manual_override = record {
    allowed = false;
    permissions = [];
    can_bypass = [];
    requires_reason = true;
  };
  reversible = false;
  compensation_transition_id = none;
  reason_required = false;
  timeout = none;
  sla = none;
}

abbrev work : Workflow
work = record {
  workflow_id = "ai-core.work-lifecycle";
  version = "1";
  state_axes =
      record {
        axis_id = "lifecycle";
        initial_state = "RECEIVED";
        states = "RECEIVED" ∷ "PLANNED" ∷ [];
      }
      ∷ [];
  guards = record { guard_id = "work.project-same"; kind = custom "PROJECT_SAME" } ∷ [];
  evidence_requirements = [];
  commands = record { command_id = "work.plan"; idempotency_required = false } ∷ [];
  transitions = begin ∷ [];
}

abbrev creation : LedgerEvent
creation = record {
  type = created;
  event_id = some "E1";
  work_id = "W1";
  project_id = value "P1";
  from_state = null_value;
  to_state = value "RECEIVED";
  subject_revision = null_value;
  evidence_refs = none;
  actor = none;
  reason = none;
}

abbrev planning : LedgerEvent
planning = record creation {
  type = transitioned;
  event_id = some "E2";
  from_state = value "RECEIVED";
  to_state = value "PLANNED";
}

abbrev stamp : Stamp
stamp = record { now = "2026-01-01"; event_id = "E1"; audit_id = "A1" }

abbrev events : List (Stamp × LedgerEvent)
events = (stamp, creation) ∷ (stamp, planning) ∷ []

abbrev planned_work : WorkProjection
planned_work = record {
  entity_id = some "W1";
  revision = 1;
  states = ("lifecycle", "PLANNED") ∷ [];
  updated_at = none;
  extra = record {
    project_id = value "P1";
    subject_revision = null_value;
    verification_captured = false;
    verified_revision = null_value;
    revisions = [];
    event_count = 2;
  };
}

events_replay : replay (λ _. "hash") work events ≡ ok (valid (some planned_work))
unfolding replay decide
events_replay = refl

replay-IsCounted_example : IsCounted 2 (some planned_work)
replay-IsCounted_example =
    replay-IsCounted (λ _. "hash") work events (some planned_work) events_replay
