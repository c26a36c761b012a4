-- ===== src/Orders/Lifecycle.antt =====
-- The workflow `ai-core.order-task-lifecycle` of registry/workflows.json, which the order store is
-- built on. Its transitions differ in the arguments of `move`; the other fields are the same in all.
use ai_core.Base.{String, Bool, true, false, none, List, [], ◌∷◌}
use ai_core.Json.{bool}
use ai_core.Workflow.Spec.{Guard, fact_equals, Command, no_approval, no_retry, Transition, Workflow}

abbrev move :
    String → String → List String → String → String → String → List String → Bool → Transition
move id purpose from to command event guards reason_required = record {
  transition_id = id;
  purpose = purpose;
  axis_id = "lifecycle";
  from = from;
  to = to;
  command_id = command;
  event_type = event;
  guards = guards;
  permissions = [];
  required_evidence = [];
  approval = record { policy = no_approval; required_roles = []; separation_of_duties = false };
  effects = [];
  failure = record {
    on_exhausted = "HOLD";
    failure_state = none;
    compensation_transition_id = none;
    escalation_event_type = none;
  };
  retry = record {
    strategy = no_retry;
    max_attempts = 0;
    base_delay_ms = 0;
    retryable_error_codes = [];
  };
  automation = record { is_manual = true; trigger_event_types = [] };
  manual_override = record {
    allowed = false;
    permissions = [];
    can_bypass = [];
    requires_reason = true;
  };
  reversible = false;
  compensation_transition_id = none;
  reason_required = reason_required;
  timeout = none;
  sla = none;
}

abbrev fact_guard : String → String → Guard
fact_guard id fact = record { guard_id = id; kind = fact_equals fact (bool true) }

abbrev command : String → Command
command id = record { command_id = id; idempotency_required = true }

abbrev pub to_assign_pending : Transition
to_assign_pending =
    move "order-task.assign.pending" "NORMAL" ("PENDING" ∷ []) "PENDING" "order-task.assign"
      "ai-core.order-task.assigned"
      ("task.actor-valid" ∷ "task.lease-inactive" ∷ "task.reason-valid" ∷ []) true

abbrev pub to_assign_blocked : Transition
to_assign_blocked =
    move "order-task.assign.blocked" "RESUME" ("BLOCKED" ∷ []) "PENDING" "order-task.assign"
      "ai-core.order-task.assigned"
      ("task.actor-valid" ∷ "task.lease-inactive" ∷ "task.reason-valid" ∷ []) true

abbrev pub to_assign_expired_running : Transition
to_assign_expired_running =
    move "order-task.assign.expired-running" "RETRY" ("RUNNING" ∷ []) "PENDING" "order-task.assign"
      "ai-core.order-task.assigned"
      ("task.actor-valid" ∷ "task.lease-inactive" ∷ "task.reason-valid" ∷ []) true

abbrev pub to_claim_pending : Transition
to_claim_pending =
    move "order-task.claim.pending" "NORMAL" ("PENDING" ∷ []) "RUNNING" "order-task.claim"
      "ai-core.order-task.claimed"
      ("task.actor-valid" ∷ "task.actor-assigned" ∷ "task.lease-inactive"
        ∷ "task.dependencies-reported" ∷ [])
      false

abbrev pub to_claim_blocked : Transition
to_claim_blocked =
    move "order-task.claim.blocked" "RESUME" ("BLOCKED" ∷ []) "RUNNING" "order-task.claim"
      "ai-core.order-task.claimed"
      ("task.actor-valid" ∷ "task.actor-assigned" ∷ "task.lease-inactive"
        ∷ "task.dependencies-reported" ∷ [])
      false

abbrev pub to_claim_expired_running : Transition
to_claim_expired_running =
    move "order-task.claim.expired-running" "RETRY" ("RUNNING" ∷ []) "RUNNING" "order-task.claim"
      "ai-core.order-task.claimed"
      ("task.actor-valid" ∷ "task.actor-assigned" ∷ "task.lease-inactive"
        ∷ "task.dependencies-reported" ∷ [])
      false

abbrev pub to_report : Transition
to_report =
    move "order-task.report" "NORMAL" ("RUNNING" ∷ []) "REPORTED" "order-task.report"
      "ai-core.order-task.reported"
      ("task.actor-valid" ∷ "task.lease-valid" ∷ "task.revision-current"
        ∷ "task.report-content-valid" ∷ [])
      false

abbrev pub to_block : Transition
to_block =
    move "order-task.block" "HOLD" ("RUNNING" ∷ []) "BLOCKED" "order-task.block"
      "ai-core.order-task.blocked"
      ("task.actor-valid" ∷ "task.lease-valid" ∷ "task.reason-valid" ∷ []) true

abbrev pub to_invalidate : Transition
to_invalidate =
    move "order-task.invalidate" "INVALIDATE" ("PENDING" ∷ "RUNNING" ∷ "BLOCKED" ∷ "REPORTED" ∷ [])
      "PENDING" "order-task.invalidate" "ai-core.order-task.invalidated" ("task.reason-valid" ∷ [])
      true

abbrev pub order_task_workflow : Workflow
order_task_workflow = record {
  workflow_id = "ai-core.order-task-lifecycle";
  version = "0.1.0";
  state_axes =
      record {
        axis_id = "lifecycle";
        initial_state = "PENDING";
        states = "PENDING" ∷ "RUNNING" ∷ "BLOCKED" ∷ "REPORTED" ∷ [];
      }
      ∷ [];
  guards =
      fact_guard "task.actor-valid" "task.actor_valid"
      ∷ fact_guard "task.actor-assigned" "task.actor_assigned"
      ∷ fact_guard "task.lease-inactive" "task.lease_inactive"
      ∷ fact_guard "task.lease-valid" "task.lease_valid"
      ∷ fact_guard "task.dependencies-reported" "task.dependencies_reported"
      ∷ fact_guard "task.revision-current" "task.revision_current"
      ∷ fact_guard "task.report-content-valid" "task.report_content_valid"
      ∷ fact_guard "task.reason-valid" "task.reason_valid"
      ∷ [];
  evidence_requirements = [];
  commands =
      command "order-task.assign"
      ∷ command "order-task.claim"
      ∷ command "order-task.report"
      ∷ command "order-task.block"
      ∷ command "order-task.invalidate"
      ∷ [];
  transitions =
      to_assign_pending ∷ to_assign_blocked ∷ to_assign_expired_running ∷ to_claim_pending
      ∷ to_claim_blocked ∷ to_claim_expired_running ∷ to_report ∷ to_block ∷ to_invalidate ∷ [];
}
