-- ===== src/Workflow/PlanExamples.antt =====
-- Concrete runs of the retries of src/workflow/engine.mjs, of src/workflow/progression.mjs,
-- src/workflow/projection.mjs and src/workflow/registry.mjs.
use ai_core.Base.{
  ℕ, ◌+◌, ◌≤◌, String, true, false, Option, none, some, List, [], ◌∷◌, ◌≡◌, refl, subst, ◌↔◌, ◌⊎◌,
  inl, inr, arith, In,
}
use ai_core.Base.Result.{ok}
use ai_core.Base.Table
use ai_core.Json.{null, str}
use ai_core.Workflow.Spec.{exponential, no_approval, Transition, Axis, Workflow}
use ai_core.Workflow.Recovery.{Resolution, on_exhausted}
use ai_core.Workflow.Recovery.Retries.{follow, follow_ends}
use ai_core.Workflow.Progression.{
  ProgressionSpec, Plan, planned, plan_progression, index_of, plan_of,
}
use ai_core.Workflow.Progression.Direction.{plan_progression_iff}
use ai_core.Workflow.Derivation.{
  state_equals, Rule, DerivationSpec, Facts, derive, rule_matches, condition_matches,
}
use ai_core.Workflow.Derivation.Priority.{derive-least}
use ai_core.Workflow.Registry.{Graph, lifecycle_graph}
use ai_core.Workflow.Registry.Edges.{IsDrawn, lifecycle_graph_edges}

abbrev send : Transition
send = record {
  transition_id = "send";
  purpose = "ADVANCE";
  axis_id = "lifecycle";
  from = "READY" ∷ [];
  to = "SENT";
  command_id = "send";
  event_type = "sent";
  guards = [];
  permissions = [];
  required_evidence = [];
  approval = record { policy = no_approval; required_roles = []; separation_of_duties = false };
  effects = [];
  failure = record {
    on_exhausted = "ESCALATE";
    failure_state = none;
    compensation_transition_id = none;
    escalation_event_type = none;
  };
  retry = record {
    strategy = exponential;
    max_attempts = 3;
    base_delay_ms = 100;
    retryable_error_codes = "TIMEOUT" ∷ [];
  };
  automation = record { is_manual = true; trigger_event_types = [] };
  manual_override = record {
    allowed = false;
    permissions = [];
    can_bypass = [];
    requires_reason = true;
  };
  reversible = false;
  compensation_transition_id = none;
  reason_required = false;
  timeout = none;
  sla = none;
}

abbrev timeouts : ℕ → Option String
timeouts n = some "TIMEOUT"

follow_ends_example :
    (r : Resolution) × (follow 3 send timeouts "now" 1 ≡ some r)
    × (r.action ≡ on_exhausted "ESCALATE")
    × ((r.attempt ≡ 1) ⊎ (r.attempt ≤ 3))
follow_ends_example = follow_ends send timeouts "now" 2 1 (omega arith)

abbrev stages : ProgressionSpec
stages = record {
  ordered_states = "PLANNED" ∷ "BUILT" ∷ "TESTED" ∷ "RELEASED" ∷ [];
  allow_forward_skip = true;
  skipped_state_evidence_policy = "REQUIRED";
  inference_rules = [];
}

found_from : index_of stages.ordered_states "PLANNED" ≡ some 0
unfolding index_of
found_from = refl

found_to : index_of stages.ordered_states "RELEASED" ≡ some 3
unfolding index_of
found_to = refl

plan_progression_iff_example :
    ((plan : Plan) × (plan_progression stages "PLANNED" "RELEASED" [] ≡ planned plan))
    ↔ ((0 ≤ 3) × ((3 ≤ 0 + 1) ⊎ (true ≡ true)))
plan_progression_iff_example =
    plan_progression_iff stages "PLANNED" "RELEASED" [] 0 3 found_from found_to

released :
    plan_progression stages "PLANNED" "RELEASED" [] ≡ planned (plan_of stages "RELEASED" [] 0 3)
unfolding plan_progression
released = refl

abbrev is_sent : Rule
is_sent = record {
  rule_id = "sent";
  priority = 2;
  all = state_equals "lifecycle" "SENT" ∷ [];
  result = str "done";
}

abbrev any_state : Rule
any_state = record { rule_id = "any"; priority = 5; all = []; result = str "open" }

abbrev status_of : List Rule → DerivationSpec
status_of rules = record {
  projection_id = "status";
  projection_ref = "status";
  rules = rules;
  default_result = null;
}

abbrev sent : Facts
sent = record { states = ("lifecycle", "SENT") ∷ []; facts = [] }

abbrev ready : Facts
ready = record { states = ("lifecycle", "READY") ∷ []; facts = [] }

any_matches : rule_matches sent any_state ≡ true
unfolding rule_matches
any_matches = refl

derive-least_example :
    (chosen : Rule) × In chosen (any_state ∷ is_sent ∷ [])
    × (rule_matches sent chosen ≡ true)
    × ((derive (status_of (any_state ∷ is_sent ∷ [])) sent).value ≡ chosen.result)
    × ((derive (status_of (any_state ∷ is_sent ∷ [])) sent).matched_rule_id ≡ some chosen.rule_id)
    × ((other : Rule)
        → In other (any_state ∷ is_sent ∷ [])
        → rule_matches sent other ≡ true
        → chosen.priority ≤ other.priority)
derive-least_example =
    derive-least (status_of (any_state ∷ is_sent ∷ [])) sent any_state (inl refl) any_matches

sent_fails : rule_matches ready is_sent ≡ false
unfolding rule_matches Table.get condition_matches
sent_fails = refl

none_match : (r : Rule) → In r (is_sent ∷ []) → rule_matches ready r ≡ false
none_match r (inl e) = subst (λ (q : Rule). rule_matches ready q ≡ false) e sent_fails
none_match r (inr i) = absurd i

abbrev lifecycle : Axis
lifecycle = record {
  axis_id = "lifecycle";
  initial_state = "READY";
  states = "READY" ∷ "SENT" ∷ [];
}

abbrev sending : Workflow
sending = record {
  workflow_id = "sending";
  version = "1";
  state_axes = lifecycle ∷ [];
  guards = [];
  evidence_requirements = [];
  commands = [];
  transitions = send ∷ [];
}

abbrev graph : Graph
graph = record {
  workflow = sending;
  axis = lifecycle;
  transitions = ("READY", "SENT" ∷ []) ∷ ("SENT", []) ∷ [];
  reobservable = [];
  verified_path = [];
}

graph_is_drawn : lifecycle_graph (sending ∷ []) "sending" "lifecycle" ≡ ok graph
unfolding lifecycle_graph
graph_is_drawn = refl

ready_listed : Table.get "READY" graph.transitions ≡ some ("SENT" ∷ [])
unfolding Table.get
ready_listed = refl

lifecycle_graph_edges_example :
    In {A = String} "SENT" ("SENT" ∷ []) ↔ IsDrawn "lifecycle" (send ∷ []) "READY" "SENT"
lifecycle_graph_edges_example =
    lifecycle_graph_edges (sending ∷ []) "sending" "lifecycle" graph "READY" "SENT" ("SENT" ∷ [])
      graph_is_drawn ready_listed
