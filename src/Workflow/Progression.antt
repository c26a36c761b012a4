-- ===== src/Workflow/Progression.antt =====
-- `planWorkflowProgression` of src/workflow/progression.mjs.
pub mod Direction
use ai_core.Base.{
  ℕ, zero, suc, ◌+◌, ◌-◌, String, Bool, true, false, not, ◌&&◌, ◌||◌, Option, none, some, List, [],
  ◌∷◌, ◌==◌, ltb, eqb, take, drop, is_empty, if◌then◌else◌,
}
use ai_core.Base.Result.{Result, ok, err}
use ai_core.Base.Table
use ai_core.Base.Table.{Table}
use ai_core.Json.{Json, bool}
use mathlib.Core.Option

pub record InferenceRule : Type 0 where
  pub rule_id : String
  pub when_target_at_or_after : String
  pub inferred_fact_id : String
  pub forbidden_completion_fact_ids : List String

pub record ProgressionSpec : Type 0 where
  pub ordered_states : List String
  pub allow_forward_skip : Bool
  pub skipped_state_evidence_policy : String
  pub inference_rules : List InferenceRule

pub data Refusal : Type 0 where
  current_state_unknown target_state_unknown backward_progression_forbidden : Refusal
  forward_skip_forbidden : (skipped_states : List String) → Refusal

pub data Kind : Type 0 where
  same forward_skip next : Kind

pub record Requirement : Type 0 where
  pub rule_id : String
  pub fact_id : String
  pub target_state : String
  pub threshold_state : String
  pub forbidden_completion_fact_ids : List String

pub record Plan : Type 0 where
  pub kind : Kind
  pub skipped_states : List String
  pub skipped_state_evidence_policy : String
  pub inference_requirements : List Requirement

-- `eligible: false` with its reason, or `eligible: true` with the plan.
pub data Outcome : Type 0 where
  refused : Refusal → Outcome
  planned : Plan → Outcome

-- `Array.prototype.indexOf`; `none` is -1.
unfoldable pub index_of : List String → String → Option ℕ
index_of [] s = none
index_of (x ∷ xs) s = if x == s then some 0 else Option.map suc (index_of xs s)

-- `facts[id] === true`
unfoldable pub is_true_fact : Table Json → String → Bool
is_true_fact facts id = elim (Table.get id facts) [
  | some v ↦ elim v [ bool b ↦ b | _ ↦ false ]
  | none ↦ false
]

-- The test at which the loop over the rules goes on with the next rule.
unfoldable pub is_inferred : ProgressionSpec → ℕ → Table Json → InferenceRule → Bool
unfolding index_of is_true_fact
is_inferred spec to facts rule = elim (index_of spec.ordered_states rule.when_target_at_or_after) [
  | none ↦ false
  | some threshold ↦ not (ltb to threshold) && not (is_true_fact facts rule.inferred_fact_id)
]

unfoldable pub requirements :
    ProgressionSpec → String → ℕ → Table Json → List InferenceRule → List Requirement
unfolding is_inferred
requirements spec target to facts [] = []
requirements spec target to facts (rule ∷ rules) =
    if is_inferred spec to facts rule
    then record {
      rule_id = rule.rule_id;
      fact_id = rule.inferred_fact_id;
      target_state = target;
      threshold_state = rule.when_target_at_or_after;
      forbidden_completion_fact_ids = rule.forbidden_completion_fact_ids;
    }
      ∷ requirements spec target to facts rules
    else requirements spec target to facts rules

-- `spec.ordered_states.slice(from + 1, to)`
unfoldable pub skipped : ProgressionSpec → ℕ → ℕ → List String
skipped spec from to = take (to - (from + 1)) (drop (from + 1) spec.ordered_states)

kind_of : ℕ → ℕ → List String → Kind
kind_of from to skips =
    if eqb to from then same else if not (is_empty skips) then forward_skip else next

-- The plan that is returned.
unfoldable pub plan_of : ProgressionSpec → String → Table Json → ℕ → ℕ → Plan
unfolding requirements skipped kind_of
plan_of spec target facts from to = record {
  kind = kind_of from to (skipped spec from to);
  skipped_states = skipped spec from to;
  skipped_state_evidence_policy = spec.skipped_state_evidence_policy;
  inference_requirements = requirements spec target to facts spec.inference_rules;
}

unfoldable pub plan_between : ProgressionSpec → String → Table Json → ℕ → ℕ → Outcome
unfolding plan_of skipped
plan_between spec target facts from to =
    if ltb to from
    then refused backward_progression_forbidden
    else if not (is_empty (skipped spec from to)) && not spec.allow_forward_skip
    then refused (forward_skip_forbidden (skipped spec from to))
    else planned (plan_of spec target facts from to)

unfoldable pub plan_progression : ProgressionSpec → String → String → Table Json → Outcome
unfolding plan_between index_of
plan_progression spec current target facts = elim (index_of spec.ordered_states current) [
  | none ↦ refused current_state_unknown
  | some from ↦ elim (index_of spec.ordered_states target) [
    | none ↦ refused target_state_unknown
    | some to ↦ plan_between spec target facts from to
  ]
]

-- `none` is a missing specification: the function throws `WORKFLOW_PROGRESSION_SPEC_REQUIRED`.
unfoldable pub plan_workflow_progression :
    Option ProgressionSpec → String → String → Table Json → Result String Outcome
unfolding plan_progression
plan_workflow_progression none current target facts = err "WORKFLOW_PROGRESSION_SPEC_REQUIRED"
plan_workflow_progression (some spec) current target facts =
    ok (plan_progression spec current target facts)
