-- ===== src/Workflow/Derivation.antt =====
-- `deriveWorkflowProjection` of src/workflow/projection.mjs: the first matching rule, by priority.
-- The values of facts that a condition names are compared by `Object.is`, which tells two objects
-- or two arrays apart always.
pub mod Priority
use ai_core.Base.{
  ℕ, String, Bool, true, false, Option, none, some, List, [], ◌∷◌, ◌==◌, leb, eqb, every, find,
  if◌then◌else◌,
}
use ai_core.Base.Result.{Result, ok, err}
use ai_core.Base.Table
use ai_core.Base.Table.{Table}
use ai_core.Json.{Json, null, bool, num, str, arr, obj}

pub data Condition : Type 0 where
  state_equals : (axis_id value : String) → Condition
  fact_equals : (fact_id : String) (value : Json) → Condition
  other : (kind : String) → Condition

pub record Rule : Type 0 where
  pub rule_id : String
  pub priority : ℕ
  pub all : List Condition
  pub result : Json

pub record DerivationSpec : Type 0 where
  pub projection_id : String
  pub projection_ref : String
  pub rules : List Rule
  pub default_result : Json

pub record Facts : Type 0 where
  pub states : Table String
  pub facts : Table Json

pub record Derived : Type 0 where
  pub projection_id : String
  pub projection_ref : String
  pub value : Json
  pub matched_rule_id : Option String

same_bool : Bool → Bool → Bool
same_bool true b = b
same_bool false true = false
same_bool false false = true

-- `Object.is`
unfoldable pub same_value : Json → Json → Bool
unfolding same_bool
same_value null null = true
same_value (bool a) (bool b) = same_bool a b
same_value (num a) (num b) = eqb a b
same_value (str a) (str b) = a == b
same_value _ _ = false

-- `conditionMatches`
unfoldable pub condition_matches : Facts → Condition → Bool
unfolding same_value
condition_matches c (state_equals axis value) = elim (Table.get axis c.states) [
  | none ↦ false
  | some s ↦ s == value
]
condition_matches c (fact_equals id value) = elim (Table.get id c.facts) [
  | none ↦ false
  | some v ↦ same_value v value
]
condition_matches c (other kind) = false

unfoldable pub rule_matches : Facts → Rule → Bool
rule_matches c rule = every (condition_matches c) rule.all

unfoldable pub insert_rule : Rule → List Rule → List Rule
insert_rule r [] = r ∷ []
insert_rule r (s ∷ rules) =
    if leb r.priority s.priority then r ∷ s ∷ rules else s ∷ insert_rule r rules

-- `[...rules].sort((a, b) => a.priority - b.priority)`, which is stable
unfoldable pub sort_rules : List Rule → List Rule
unfolding insert_rule
sort_rules [] = []
sort_rules (r ∷ rules) = insert_rule r (sort_rules rules)

derived_from : DerivationSpec → Option Rule → Derived
derived_from spec none = record {
  projection_id = spec.projection_id;
  projection_ref = spec.projection_ref;
  value = spec.default_result;
  matched_rule_id = none;
}
derived_from spec (some rule) = record {
  projection_id = spec.projection_id;
  projection_ref = spec.projection_ref;
  value = rule.result;
  matched_rule_id = some rule.rule_id;
}

unfoldable pub derive : DerivationSpec → Facts → Derived
unfolding sort_rules derived_from rule_matches condition_matches
derive spec c = derived_from spec (find (rule_matches c) (sort_rules spec.rules))

unfoldable pub derive_workflow_projection : Option DerivationSpec → Facts → Result String Derived
unfolding derive
derive_workflow_projection none c = err "WORKFLOW_PROJECTION_SPEC_REQUIRED"
derive_workflow_projection (some spec) c = ok (derive spec c)
