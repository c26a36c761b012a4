-- ===== src/Workflow/Inspect.antt =====
-- `inspectTransition` of src/workflow/engine.mjs and the helpers it calls: is a transition open to
-- a projection in a context, and if not, for which reasons?
pub mod Approvals
pub mod Eligibility
use mathlib.Core.List.{flatten}
use ai_core.Base.{
  String, Bool, false, not, ◌&&◌, Option, none, some, List, [], ◌∷◌, ◌++◌, map, ◌==◌, any, includes,
  is_empty, is_some, truthy, same_text, if◌then◌else◌,
}
use ai_core.Base.Result.{Result, ok, err, ◌>>=◌}
use ai_core.Base.Table
use ai_core.Base.Table.{Table, from_entries, index_by}
use ai_core.Json.{Json, digest}
use ai_core.Workflow.Spec.{
  Guard, fact_present, fact_equals, custom, EvidenceRequirement, Approval, no_approval, any_one,
  all_roles, Transition, Axis, Workflow, Projection, Evidence, EvidenceInput, absent, items, keyed,
  ApprovalItem, Context,
}

-- The texts of `reasons`; an argument is the part behind the colon.
pub data Reason : Type 0 where
  axis_unknown from_state_not_allowed : Reason
  permission_missing guard_unknown guard_failed : String → Reason
  evidence_requirement_unknown evidence_missing evidence_verification_mismatch : String → Reason
  approval_missing : String → Reason
  approval_missing_any_one separation_of_duties_violation : Reason

-- What the engine throws: a `WorkflowError` with its code (and the reasons in its details), or the
-- `TypeError` of `createHash(...).update(undefined)`.
pub data Thrown : Type 0 where
  projection_required transition_unknown command_transition_mismatch command_unknown : Thrown
  idempotency_key_required idempotency_conflict version_mismatch : Thrown
  manual_override_not_allowed manual_override_reason_required audit_reason_required : Thrown
  manual_override_permission_missing : String → Thrown
  transition_guard_rejected : List Reason → Thrown
  attempt_invalid type_error : Thrown

pub record Inspection : Type 0 where
  pub eligible : Bool
  pub reasons : List Reason
  pub from_state : Option String
  pub to_state : Option String

-- What the engine is given and does not implement: the hash, and the caller's `evaluateGuard`.
pub record Host (G X : Type 0) : Type 0 where
  pub sha256_json : Json → String
  pub evaluate_guard : Option (Guard → Context G → Option (Projection X) → Transition → Bool)

-- `evidenceMap`
unfoldable pub evidence_map : EvidenceInput → Table Evidence
unfolding index_by
evidence_map absent = []
evidence_map (items es) = index_by (λ e. e.evidence_id) es
evidence_map (keyed es) = from_entries es

abbrev or_empty : Option (List String) → List String
or_empty none = []
or_empty (some actors) = actors

-- `map.get(role)`, the empty list where the role has none yet
listed : Table (List String) → String → List String
listed m role = or_empty (Table.get role m)

-- One round of `approvalsByRole`: an item with no role or no actor is passed over.
add_named : Table (List String) → Option String → Option String → Table (List String)
unfolding listed
add_named m none actor = m
add_named m (some role) none = m
add_named m (some role) (some actor) =
    if truthy (some role) && truthy (some actor)
    then Table.put role (listed m role ++ actor ∷ []) m
    else m

add_approval : Table (List String) → ApprovalItem → Table (List String)
unfolding add_named
add_approval m item = add_named m item.role item.actor_id

approvals_from : Table (List String) → List ApprovalItem → Table (List String)
approvals_from m [] = m
approvals_from m (item ∷ rest) = approvals_from (add_approval m item) rest

-- `approvalsByRole`, with the approvers of each role
unfoldable pub approvals_by_role : List ApprovalItem → Table (List String)
unfolding add_approval approvals_from listed Table.get Table.put
approvals_by_role approvals = approvals_from [] approvals

-- `currentState`
unfoldable pub current_state : {X : Type 0} → Option (Projection X) → Axis → String
current_state none axis = axis.initial_state
current_state (some p) axis = elim (Table.get axis.axis_id p.states) [
  | none ↦ axis.initial_state
  | some s ↦ s
]

unfoldable pub from_state_reasons : Transition → String → List Reason
from_state_reasons t s = if includes t.from s then [] else from_state_not_allowed ∷ []

-- The loop over `transition.permissions`.
unfoldable pub permission_reasons : List String → List String → List Reason
permission_reasons held [] = []
permission_reasons held (p ∷ ps) =
    if includes held p
    then permission_reasons held ps
    else permission_missing p ∷ permission_reasons held ps

-- The loop over `transition.required_evidence`.
module _ (requirements : Table EvidenceRequirement) (supplied : Table Evidence) where
  unfoldable pub evidence_item_reasons : String → List Reason
  evidence_item_reasons id = elim (Table.get id requirements) [
    | none ↦ evidence_requirement_unknown id ∷ []
    | some requirement ↦ elim (Table.get id supplied) [
      | none ↦ evidence_missing id ∷ []
      | some e ↦
          if same_text e.verification (some requirement.verification)
          then []
          else evidence_verification_mismatch id ∷ []
    ]
  ]

  unfoldable pub evidence_reasons : List String → List Reason
  unfolding evidence_item_reasons
  evidence_reasons [] = []
  evidence_reasons (id ∷ ids) = evidence_item_reasons id ++ evidence_reasons ids

-- `roleSatisfied`
unfoldable pub role_satisfied : Table (List String) → String → Bool
unfolding listed
role_satisfied by_role role = not (is_empty (listed by_role role))

unfoldable pub missing_roles : Table (List String) → List String → List Reason
missing_roles by_role [] = []
missing_roles by_role (r ∷ rs) =
    if role_satisfied by_role r
    then missing_roles by_role rs
    else approval_missing r ∷ missing_roles by_role rs

unfoldable pub role_reasons : Approval → Table (List String) → List Reason
unfolding missing_roles
role_reasons a by_role = elim a.policy [
  | no_approval ↦ []
  | all_roles ↦ missing_roles by_role a.required_roles
  | any_one ↦
      if any (role_satisfied by_role) a.required_roles then [] else approval_missing_any_one ∷ []
]

-- `[...byRole.values()].flat().map(item => item.actor_id)`
unfoldable pub approver_ids : Table (List String) → List String
approver_ids by_role = flatten (map (λ e. e.1) by_role)

unfoldable pub duty_reasons : Approval → Table (List String) → Option String → List Reason
unfolding approver_ids
duty_reasons a by_role none = []
duty_reasons a by_role (some actor) =
    if a.separation_of_duties && truthy (some actor) && includes (approver_ids by_role) actor
    then separation_of_duties_violation ∷ []
    else []

unfoldable pub approval_reasons : Approval → List ApprovalItem → Option String → List Reason
unfolding role_reasons duty_reasons approvals_by_role
approval_reasons a approvals actor = elim a.policy [
  | no_approval ↦ []
  | _ ↦
      role_reasons a (approvals_by_role approvals)
      ++ duty_reasons a (approvals_by_role approvals) actor
]

module _ {G X : Type 0} (host : Host G X) (workflow : Workflow) where
  -- `same(facts?.[guard.fact_id], guard.expected)`: the digest of a missing fact throws.
  unfoldable pub fact_matches : Option Json → Json → Result Thrown Bool
  unfolding digest
  fact_matches none expected = err type_error
  fact_matches (some v) expected =
      ok (digest host.sha256_json v == digest host.sha256_json expected)

  -- `evaluateBuiltInGuard`, and `evaluateGuard` where that returns `null`
  unfoldable pub guard_holds :
      Guard → Context G → Option (Projection X) → Transition → Result Thrown Bool
  unfolding fact_matches
  guard_holds g c p t = elim g.kind [
    | fact_present id ↦ ok (is_some (Table.get id c.facts))
    | fact_equals id expected ↦ fact_matches (Table.get id c.facts) expected
    | custom _ ↦ ok (elim host.evaluate_guard [ none ↦ false | some f ↦ f g c p t ])
  ]

  -- One round of the loop over `transition.guards`.
  unfoldable pub guard_item_reasons :
      Context G → Option (Projection X) → Transition → String → Result Thrown (List Reason)
  unfolding guard_holds
  guard_item_reasons c p t id =
      elim (Table.get id (index_by (λ (g : Guard). g.guard_id) workflow.guards)) [
        | none ↦ ok (guard_unknown id ∷ [])
        | some g ↦ do held ← guard_holds g c p t; ok (if held then [] else guard_failed id ∷ [])
      ]

  unfoldable pub guard_reasons :
      Context G → Option (Projection X) → Transition → List String → Result Thrown (List Reason)
  unfolding guard_item_reasons
  guard_reasons c p t [] = ok []
  guard_reasons c p t (id ∷ ids) = do
    here ← guard_item_reasons c p t id
    later ← guard_reasons c p t ids
    ok (here ++ later)

  unfoldable pub inspect_on :
      Option (Projection X) → Transition → Context G → Axis → Result Thrown Inspection
  unfolding guard_reasons from_state_reasons permission_reasons evidence_reasons approval_reasons
      current_state evidence_map
  inspect_on p t c axis = do
    guards ← guard_reasons c p t t.guards
    let reasons =
        from_state_reasons t (current_state p axis)
        ++ permission_reasons c.permissions t.permissions
        ++ guards
        ++ evidence_reasons
            (index_by (λ (e : EvidenceRequirement). e.evidence_id) workflow.evidence_requirements)
            (evidence_map c.evidence) t.required_evidence
        ++ approval_reasons t.approval c.approvals c.actor
    ok (record {
      eligible = is_empty reasons;
      reasons = reasons;
      from_state = some (current_state p axis);
      to_state = some t.to;
    })

  -- `inspectTransition`
  unfoldable pub inspect_transition :
      Option (Projection X) → Transition → Context G → Result Thrown Inspection
  unfolding inspect_on index_by
  inspect_transition p t c =
      elim (Table.get t.axis_id (index_by (λ (a : Axis). a.axis_id) workflow.state_axes)) [
        | none ↦ ok (record {
          eligible = false;
          reasons = axis_unknown ∷ [];
          from_state = none;
          to_state = none;
        })
        | some axis ↦ inspect_on p t c axis
      ]
