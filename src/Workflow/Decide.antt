-- ===== src/Workflow/Decide.antt =====
-- `decide` of src/workflow/engine.mjs: a request to take a transition is answered by an earlier
-- result with the same idempotency key, by an error, or by a new projection with its event, its
-- audit record and its recovery data.
pub mod Acceptance
pub mod Overrides
pub mod Replays
use ai_core.Base.{
  ℕ, ◌+◌, String, Bool, true, false, not, ◌&&◌, ◌||◌, Option, none, some, List, [], ◌∷◌, map, ◌==◌,
  eqb, find, keep, includes, is_empty, truthy, is_content, same_text, or_else, if◌then◌else◌,
}
use ai_core.Base.Result.{Result, ok, err, need, ◌>>=◌, ◌>>◌}
use ai_core.Base.Table
use ai_core.Base.Table.{Table, index_by}
use ai_core.Json.{Json, null, str, obj, end, field, digest}
use ai_core.Workflow.Spec.{
  Command, Retry, FailurePolicy, Transition, Workflow, Projection, Evidence, EvidenceInput,
  ApprovalItem, Context,
}
use ai_core.Workflow.Inspect.{
  Reason, guard_unknown, guard_failed, evidence_requirement_unknown, evidence_missing,
  evidence_verification_mismatch, Thrown, projection_required, transition_unknown,
  command_transition_mismatch, command_unknown, idempotency_key_required, idempotency_conflict,
  version_mismatch, manual_override_not_allowed, manual_override_permission_missing,
  manual_override_reason_required, audit_reason_required, transition_guard_rejected, Inspection,
  Host, evidence_map, inspect_transition,
}

-- The fields that the event and the audit record share; `at` is `occurred_at`, `recorded_at` and
-- `changed_at`.
pub record Change : Type 0 where
  pub workflow_id : String
  pub workflow_version : String
  pub transition_id : String
  pub command_id : String
  pub command_payload_digest : String
  pub intent_fingerprint : String
  pub entity_id : Option String
  pub actor : Option String
  pub reason : Option String
  pub from_state : Option String
  pub to_state : String
  pub expected_revision : ℕ
  pub resulting_revision : ℕ
  pub request_id : Option String
  pub idempotency_key : Option String
  pub at : String
  pub override_requested : Bool
  pub bypassed : List String

pub record Event : Type 0 where
  pub event_id : String
  pub event_type : String
  pub axis_id : String
  pub change : Change

pub record Audit : Type 0 where
  pub audit_id : String
  pub evidence_refs : List String
  pub approval_actors : List ApprovalItem
  pub change : Change

pub record Recovery : Type 0 where
  pub reversible : Bool
  pub compensation_transition_id : Option String
  pub retry : Retry
  pub failure : FailurePolicy
  pub timeout : Option Json
  pub sla : Option Json

-- The result of an accepted request (`status: 'TRANSITION_ACCEPTED'`).
pub record Decision (X : Type 0) : Type 0 where
  pub replayed : Bool
  pub intent_fingerprint : String
  pub next_projection : Projection X
  pub event : Event
  pub audit : Audit
  pub effects : List Json
  pub recovery : Recovery

pub record HistoryItem (X : Type 0) : Type 0 where
  pub idempotency_key : Option String
  pub intent_fingerprint : Option String
  pub result : Decision X

pub record Request (G X : Type 0) : Type 0 where
  pub projection : Option (Projection X)
  pub transition_id : String
  pub command_id : String
  pub command_payload : Json
  pub actor : Option String
  pub reason : Option String
  pub permissions : List String
  pub facts : Table Json
  pub evidence : EvidenceInput
  pub approvals : List ApprovalItem
  pub guard_context : G
  pub expected_revision : Option ℕ
  pub idempotency_key : Option String
  pub request_id : Option String
  pub history : List (HistoryItem X)
  pub override : Bool

-- The results of `now()` and of the two calls of `idFactory()`.
pub record Stamp : Type 0 where
  pub now : String
  pub event_id : String
  pub audit_id : String

pub record Identity : Type 0 where
  pub command_payload_digest : String
  pub intent_fingerprint : String

json_of : Option String → Json
json_of none = null
json_of (some s) = str s

-- A value that must be there.
abbrev pub required : {A : Type 0} → Option A → Thrown → Result Thrown A
required none e = err e
required (some a) e = ok a

-- `code.startsWith('GUARD_')`
unfoldable pub is_guard_reason : Reason → Bool
is_guard_reason (guard_unknown _) = true
is_guard_reason (guard_failed _) = true
is_guard_reason _ = false

-- `code.startsWith('EVIDENCE_')`
unfoldable pub is_evidence_reason : Reason → Bool
is_evidence_reason (evidence_requirement_unknown _) = true
is_evidence_reason (evidence_missing _) = true
is_evidence_reason (evidence_verification_mismatch _) = true
is_evidence_reason _ = false

-- The reasons that an override does not take away.
unfoldable pub is_remaining : List String → Reason → Bool
unfolding is_guard_reason is_evidence_reason
is_remaining bypass r =
    not (includes bypass "GUARDS" && is_guard_reason r)
    && not (includes bypass "EVIDENCE" && is_evidence_reason r)

-- The loop over `policy.permissions`.
unfoldable pub override_permissions : List String → List String → Result Thrown (Unit {0})
override_permissions held [] = ok tt
override_permissions held (p ∷ ps) = do
  need (includes held p) (manual_override_permission_missing p)
  override_permissions held ps

-- `.map(item => item.ref).filter(Boolean)`
refs : List Evidence → List String
refs [] = []
refs (e ∷ es) = elim e.ref [
  | none ↦ refs es
  | some s ↦ if truthy (some s) then s ∷ refs es else refs es
]

-- The entry of `history` that an idempotency key names.
unfoldable pub previous_item :
    {X : Type 0} → Option String → List (HistoryItem X) → Option (HistoryItem X)
previous_item key history =
    if truthy key then find (λ h. same_text h.idempotency_key key) history else none

unfoldable pub previous_fingerprint : {X : Type 0} → HistoryItem X → String
previous_fingerprint h = elim h.intent_fingerprint [
  | none ↦ h.result.intent_fingerprint
  | some f ↦ f
]

-- `expected_revision === projection.revision`
unfoldable pub revision_matches : Option ℕ → ℕ → Bool
revision_matches none n = false
revision_matches (some m) n = eqb m n

-- `idx.transitions.get(transition_id)`
unfoldable pub find_transition : Workflow → String → Option Transition
unfolding index_by Table.get
find_transition workflow id =
    Table.get id (index_by (λ (t : Transition). t.transition_id) workflow.transitions)

-- `idx.commands.get(command_id)`
unfoldable pub find_command : Workflow → String → Option Command
unfolding index_by Table.get
find_command workflow id = Table.get id (index_by (λ (c : Command). c.command_id) workflow.commands)

-- `command_payload ?? {}`
or_empty : Json → Json
or_empty null = obj end
or_empty v = v

module _ {G X : Type 0} (host : Host G X) (workflow : Workflow) where
  -- `makeIntentFingerprint`
  unfoldable pub intent_identity : Request G X → Option String → Identity
  unfolding digest json_of or_empty
  intent_identity r entity_id =
      let payload = digest host.sha256_json (or_empty r.command_payload) in
      record {
        command_payload_digest = payload;
        intent_fingerprint = digest host.sha256_json (
            obj (
              field "workflow_id" (str workflow.workflow_id) (
                field "workflow_version" (str workflow.version) (
                  field "transition_id" (str r.transition_id) (
                    field "command_id" (str r.command_id) (
                      field "entity_id" (json_of entity_id)
                        (field "command_payload_digest" (str payload) end)))))));
      }

  abbrev pub context_of : Request G X → Context G
  context_of r = record {
    permissions = r.permissions;
    facts = r.facts;
    evidence = r.evidence;
    approvals = r.approvals;
    actor = r.actor;
    guard_context = r.guard_context;
  }

  unfoldable pub next_of : Stamp → Projection X → Transition → Projection X
  next_of stamp p t = record p {
    revision = p.revision + 1;
    states = Table.put t.axis_id t.to p.states;
    updated_at = some stamp.now;
  }

  unfoldable pub change_of :
      Stamp → Request G X → Projection X → Transition → Option String → Change
  unfolding intent_identity
  change_of stamp r p t from_state = record {
    workflow_id = workflow.workflow_id;
    workflow_version = workflow.version;
    transition_id = r.transition_id;
    command_id = r.command_id;
    command_payload_digest = (intent_identity r p.entity_id).command_payload_digest;
    intent_fingerprint = (intent_identity r p.entity_id).intent_fingerprint;
    entity_id = p.entity_id;
    actor = r.actor;
    reason = r.reason;
    from_state = from_state;
    to_state = t.to;
    expected_revision = p.revision;
    resulting_revision = p.revision + 1;
    request_id = r.request_id;
    idempotency_key = r.idempotency_key;
    at = stamp.now;
    override_requested = r.override;
    bypassed = if r.override then t.manual_override.can_bypass else [];
  }

  unfoldable pub accepted :
      Stamp → Request G X → Projection X → Transition → Option String → Decision X
  unfolding next_of change_of refs evidence_map
  accepted stamp r p t from_state = record {
    replayed = false;
    intent_fingerprint = (intent_identity r p.entity_id).intent_fingerprint;
    next_projection = next_of stamp p t;
    event = record {
      event_id = stamp.event_id;
      event_type = t.event_type;
      axis_id = t.axis_id;
      change = change_of stamp r p t from_state;
    };
    audit = record {
      audit_id = stamp.audit_id;
      evidence_refs = refs (map (λ e. e.1) (evidence_map r.evidence));
      approval_actors = r.approvals;
      change = change_of stamp r p t from_state;
    };
    effects = t.effects;
    recovery = record {
      reversible = t.reversible;
      compensation_transition_id =
          or_else t.compensation_transition_id t.failure.compensation_transition_id;
      retry = t.retry;
      failure = t.failure;
      timeout = t.timeout;
      sla = t.sla;
    };
  }

  -- `if (!inspected.eligible && override) { … }`
  unfoldable pub override_step : Request G X → Transition → List Reason → Result Thrown (Unit {0})
  unfolding is_remaining override_permissions
  override_step r t reasons = do
    need t.manual_override.allowed manual_override_not_allowed
    override_permissions r.permissions t.manual_override.permissions
    need (not t.manual_override.requires_reason || is_content r.reason)
        manual_override_reason_required
    let remaining = keep (is_remaining t.manual_override.can_bypass) reasons
    need (is_empty remaining) (transition_guard_rejected remaining)

  -- The override, and the demand that the transition is open with it or without it.
  unfoldable pub settle : Request G X → Transition → Inspection → Result Thrown (Unit {0})
  unfolding override_step
  settle r t i =
      if not i.eligible && r.override
      then override_step r t i.reasons
      else need i.eligible (transition_guard_rejected i.reasons)

  -- The part of `decide` below the idempotency test.
  unfoldable pub decide_fresh :
      Stamp → Request G X → Projection X → Transition → Result Thrown (Decision X)
  unfolding settle accepted revision_matches
  decide_fresh stamp r p t = do
    need (revision_matches r.expected_revision p.revision) version_mismatch
    i ← inspect_transition host workflow (some p) t (context_of r)
    settle r t i
    need (not t.reason_required || is_content r.reason) audit_reason_required
    ok (accepted stamp r p t i.from_state)

  -- The answer from an earlier result, or a fresh decision.
  unfoldable pub decide_known :
      Stamp
      → Request G X
      → Projection X
      → Transition
      → Option (HistoryItem X)
      → Result Thrown (Decision X)
  unfolding decide_fresh intent_identity previous_fingerprint
  decide_known stamp r p t none = decide_fresh stamp r p t
  decide_known stamp r p t (some h) = do
    need (previous_fingerprint h == (intent_identity r p.entity_id).intent_fingerprint)
        idempotency_conflict
    ok (record h.result { replayed = true })

  unfoldable pub decide : Stamp → Request G X → Result Thrown (Decision X)
  unfolding decide_known find_transition find_command previous_item
  decide stamp r = do
    p ← required r.projection projection_required
    t ← required (find_transition workflow r.transition_id) transition_unknown
    need (t.command_id == r.command_id) command_transition_mismatch
    command ← required (find_command workflow r.command_id) command_unknown
    need (not command.idempotency_required || truthy r.idempotency_key) idempotency_key_required
    decide_known stamp r p t (previous_item r.idempotency_key r.history)
