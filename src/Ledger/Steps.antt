-- ===== src/Ledger/Steps.antt =====
-- The guards, the engine's request and the projections of src/workflow/work-ledger-shadow.mjs.
use ai_core.Base.{
  ◌+◌, String, Bool, true, false, not, ◌&&◌, ◌||◌, Option, none, some, List, [], ◌∷◌, ◌++◌, ◌==◌,
  is_empty, if◌then◌else◌,
}
use ai_core.Base.Field.{Field, missing, null_value, value, same_field, or_null, is_given, is_text}
use ai_core.Json.{Json, null, str, arr, obj, nil, cons, end, field, Items, Fields}
use ai_core.Workflow.Spec.{Guard, Transition, Context, absent}
use ai_core.Workflow.Inspect.{Host}
use ai_core.Workflow.Decide.{Decision, Request}
use ai_core.Ledger.Events.{
  EventType, LedgerEvent, LedgerInspection, WorkData, WorkProjection, blocked, cancelled, captured,
  create_from_state_invalid, create_to_state_invalid, created, has_evidence, is_reobserved, other,
  project_of, reobserved, resumed, subject_of, transitioned, valid_revision, verified_of,
  work_already_created,
}

-- The `switch` of `evaluateGuard`.
unfoldable pub ledger_guard : String → LedgerEvent → Option WorkProjection → Bool
unfolding valid_revision has_evidence
ledger_guard id e p =
    if id == "work.project-same"
    then same_field e.project_id (project_of p)
    else if id == "work.subject-revision-same"
    then same_field e.subject_revision (subject_of p)
    else if id == "work.subject-revision-changed"
    then valid_revision e.subject_revision && not (same_field e.subject_revision (subject_of p))
    else if id == "work.subject-revision-present"
    then valid_revision e.subject_revision
    else if id == "work.verified-revision-compatible"
    then not (captured p) || same_field e.subject_revision (verified_of p)
    else if id == "work.verified-revision-present"
    then captured p
    else if id == "work.evidence-present"
    then has_evidence e.evidence_refs
    else false

abbrev ledger_evaluate : Guard → Context LedgerEvent → Option WorkProjection → Transition → Bool
ledger_evaluate g c p t = ledger_guard g.guard_id c.guard_context p

-- `createWorkflowEngine(workflow, { evaluateGuard })`
unfoldable pub ledger_host : (Json → String) → Host LedgerEvent WorkData
unfolding ledger_guard
ledger_host sha256_json = record {
  sha256_json = sha256_json;
  evaluate_guard = some ledger_evaluate;
}

abbrev pub event_context : LedgerEvent → Context LedgerEvent
event_context e = record {
  permissions = [];
  facts = [];
  evidence = absent;
  approvals = [];
  actor = none;
  guard_context = e;
}

-- The branch of `inspect` for a `CREATED` event.
unfoldable pub inspect_created : Option WorkProjection → LedgerEvent → LedgerInspection
inspect_created p e =
    let reasons =
      (elim p [ none ↦ [] | some _ ↦ work_already_created ∷ [] ])
      ++ (elim e.from_state [ null_value ↦ [] | _ ↦ create_from_state_invalid ∷ [] ])
      ++ (if is_text e.to_state "RECEIVED" then [] else create_to_state_invalid ∷ []) in
    record { eligible = is_empty reasons; reasons = reasons; transition_id = none }

event_type_text : EventType → String
event_type_text created = "CREATED"
event_type_text transitioned = "TRANSITIONED"
event_type_text blocked = "BLOCKED"
event_type_text resumed = "RESUMED"
event_type_text cancelled = "CANCELLED"
event_type_text reobserved = "REOBSERVED"
event_type_text (other s) = s

field_json : Field → Json
field_json (value s) = str s
field_json _ = null

-- A property that is `undefined` is left out.
put_field : String → Field → Fields → Fields
put_field k missing rest = rest
put_field k f rest = field k (field_json f) rest

texts : List String → Items
texts [] = nil
texts (x ∷ xs) = cons (str x) (texts xs)

refs_of : Option (List String) → List String
refs_of none = []
refs_of (some refs) = refs

-- The `command_payload` of the engine's request.
event_payload : LedgerEvent → Json
unfolding event_type_text put_field field_json texts refs_of
event_payload e = obj (
    field "type" (str (event_type_text e.type)) (
      put_field "project_id" e.project_id (
        put_field "from_state" e.from_state (
          put_field "to_state" e.to_state (
            field "subject_revision" (field_json e.subject_revision)
              (field "evidence_refs" (arr (texts (refs_of e.evidence_refs))) end))))))

unfoldable pub engine_request :
    WorkProjection → LedgerEvent → Transition → Request LedgerEvent WorkData
unfolding event_payload
engine_request p e t = record {
  projection = some p;
  transition_id = t.transition_id;
  command_id = t.command_id;
  command_payload = event_payload e;
  actor = e.actor;
  reason = e.reason;
  permissions = [];
  facts = [];
  evidence = absent;
  approvals = [];
  guard_context = e;
  expected_revision = some p.revision;
  idempotency_key = none;
  request_id = e.event_id;
  history = [];
  override = false;
}

-- `REOBSERVABLE.has(state)`
unfoldable pub is_reobservable_state : Field → Bool
is_reobservable_state (value s) = s == "RECEIVED" || s == "PLANNED" || s == "IN_PROGRESS"
is_reobservable_state _ = false

-- The projection of a new work item.
unfoldable pub create_projection : LedgerEvent → WorkProjection
create_projection e = record {
  entity_id = some e.work_id;
  revision = 0;
  states = ("lifecycle", "RECEIVED") ∷ [];
  updated_at = none;
  extra = record {
    project_id = e.project_id;
    subject_revision = e.subject_revision;
    verification_captured = false;
    verified_revision = null_value;
    revisions = if is_given e.subject_revision then e.subject_revision ∷ [] else [];
    event_count = 1;
  };
}

-- `revisions.at(-1) !== revision`
differs_from_last : List Field → Field → Bool
differs_from_last [] f = not (same_field missing f)
differs_from_last (x ∷ []) f = not (same_field x f)
differs_from_last (x ∷ y ∷ xs) f = differs_from_last (y ∷ xs) f

unfoldable pub next_revisions : LedgerEvent → List Field → List Field
unfolding differs_from_last
next_revisions e revisions =
    if is_reobserved e.type
      && is_given e.subject_revision
      && differs_from_last revisions e.subject_revision
    then revisions ++ e.subject_revision ∷ []
    else revisions

-- `verification_captured` and `verified_revision` after the event.
unfoldable pub next_verification : LedgerEvent → WorkData → Bool × Field
unfolding is_reobservable_state
next_verification e x =
    if is_text e.to_state "VERIFYING"
    then (true, e.subject_revision)
    else if is_reobservable_state e.to_state
    then (false, null_value)
    else (x.verification_captured, or_null x.verified_revision)

unfoldable pub advance_projection :
    WorkProjection → LedgerEvent → Decision WorkData → WorkProjection
unfolding next_verification next_revisions
advance_projection p e d = record p {
  revision = d.next_projection.revision;
  states = d.next_projection.states;
  extra = record {
    project_id = p.extra.project_id;
    subject_revision =
        if is_reobserved e.type then e.subject_revision else p.extra.subject_revision;
    verification_captured = (next_verification e p.extra).0;
    verified_revision = (next_verification e p.extra).1;
    revisions = next_revisions e p.extra.revisions;
    event_count = p.extra.event_count + 1;
  };
}
