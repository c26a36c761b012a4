-- ===== src/Ledger.antt =====
-- The shadow of the work ledger (src/workflow/work-ledger-shadow.mjs): events of a work item are
-- checked by the workflow engine and applied to a projection.
mod Examples
pub mod Names
pub mod Events
pub mod Steps
pub mod Counts
use mathlib.Core.List.{get_last?}
use ai_core.Base.{
  ℕ, zero, suc, ◌+◌, String, Bool, true, false, not, ◌&&◌, ◌||◌, Option, none, some, List, [], ◌∷◌,
  ◌++◌, map, ◌==◌, find, includes, is_empty, same_text, if◌then◌else◌,
}
use ai_core.Base.Result.{Result, ok, err, ◌>>=◌}
use ai_core.Base.Field.{
  Field, missing, null_value, value, same_field, field_text, or_null, is_given, is_text,
}
use ai_core.Json.{Json, null, str, arr, obj, nil, cons, end, field, Items, Fields}
use ai_core.Workflow.Spec.{Guard, Transition, Workflow, Projection, Context, absent}
use ai_core.Workflow.Inspect.{
  Reason, Thrown, transition_unknown, transition_guard_rejected, type_error, Inspection, Host,
  inspect_transition,
}
use ai_core.Workflow.Decide.{Decision, Request, Stamp, decide, find_transition}
use ai_core.Ledger.Names.{reobserve_id, move_id, is_revision_text}
use ai_core.Ledger.Events.{
  Adjudication, Applied, EventType, LedgerEvent, LedgerInspection, WorkData, WorkProjection,
  blocked, cancelled, captured, create_from_state_invalid, create_to_state_invalid, created,
  engine_decision_rejected, has_evidence, inspection_reason, is_reobserved, ledger_event_required,
  ledger_event_type_invalid, other, project_of, reject, reobserved, resumed, subject_of,
  transition_id_for, transition_not_allowed, transitioned, valid_revision, verified_of,
  work_already_created, work_id_mismatch, work_not_created,
}
use ai_core.Ledger.Steps.{
  advance_projection, create_projection, engine_request, event_context, inspect_created,
  ledger_host,
}

module _ (sha256_json : Json → String) (workflow : Workflow) where
  -- `engine.inspectTransition(projection, transition_id, { event })` and what is made of it
  unfoldable pub inspect_known :
      WorkProjection → LedgerEvent → String → Result Thrown LedgerInspection
  unfolding ledger_host inspect_transition find_transition
  inspect_known p e id = elim (find_transition workflow id) [
    | none ↦ ok (record {
      eligible = false;
      reasons = transition_not_allowed ∷ [];
      transition_id = some id;
    })
    | some t ↦ do
      i ← inspect_transition (ledger_host sha256_json) workflow (some p) t (event_context e)
      ok (record {
        eligible = i.eligible;
        reasons = map inspection_reason i.reasons;
        transition_id = some id;
      })
  ]

  unfoldable pub inspect_existing :
      Option WorkProjection → LedgerEvent → Result Thrown LedgerInspection
  unfolding inspect_known transition_id_for
  inspect_existing none e = ok (reject work_not_created)
  inspect_existing (some p) e =
      if not (same_text (some e.work_id) p.entity_id)
      then ok (reject work_id_mismatch)
      else elim (transition_id_for e) [
        | none ↦ ok (reject transition_not_allowed)
        | some id ↦ inspect_known p e id
      ]

  inspect_typed : EventType → Option WorkProjection → LedgerEvent → Result Thrown LedgerInspection
  unfolding inspect_created inspect_existing
  inspect_typed created p e = ok (inspect_created p e)
  inspect_typed (other _) p e = ok (reject ledger_event_type_invalid)
  inspect_typed _ p e = inspect_existing p e

  -- `inspect`; `none` is an event that is no object.
  unfoldable pub inspect :
      Option WorkProjection → Option LedgerEvent → Result Thrown LedgerInspection
  unfolding inspect_typed
  inspect p none = ok (reject ledger_event_required)
  inspect p (some e) = inspect_typed e.type p e

  rejected_by : LedgerInspection → Adjudication
  rejected_by i = record { accepted = false; inspection = i; decision = none }

  -- The `catch` of `decide`: a `WorkflowError` is a rejection, a `TypeError` goes on.
  engine_rejection : LedgerInspection → Thrown → Result Thrown Adjudication
  unfolding rejected_by
  engine_rejection i type_error = err type_error
  engine_rejection i (transition_guard_rejected reasons) =
      ok (rejected_by (record i { eligible = false; reasons = map inspection_reason reasons }))
  engine_rejection i e =
      ok (rejected_by (record i { eligible = false; reasons = engine_decision_rejected e ∷ [] }))

  decided : LedgerInspection → Result Thrown (Decision WorkData) → Result Thrown Adjudication
  unfolding engine_rejection
  decided i (ok d) = ok (record { accepted = true; inspection = i; decision = some d })
  decided i (err e) = engine_rejection i e

  -- `workflow.transitions.find(item => item.transition_id === id)`
  find_first : Option String → Option Transition
  find_first id =
      find (λ (t : Transition). same_text (some t.transition_id) id) workflow.transitions

  adjudicate_existing :
      Stamp → Option WorkProjection → LedgerEvent → LedgerInspection → Result Thrown Adjudication
  unfolding decided find_first engine_request ledger_host rejected_by
  adjudicate_existing stamp none e i = ok (rejected_by i)
  adjudicate_existing stamp (some p) e i = elim (find_first i.transition_id) [
    | none ↦ ok (rejected_by (record i { eligible = false; reasons = transition_not_allowed ∷ [] }))
    | some t ↦ decided i (decide (ledger_host sha256_json) workflow stamp (engine_request p e t))
  ]

  adjudicate_typed :
      EventType
      → Stamp
      → Option WorkProjection
      → LedgerEvent
      → LedgerInspection
      → Result Thrown Adjudication
  unfolding adjudicate_existing
  adjudicate_typed created stamp p e i =
      ok (record { accepted = true; inspection = i; decision = none })
  adjudicate_typed _ stamp p e i = adjudicate_existing stamp p e i

  -- `decide`
  unfoldable pub adjudicate :
      Stamp → Option WorkProjection → LedgerEvent → Result Thrown Adjudication
  unfolding adjudicate_typed inspect rejected_by
  adjudicate stamp p e = do
    i ← inspect p (some e)
    if i.eligible then adjudicate_typed e.type stamp p e i else ok (rejected_by i)

  applied_to : Option WorkProjection → LedgerEvent → Adjudication → Option WorkProjection
  unfolding create_projection advance_projection
  applied_to none e a = some (create_projection e)
  applied_to (some p) e a = elim a.decision [
    | none ↦ some (create_projection e)
    | some d ↦ some (advance_projection p e d)
  ]

  -- `apply`
  unfoldable pub apply : Stamp → Option WorkProjection → LedgerEvent → Result Thrown Applied
  unfolding adjudicate applied_to
  apply stamp p e = do
    a ← adjudicate stamp p e
    ok (record {
      accepted = a.accepted;
      inspection = a.inspection;
      projection = if a.accepted then applied_to p e a else p;
    })

  pub data Replayed : Type 0 where
    valid : Option WorkProjection → Replayed
    invalid : (index : ℕ) → LedgerEvent → LedgerInspection → Option WorkProjection → Replayed

  -- The loop of `replay`. Each event has a stamp of its own; replay keeps nothing of the stamps.
  unfoldable pub replay_from :
      ℕ → Option WorkProjection → List (Stamp × LedgerEvent) → Result Thrown Replayed
  unfolding apply
  replay_from index p [] = ok (valid p)
  replay_from index p ((stamp, e) ∷ events) = do
    a ← apply stamp p e
    let rest = replay_from (index + 1) a.projection events
    if a.accepted then rest else ok (invalid index e a.inspection p)

  unfoldable pub replay : List (Stamp × LedgerEvent) → Result Thrown Replayed
  unfolding replay_from
  replay events = replay_from 0 none events
