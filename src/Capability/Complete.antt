-- ===== src/Capability/Complete.antt =====
-- `complete` and `reconcile` of src/engine/capability-execution-coordinator.mjs. `complete` runs to
-- its end without a wait; `reconcile` waits for the receipts and completes in a later state.
pub mod Changes
pub mod Replays
pub mod Failures
use Prim.Native.Char.{Char, code}
use Prim.Native.String
use ai_core.Base.{
  ℕ, suc, String, Bool, true, false, not, ◌&&◌, ◌||◌, Option, none, some, List, [], ◌∷◌, ◌++◌, ◌==◌,
  eqb, is_some, or_else, same_text, if◌then◌else◌,
}
use ai_core.Base.Field.{field_text}
use ai_core.Base.Result.{Result, ok, err, need, ◌>>=◌, ◌>>◌}
use ai_core.Base.Table
use ai_core.Base.Table.{Table}
use ai_core.Json.{Json, null, bool, str, obj, Fields, field_at}
use ai_core.Orders.Spec.{Order}
use ai_core.Workflow.Spec.{Workflow, absent}
use ai_core.Workflow.Inspect.{Host}
use ai_core.Workflow.Decide.{Decision, Request, Stamp, decide}
use ai_core.Workflow.Execution.{WorkResult}
use ai_core.Capability.Receipt.{Runtime, digest, safe_receipt, receipt_json}
use ai_core.Capability.Recovery.{
  Project, Snapshot, Parsed, invalid, missing, snapshot, recovery_binding, parse_snapshot,
}
use ai_core.Capability.Store
use ai_core.Capability.Store.{ResultEvent, Db, request_row, with_result, update_reserved}
use ai_core.Capability.Reserve.{
  CapabilityError, order_not_found, request_missing, result_schema_invalid, result_context_mismatch,
  result_capability_mismatch, result_revision_stale, result_conflict, workflow_target_invalid,
  state_changed, engine_error, reader_failed, Observation, ReceiptReader, the, blank_or,
}

status_json : Option String → Json
status_json none = null
status_json (some s) = str s

-- A state of the tables with what the call returns.
abbrev pub Outcome : Type 0 → Type 0
Outcome A = Db × Result CapabilityError A

module _ (o : Runtime) where
  -- The comparisons of a receipt with the row it is for.
  unfoldable pub match_receipt : Store.Request → WorkResult → Result CapabilityError (Unit {0})
  match_receipt row r = do
    need (same_text r.order_id (some row.order_id) && same_text r.work_id (some row.work_id))
        result_context_mismatch
    need
        (same_text r.capability_id (some row.capability_id)
          && same_text r.project_id (some row.project_id))
        result_capability_mismatch
    need (same_text r.subject_revision (some row.subject_revision)) result_revision_stale

  -- `digest(rowReceipt(row))`
  stored_digest : Option WorkResult → String
  unfolding digest receipt_json
  stored_digest none = digest o null
  stored_digest (some r) = digest o (receipt_json r)

  -- A completion of a row that has its result.
  unfoldable pub completed_again :
      Store.Request → WorkResult → Result CapabilityError (Option WorkResult)
  unfolding stored_digest digest
  completed_again row r =
      if stored_digest row.result == digest o (receipt_json r)
      then ok row.result
      else err result_conflict

  module _ (host : Host (Unit {0}) (Unit {0})) (workflow : Workflow) where
    -- `executionEngine.decide({…})`
    unfoldable pub completion_request :
        Store.Request → WorkResult → (reconciled : Bool) → Request (Unit {0}) (Unit {0})
    unfolding status_json receipt_json
    completion_request row r reconciled = record {
      projection = some (record {
        entity_id = some row.request_id;
        revision = 0;
        states = ("lifecycle", row.state) ∷ [];
        updated_at = none;
        extra = tt;
      });
      transition_id =
          if reconciled
          then "capability-execution.reconcile-terminal"
          else "capability-execution.complete";
      command_id =
          if reconciled then "capability-execution.reconcile" else "capability-execution.complete";
      command_payload = receipt_json r;
      actor = some "ai-core-capability";
      reason = none;
      permissions = [];
      facts =
          ("execution.result_schema_valid", bool true)
          ∷ ("execution.result_context_matches", bool true)
          ∷ ("execution.result_capability_matches", bool true)
          ∷ ("execution.result_revision_matches", bool true)
          ∷ ("execution.result_status", status_json r.status)
          ∷ [];
      evidence = absent;
      approvals = [];
      guard_context = tt;
      expected_revision = some 0;
      idempotency_key = some row.request_id;
      request_id = none;
      history = [];
      override = false;
    }

    -- The decision of the engine, which must lead to `RESULT`.
    unfoldable pub decided :
        Stamp → Store.Request → WorkResult → Bool → Result CapabilityError (Decision (Unit {0}))
    unfolding completion_request
    decided stamp row r reconciled =
        elim (decide host workflow stamp (completion_request row r reconciled)) [
          | err e ↦ err (engine_error e)
          | ok d ↦
              if same_text (Table.get "lifecycle" d.next_projection.states) (some "RESULT")
              then ok d
              else err workflow_target_invalid
        ]

    result_event : Stamp → Store.Request → WorkResult → Decision (Unit {0}) → Order → ResultEvent
    result_event stamp row r d order = record {
      order_id = row.order_id;
      request_id = row.request_id;
      at = stamp.now;
      version = order.version;
      revision = row.requirement_revision;
      workflow_id = workflow.workflow_id;
      workflow_version = workflow.version;
      transition_id = d.event.change.transition_id;
      event_type = d.event.event_type;
      work_id = row.work_id;
      capability_id = row.capability_id;
      project_id = row.project_id;
      subject_revision = row.subject_revision;
      receipt = r;
    }

    unfoldable pub result_of : Option Store.Request → Option WorkResult
    result_of none = none
    result_of (some row) = row.result

    -- The event is written, for an order that is there.
    committed :
        Db
        → Stamp
        → Store.Request
        → WorkResult
        → Decision (Unit {0})
        → List Store.Request
        → Outcome (Option WorkResult)
    unfolding result_event result_of request_row
    committed db stamp row r d rows = elim (Table.get row.order_id db.orders) [
      | none ↦ (record db { requests = rows }, err order_not_found)
      | some order ↦ (
        record db { requests = rows; events = db.events ++ result_event stamp row r d order ∷ [] },
        ok (result_of (request_row row.request_id rows)),
      )
    ]

    -- `COMMIT`, or `ROLLBACK` to the tables of `BEGIN` and the error again.
    concluded : {A : Type 0} → (begun : Db) → Outcome A → Outcome A
    concluded begun (db, ok v) = (db, ok v)
    concluded begun (db, err e) = (begun, err e)

    -- What the transaction of `complete` does to the tables, for a row that has no result, up to the
    -- point where it throws. The state that is written is `RESULT`, as `decided` has checked.
    unfoldable pub complete_body :
        Db
        → Stamp
        → Store.Request
        → WorkResult
        → Option String
        → Decision (Unit {0})
        → Outcome (Option WorkResult)
    unfolding committed update_reserved
    complete_body db stamp row r reason d =
        let (rows, changes) =
          update_reserved row.request_id (with_result "RESULT" r reason stamp.now) db.requests in
        if eqb changes 1
        then committed db stamp row r d rows
        else (record db { requests = rows }, err state_changed)

    -- The transaction of `complete`.
    unfoldable pub complete_in :
        Db
        → Stamp
        → Store.Request
        → WorkResult
        → Option String
        → Decision (Unit {0})
        → Outcome (Option WorkResult)
    unfolding complete_body concluded
    complete_in db stamp row r reason d = concluded db (complete_body db stamp row r reason d)

    is_reconciled : Option String → Bool
    is_reconciled reason = same_text reason (some "RECONCILED_FROM_TERMINAL_RECEIPT")

    -- `complete` for a row and a receipt that match.
    unfoldable pub complete_row :
        Db → Stamp → Store.Request → WorkResult → Option String → Outcome (Option WorkResult)
    unfolding completed_again decided complete_in is_reconciled
    complete_row db stamp row r reason =
        if row.state == "RESULT"
        then (db, completed_again row r)
        else elim (decided stamp row r (is_reconciled reason)) [
          | err e ↦ (db, err e)
          | ok d ↦ complete_in db stamp row r reason d
        ]

    unfoldable pub matched_row :
        Db → String → Option WorkResult → Result CapabilityError (Store.Request × WorkResult)
    unfolding match_receipt safe_receipt request_row
    matched_row db id result = do
      row ← the (request_row id db.requests) request_missing
      r ← the (safe_receipt o result) result_schema_invalid
      match_receipt row r
      ok (row, r)

    -- `complete`
    unfoldable pub complete :
        Db
        → Stamp
        → (request_id : String) → Option WorkResult
        → (reason : Option String) → Outcome (Option WorkResult)
    unfolding matched_row complete_row
    complete db stamp id result reason = elim (matched_row db id result) [
      | err e ↦ (db, err e)
      | ok (row, r) ↦ complete_row db stamp row r reason
    ]
