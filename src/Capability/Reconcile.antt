-- ===== src/Capability/Reconcile.antt =====
-- `reconcile` and `list` of src/engine/capability-execution-coordinator.mjs. `reconcile` reads one
-- state of the tables, waits for the receipts, and completes in a later one.
pub mod Changes
pub mod Verified
use Prim.Native.Char.{Char, code}
use Prim.Native.String
use ai_core.Base.{
  ℕ, String, Bool, true, false, not, ◌&&◌, ◌||◌, Option, none, some, List, [], ◌∷◌, ◌==◌, eqb, keep,
  or_else, same_text, if◌then◌else◌,
}
use ai_core.Base.Field.{is_text}
use ai_core.Base.Result.{Result, ok, err, need, ◌>>=◌, ◌>>◌}
use ai_core.Base.Table
use ai_core.Base.Table.{Table}
use ai_core.Json.{Json, obj, Fields, field_at}
use ai_core.Workflow.Spec.{Workflow}
use ai_core.Workflow.Inspect.{Host}
use ai_core.Workflow.Decide.{Stamp}
use ai_core.Workflow.Execution.{WorkResult}
use ai_core.Capability.Receipt
use ai_core.Capability.Receipt.{Runtime, digest}
use ai_core.Capability.Recovery.{
  Project, Snapshot, Parsed, invalid, missing, snapshot, recovery_binding, parse_snapshot,
}
use ai_core.Capability.Store.{Request, Db, request_row}
use ai_core.Capability.Reserve.{
  CapabilityError, request_missing, order_id_required, reader_failed, Observation, ReceiptReader,
  the, blank_or,
}
use ai_core.Capability.Complete.{Outcome, complete}

-- `relative` and `isAbsolute` of node:path.
pub record Paths : Type 0 where
  pub relative : String → String → String
  pub is_absolute : String → Bool

-- `{status, result | reason, reconciled}`
pub data Reconciliation : Type 0 where
  hold : (reason : String) → Reconciliation
  result : Option WorkResult → Reconciliation

starts_with_dots : String → Bool
starts_with_dots (String.◌∷◌ c (String.◌∷◌ d s)) = eqb (code c) b'.' && eqb (code d) b'.'
starts_with_dots _ = false

-- `rel.replaceAll('\\', '/')`
forward_slashes : String → String
forward_slashes String.[] = String.[]
forward_slashes (String.◌∷◌ c s) =
    String.◌∷◌ (if eqb (code c) 92 then "/" else c) (forward_slashes s)

-- `relativeReceiptRef`
unfoldable pub receipt_ref : Paths → (root path : String) → Option String
unfolding starts_with_dots forward_slashes
receipt_ref p root path =
    let rel = p.relative root path in
    if rel == "" || starts_with_dots rel || p.is_absolute rel
    then none
    else some (forward_slashes rel)

-- `mapped`
unfoldable pub mapped : Observation → String
mapped obs =
    if same_text obs.status (some "SUCCEEDED")
    then "SUCCEEDED"
    else if same_text obs.status (some "FAILED")
    then "FAILED"
    else "HOLD"

summary_of : String → String
summary_of m =
    if m == "SUCCEEDED"
    then "응답 유실 뒤 terminal execution receipt로 성공을 재확인했습니다."
    else if m == "FAILED"
    then "응답 유실 뒤 terminal execution receipt에서 실패를 확인했습니다."
    else "응답 유실 뒤 terminal execution receipt가 HOLD 상태입니다."

next_action_of : String → String
next_action_of m =
    if m == "SUCCEEDED"
    then "정본 상태 전이는 기존 Control Tower/Work Ledger 규칙으로 계속합니다."
    else "terminal receipt 내용을 확인합니다."

text_or : Option String → String → String
text_or none t = t
text_or (some s) t = s

refs : Option String → List String
refs none = []
refs (some ref) = ref ∷ []

measured : Option String → Option String → List String
unfolding text_or
measured none state = []
measured (some ref) state =
    String.◌++◌ "MEASURED:" (String.◌++◌ ref (String.◌++◌ " state=" (text_or state "unknown"))) ∷ []

-- The `result` that `reconcile` completes the request with.
unfoldable pub terminal_result :
    Request → Snapshot → Observation → Option String → (ended_at : String) → WorkResult
unfolding mapped summary_of next_action_of refs measured text_or
terminal_result row s obs ref ended_at =
    let m = mapped obs in
    let succeeded = m == "SUCCEEDED" in
    record {
      schema = some "ai-core-work-result/v1";
      order_id = some row.order_id;
      work_id = some row.work_id;
      project_id = some row.project_id;
      capability_id = some row.capability_id;
      subject_revision = some row.subject_revision;
      mode = s.mode;
      status = some m;
      summary = some (summary_of m);
      artifact_refs = some (refs ref);
      evidence_refs = some (measured ref obs.state);
      checks = some (
          record {
            name = some "execution.receipt.reconcile";
            status = some (if succeeded then "PASS" else "FAIL");
            detail = or_else obs.state obs.reason;
          }
          ∷ []);
      execution = record {
        performed = true;
        external_effect = same_text s.mode (some "EXTERNAL_MUTATION");
        started_at = none;
        ended_at = some ended_at;
        authorization_source = none;
      };
      observed = succeeded;
      blockers = some (if succeeded then [] else text_or obs.reason "EXECUTION_RECEIPT_HOLD" ∷ []);
      next_action = some (next_action_of m);
      walls = some s.walls;
    }

unfoldable pub is_lost : Observation → Bool
is_lost obs =
    same_text obs.status (some "HOLD") && same_text obs.reason (some "EXECUTION_RECEIPT_MISSING")

module _ (o : Runtime) (projects : Table Project) where
  -- The project is registered as it was when the request was reserved.
  unfoldable pub is_same_binding : Request → Snapshot → Bool
  unfolding recovery_binding digest
  is_same_binding row s = elim (recovery_binding o (Table.get row.project_id projects)) [
    | none ↦ false
    | some current ↦
        is_text (field_at "project_id" s.project_binding) row.project_id
        && digest o (obj current) == digest o (obj s.project_binding)
  ]

  unfoldable pub root_of : Snapshot → String
  root_of s = elim (field_at "local_path" s.project_binding) [
    | ai_core.Base.Field.value t ↦ t
    | _ ↦ ""
  ]

  -- What was observed for a row, or the reason to hold.
  pub data Judgement : Type 0 where
    held : (reason : String) → Judgement
    observed : Snapshot → Observation → Judgement

  judge_observation : Snapshot → Observation → Judgement
  unfolding is_lost text_or
  judge_observation s obs =
      if is_lost obs
      then held "EXECUTION_OUTCOME_UNKNOWN"
      else if not obs.identity_verified
      then held (text_or obs.reason "EXECUTION_RECEIPT_IDENTITY_UNVERIFIED")
      else observed s obs

  -- The part of `reconcile` up to the receipt, for a row that has no result.
  unfoldable pub judge : ReceiptReader → Request → Result CapabilityError Judgement
  unfolding is_same_binding judge_observation root_of parse_snapshot
  judge reader row = elim (parse_snapshot o row.before_receipts) [
    | invalid ↦ ok (held "CAPABILITY_RECOVERY_METADATA_INVALID")
    | missing ↦ ok (held "CAPABILITY_RECOVERY_METADATA_MISSING")
    | snapshot s ↦
        if not (is_same_binding row s)
        then ok (held "PROJECT_RECOVERY_BINDING_DRIFT")
        else elim (reader.reconcile (root_of s) s.receipt s.before row.request_id) [
          | none ↦ err reader_failed
          | some obs ↦ ok (judge_observation s obs)
        ]
  ]

  module _ (reader : ReceiptReader) (paths : Paths) (host : Host (Unit {0}) (Unit {0}))
      (workflow : Workflow) where
    saved :
        Db × Result CapabilityError (Option WorkResult) → Db × Result CapabilityError Reconciliation
    saved (db, err e) = (db, err e)
    saved (db, ok r) = (db, ok (result r))

    unfoldable pub observed_ref : Snapshot → Observation → Option String
    unfolding root_of receipt_ref
    observed_ref s obs = elim obs.path [
      | none ↦ none
      | some path ↦ receipt_ref paths (root_of s) path
    ]

    settle :
        (later : Db)
        → Stamp
        → Request
        → Result CapabilityError Judgement
        → Db × Result CapabilityError Reconciliation
    unfolding saved terminal_result observed_ref complete
    settle later stamp row (err e) = (later, err e)
    settle later stamp row (ok (held reason)) = (later, ok (hold reason))
    settle later stamp row (ok (observed s obs)) = saved (
        complete o host workflow later stamp row.request_id
          (some (terminal_result row s obs (observed_ref s obs) stamp.now))
          (some "RECONCILED_FROM_TERMINAL_RECEIPT"))

    -- `reconcile`
    unfoldable pub reconcile :
        (now later : Db)
        → Stamp
        → (request_id : String) → Db × Result CapabilityError Reconciliation
    unfolding judge settle request_row
    reconcile now later stamp id = elim (request_row id now.requests) [
      | none ↦ (later, err request_missing)
      | some row ↦
          if row.state == "RESULT"
          then (later, ok (result row.result))
          else settle later stamp row (judge reader row)
    ]
