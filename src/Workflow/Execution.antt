-- ===== src/Workflow/Execution.antt =====
-- src/workflow/capability-execution-shadow.mjs: the completion of a reserved execution, and what a
-- reconciliation makes of a terminal receipt. Texts of a result are taken as texts already (the
-- source's `String(…)`), `cut` stands for `slice`, and `relative_ref` for the path of a receipt in
-- the project, which node:path computes.
mod Examples
pub mod Matching
use Prim.Native.String
use ai_core.Base.{
  ℕ, String, Bool, true, false, not, ◌&&◌, ◌||◌, Option, none, some, List, [], ◌∷◌, map, ◌==◌,
  every, same_text, or_else, if◌then◌else◌,
}
use ai_core.Base.Result.{Result, ok, err}
use ai_core.Base.Table
use ai_core.Base.Table.{Table}
use ai_core.Json.{Json, null, bool, str}
use ai_core.Workflow.Spec.{Workflow, Projection, absent}
use ai_core.Workflow.Inspect.{Thrown, type_error, Host}
use ai_core.Workflow.Decide.{Decision, Request, Stamp, decide}

pub record CheckItem : Type 0 where
  pub name : Option String
  pub status : Option String
  pub detail : Option String

pub record Execution : Type 0 where
  pub performed : Bool
  pub external_effect : Bool
  pub started_at : Option String
  pub ended_at : Option String
  pub authorization_source : Option String

-- A work result as an executor hands it in; a list that is `none` is missing.
pub record WorkResult : Type 0 where
  pub schema : Option String
  pub order_id : Option String
  pub work_id : Option String
  pub project_id : Option String
  pub capability_id : Option String
  pub subject_revision : Option String
  pub mode : Option String
  pub status : Option String
  pub summary : Option String
  pub artifact_refs : Option (List String)
  pub evidence_refs : Option (List String)
  pub checks : Option (List CheckItem)
  pub execution : Execution
  pub observed : Bool  -- outcome.observed
  pub blockers : Option (List String)
  pub next_action : Option String
  pub walls : Option (List String)

-- The row of a reserved execution. `result` is the parsed `result_json`.
pub record Row : Type 0 where
  pub request_id : Option String
  pub version : Option ℕ
  pub state : String
  pub order_id : Option String
  pub requirement_revision : Option ℕ
  pub work_id : Option String
  pub capability_id : Option String
  pub project_id : Option String
  pub subject_revision : Option String
  pub payload_digest : Option String
  pub input_digest : Option String
  pub perform : Bool
  pub result : Option WorkResult

-- The fields of `projection` beside the engine's.
pub record ExecutionData : Type 0 where
  pub order_id : Option String
  pub requirement_revision : Option ℕ
  pub work_id : Option String
  pub capability_id : Option String
  pub project_id : Option String
  pub subject_revision : Option String
  pub payload_digest : Option String
  pub input_digest : Option String
  pub perform : Bool

pub data Code : Type 0 where
  request_missing result_conflict schema_invalid context_mismatch capability_mismatch : Code
  revision_stale : Code
  engine_error : Thrown → Code

pub data Completion : Type 0 where
  refused : Code → Completion
  replayed : (prior : Option WorkResult) → Completion
  completed : (receipt : WorkResult) (decision : Decision ExecutionData) → Completion

listed : {A : Type 0} → Option (List A) → List A
listed none = []
listed (some xs) = xs

version_of : Option ℕ → ℕ
version_of none = 1
version_of (some n) = n

-- `?? ''`
text_of : Option String → String
text_of none = ""
text_of (some s) = s

-- What is called and not defined here: `slice` on texts, `trim`, and the comparison of digests.
pub record Outside : Type 0 where
  pub cut : ℕ → String → String
  pub is_trimmed : String → Bool  -- value.trim() === value
  pub same_digest : Option WorkResult → WorkResult → Bool
  pub payload : WorkResult → Json

module _ (o : Outside) where
  -- `nonempty`
  is_nonempty : String → Bool
  is_nonempty s = o.is_trimmed s && not (s == "")

  cut_check : CheckItem → CheckItem
  unfolding text_of
  cut_check c = record {
    name = some (text_of c.name);
    status = some (text_of c.status);
    detail = elim c.detail [ none ↦ none | some d ↦ some (o.cut 2000 d) ];
  }

  receipt_of : WorkResult → WorkResult
  unfolding listed text_of cut_check
  receipt_of r = record {
    schema = r.schema;
    order_id = r.order_id;
    work_id = r.work_id;
    project_id = r.project_id;
    capability_id = r.capability_id;
    subject_revision = r.subject_revision;
    mode = r.mode;
    status = r.status;
    summary = some (o.cut 4000 (text_of r.summary));
    artifact_refs = some (listed r.artifact_refs);
    evidence_refs = some (listed r.evidence_refs);
    checks = some (map cut_check (listed r.checks));
    execution = r.execution;
    observed = r.observed;
    blockers = some (listed r.blockers);
    next_action = elim r.next_action [ none ↦ none | some s ↦ some (o.cut 4000 s) ];
    walls = some (listed r.walls);
  }

  -- `safeReceipt`
  unfoldable pub safe_receipt : Option WorkResult → Option WorkResult
  unfolding receipt_of is_nonempty listed
  safe_receipt none = none
  safe_receipt (some r) =
      if same_text r.schema (some "ai-core-work-result/v1")
        && every is_nonempty (listed r.evidence_refs)
      then some (receipt_of r)
      else none

  -- `projection`
  unfoldable pub execution_projection : Row → Projection ExecutionData
  unfolding version_of
  execution_projection row = record {
    entity_id = row.request_id;
    revision = version_of row.version;
    states = ("lifecycle", row.state) ∷ [];
    updated_at = none;
    extra = record {
      order_id = row.order_id;
      requirement_revision = row.requirement_revision;
      work_id = row.work_id;
      capability_id = row.capability_id;
      project_id = row.project_id;
      subject_revision = row.subject_revision;
      payload_digest = row.payload_digest;
      input_digest = row.input_digest;
      perform = row.perform;
    };
  }

  abbrev pub same_context : Row → WorkResult → Bool
  same_context row r = same_text r.order_id row.order_id && same_text r.work_id row.work_id

  abbrev pub same_capability : Row → WorkResult → Bool
  same_capability row r =
      same_text r.capability_id row.capability_id && same_text r.project_id row.project_id

  abbrev pub same_revision : Row → WorkResult → Bool
  same_revision row r = same_text r.subject_revision row.subject_revision

  status_json : Option String → Json
  status_json none = null
  status_json (some s) = str s

  -- `facts` for a receipt that is there
  unfoldable pub execution_facts : Row → WorkResult → Table Json
  unfolding status_json
  execution_facts row r =
      ("execution.result_schema_valid", bool true)
      ∷ ("execution.result_context_matches", bool (same_context row r))
      ∷ ("execution.result_capability_matches", bool (same_capability row r))
      ∷ ("execution.result_revision_matches", bool (same_revision row r))
      ∷ ("execution.result_status", status_json r.status)
      ∷ []

  -- The request of `decideComplete`.
  unfoldable pub complete_request :
      Row → WorkResult → Option String → Bool → Request (Unit {0}) ExecutionData
  unfolding execution_projection execution_facts version_of
  complete_request row r request_id reconciliation = record {
    projection = some (execution_projection row);
    transition_id =
        if reconciliation
        then "capability-execution.reconcile-terminal"
        else "capability-execution.complete";
    command_id =
        if reconciliation
        then "capability-execution.reconcile"
        else "capability-execution.complete";
    command_payload = o.payload r;
    actor = some "ai-core-capability";
    reason = none;
    permissions = [];
    facts = execution_facts row r;
    evidence = absent;
    approvals = [];
    guard_context = tt;
    expected_revision = some (version_of row.version);
    idempotency_key = request_id;
    request_id = none;
    history = [];
    override = false;
  }

  -- The `catch` of `decideComplete`.
  unfoldable pub completion_of :
      WorkResult → Result Thrown (Decision ExecutionData) → Result Thrown Completion
  completion_of r (ok d) = ok (completed r d)
  completion_of r (err type_error) = err type_error
  completion_of r (err e) = ok (refused (engine_error e))

  -- `decideComplete` on a row in the state `RESULT`.
  unfoldable pub complete_again : Row → Option WorkResult → Completion
  complete_again row none = refused result_conflict
  complete_again row (some r) =
      if o.same_digest row.result r then replayed row.result else refused result_conflict

  module _ (host : Host (Unit {0}) ExecutionData) (workflow : Workflow) where
    -- The part of `decideComplete` for a row that has no result yet.
    unfoldable pub complete_open :
        Stamp → Row → Option WorkResult → Option String → Bool → Result Thrown Completion
    unfolding complete_request completion_of
    complete_open stamp row none request_id reconciliation = ok (refused schema_invalid)
    complete_open stamp row (some r) request_id reconciliation =
        if not (same_context row r)
        then ok (refused context_mismatch)
        else if not (same_capability row r)
        then ok (refused capability_mismatch)
        else if not (same_revision row r)
        then ok (refused revision_stale)
        else completion_of r
            (decide host workflow stamp (complete_request row r request_id reconciliation))

    -- `decideComplete`; `requestId` is the row's unless the caller names one.
    unfoldable pub decide_complete :
        Stamp → Option Row → Option WorkResult → Option String → Bool → Result Thrown Completion
    unfolding safe_receipt complete_again complete_open
    decide_complete stamp none result request_id reconciliation = ok (refused request_missing)
    decide_complete stamp (some row) result request_id reconciliation =
        if row.state == "RESULT"
        then ok (complete_again row (safe_receipt result))
        else complete_open stamp row (safe_receipt result) (or_else request_id row.request_id)
            reconciliation

pub record CapabilityEntry : Type 0 where
  pub has_receipt : Bool  -- Boolean(capability.receipt)
  pub mode : Option String
  pub walls : Option (List String)

-- What was observed of a terminal receipt. `ref` is its path in the project, where it has one.
pub record Observed : Type 0 where
  pub status : Option String
  pub reason : Option String
  pub state : Option String
  pub ref : Option String

pub data Reconciliation : Type 0 where
  request_lost : Reconciliation
  replay_result : Option WorkResult → Reconciliation
  hold_no_transition : Reconciliation
  persist_terminal_result : (mapped : String) → WorkResult → Reconciliation

observed_status : Option Observed → Option String
observed_status none = none
observed_status (some o) = o.status

observed_reason : Option Observed → Option String
observed_reason none = none
observed_reason (some o) = o.reason

observed_state : Option Observed → Option String
observed_state none = none
observed_state (some o) = o.state

observed_ref : Option Observed → Option String
observed_ref none = none
observed_ref (some o) = o.ref

unfoldable pub mapped_status : Option Observed → String
unfolding observed_status
mapped_status o =
    if same_text (observed_status o) (some "SUCCEEDED")
    then "SUCCEEDED"
    else if same_text (observed_status o) (some "FAILED")
    then "FAILED"
    else "HOLD"

summary_of : String → String
summary_of mapped =
    if mapped == "SUCCEEDED"
    then "응답 유실 뒤 terminal execution receipt로 성공을 재확인했습니다."
    else if mapped == "FAILED"
    then "응답 유실 뒤 terminal execution receipt에서 실패를 확인했습니다."
    else "응답 유실 뒤 terminal execution receipt가 HOLD 상태입니다."

or_text : Option String → String → String
or_text none s = s
or_text (some t) s = t

evidence_of : Option String → Option String → List String
unfolding or_text
evidence_of none state = []
evidence_of (some ref) state =
    String.◌++◌ "MEASURED:" (String.◌++◌ ref (String.◌++◌ " state=" (or_text state "unknown"))) ∷ []

refs_of : Option String → List String
refs_of none = []
refs_of (some ref) = ref ∷ []

-- The `result` that a reconciliation builds.
unfoldable pub reconciled_result :
    Row → CapabilityEntry → Option Observed → (ended_at : String) → WorkResult
unfolding mapped_status summary_of evidence_of refs_of or_text observed_reason observed_state
    observed_ref listed
reconciled_result row c o ended_at =
    let mapped = mapped_status o in
    let succeeded = mapped == "SUCCEEDED" in
    record {
      schema = some "ai-core-work-result/v1";
      order_id = row.order_id;
      work_id = row.work_id;
      project_id = row.project_id;
      capability_id = row.capability_id;
      subject_revision = row.subject_revision;
      mode = c.mode;
      status = some mapped;
      summary = some (summary_of mapped);
      artifact_refs = some (refs_of (observed_ref o));
      evidence_refs = some (evidence_of (observed_ref o) (observed_state o));
      checks = some (
          record {
            name = some "execution.receipt.reconcile";
            status = some (if succeeded then "PASS" else "FAIL");
            detail = or_else (observed_state o) (observed_reason o);
          }
          ∷ []);
      execution = record {
        performed = true;
        external_effect = same_text c.mode (some "EXTERNAL_MUTATION");
        started_at = none;
        ended_at = some ended_at;
        authorization_source = none;
      };
      observed = succeeded;
      blockers =
          some
            (if succeeded then [] else or_text (observed_reason o) "EXECUTION_RECEIPT_HOLD" ∷ []);
      next_action = some (
          if succeeded
          then "정본 상태 전이는 기존 Control Tower/Work Ledger 규칙으로 계속합니다."
          else "terminal receipt 내용을 확인합니다.");
      walls = some (listed c.walls);
    }

is_receipt_missing : Option Observed → Bool
unfolding observed_status observed_reason
is_receipt_missing o =
    same_text (observed_status o) (some "HOLD")
    && same_text (observed_reason o) (some "EXECUTION_RECEIPT_MISSING")

reconcile_open : Row → Option CapabilityEntry → Option Observed → String → Reconciliation
unfolding is_receipt_missing reconciled_result mapped_status
reconcile_open row none o ended_at = hold_no_transition
reconcile_open row (some c) o ended_at =
    if not c.has_receipt || is_receipt_missing o
    then hold_no_transition
    else persist_terminal_result (mapped_status o) (reconciled_result row c o ended_at)

-- `classifyReconciliation`; `ended_at` is what the clock gives.
unfoldable pub classify_reconciliation :
    Option Row → Option CapabilityEntry → Option Observed → (ended_at : String) → Reconciliation
unfolding reconcile_open
classify_reconciliation none c o ended_at = request_lost
classify_reconciliation (some row) c o ended_at =
    if row.state == "RESULT" then replay_result row.result else reconcile_open row c o ended_at
