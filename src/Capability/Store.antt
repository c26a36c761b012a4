-- ===== src/Capability/Store.antt =====
-- The tables that src/engine/capability-execution-coordinator.mjs reads and writes.
pub mod Rows
use ai_core.Base.{
  ℕ, suc, String, Bool, true, false, ◌&&◌, Option, none, some, List, [], ◌∷◌, ◌++◌, ◌==◌, eqb, find,
  if◌then◌else◌,
}
use ai_core.Base.Table.{Table}
use ai_core.Orders.Spec.{Order}
use ai_core.Workflow.Execution.{WorkResult}
use ai_core.Capability.Recovery.{Column}

-- A row of `capability_execution_requests`; `result` is the value that `result_json` is the text of.
pub record Request : Type 0 where
  pub request_id : String
  pub order_id : String
  pub requirement_revision : ℕ
  pub work_id : String
  pub capability_id : String
  pub project_id : String
  pub subject_revision : String
  pub payload_digest : String
  pub input_digest : String
  pub perform : Bool
  pub before_receipts : Column
  pub state : String
  pub result : Option WorkResult
  pub reason : Option String
  pub created_at : String
  pub updated_at : String

-- A row of `coordination_bindings`.
pub record Binding : Type 0 where
  pub order_id : String
  pub requirement_revision : ℕ
  pub work_id : String
  pub project_id : String
  pub subject_revision : String

-- The event `CAPABILITY_RESULT`, with the fields of its `detail` that the receipt does not hold.
pub record ResultEvent : Type 0 where
  pub order_id : String
  pub request_id : String
  pub at : String
  pub version : ℕ
  pub revision : ℕ
  pub workflow_id : String
  pub workflow_version : String
  pub transition_id : String
  pub event_type : String
  pub work_id : String
  pub capability_id : String
  pub project_id : String
  pub subject_revision : String
  pub receipt : WorkResult

-- `bindings` is `none` where there is no such table.
pub record Db : Type 0 where
  pub requests : List Request
  pub bindings : Option (List Binding)
  pub orders : Table Order
  pub events : List ResultEvent

-- `getRow`
unfoldable pub request_row : String → List Request → Option Request
request_row id [] = none
request_row id (r ∷ rs) = if r.request_id == id then some r else request_row id rs

-- `INSERT`; the primary key refuses a second row of the same id.
unfoldable pub insert_request : Request → List Request → Option (List Request)
insert_request r [] = some (r ∷ [])
insert_request r (x ∷ rs) =
    if x.request_id == r.request_id
    then none
    else elim (insert_request r rs) [ none ↦ none | some more ↦ some (x ∷ more) ]

-- What `UPDATE … SET state=?,result_json=?,reason=?,updated_at=?` makes of a row.
unfoldable pub with_result : String → WorkResult → Option String → String → Request → Request
with_result state receipt reason at r = record r {
  state = state;
  result = some receipt;
  reason = reason;
  updated_at = at;
}

-- `UPDATE … WHERE request_id=? AND state='RESERVED'`, with the number of rows that it changes
unfoldable pub update_reserved : String → (Request → Request) → List Request → List Request × ℕ
update_reserved id f [] = ([], 0)
update_reserved id f (r ∷ rs) =
    let (rest, n) = update_reserved id f rs in
    if r.request_id == id && r.state == "RESERVED" then (f r ∷ rest, suc n) else (r ∷ rest, n)
