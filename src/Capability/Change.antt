-- ===== src/Capability/Change.antt =====
-- What a call of src/engine/capability-execution-coordinator.mjs does to the tables: nothing, one new
-- row, or one result with its event.
pub mod Rows
use ai_core.Base.{
  ℕ, String, Bool, true, false, Option, none, some, List, [], ◌∷◌, ◌++◌, ◌==◌, ◌≡◌, refl, ap, subst,
  sym, ◌∙◌, arith, inl, inr, eqb, Bool-cases, Option-cases, if◌then◌else◌,
}
use ai_core.Base.Result.{
  Result, ok, err, need, ◌>>=◌, ◌>>◌, >>=-eq-ok, need-eq-ok, ok-subst, Result-cases,
}
use ai_core.Base.Table
use ai_core.Base.Table.{Table}
use ai_core.Json.{Json}
use ai_core.Workflow.Spec.{Workflow}
use ai_core.Workflow.Inspect.{Host}
use ai_core.Workflow.Decide.{Decision, Stamp}
use ai_core.Workflow.Execution.{WorkResult}
use ai_core.Capability.Receipt.{Runtime, safe_receipt}
use ai_core.Capability.Recovery.{Project, Capability, Snapshot, column_of}
use ai_core.Capability.Store.{
  Request, ResultEvent, Db, request_row, insert_request, with_result, update_reserved,
}
use ai_core.Capability.Store.Rows.{request_row-request_id}
use ai_core.Capability.Reserve.{
  CapabilityError, request_missing, result_schema_invalid, Call, Shape, ReceiptReader, the,
  asked_shape, reserved_row, prepared, reserve_in, reserve,
}
use ai_core.Capability.Complete.{
  match_receipt, decided, completed_again, complete_in, complete_row, complete,
}
use ai_core.Capability.Reconcile.{Paths, judge, reconcile}

-- A row as it is inserted.
pub record IsNew (db : Db) (row : Request) (rows : List Request) : Type 0 where
  pub free : request_row row.request_id db.requests ≡ none
  pub inserted : insert_request row db.requests ≡ some rows
  pub reserved : row.state ≡ "RESERVED"
  pub empty : row.result ≡ none

-- A result that is saved with its event.
pub record IsSaved (o : Runtime) (db : Db) (row : Request) (r : WorkResult) (reason : Option String)
    (at : String) (event : ResultEvent) : Type 0 where
  pub found : request_row row.request_id db.requests ≡ some row
  pub waiting : row.state == "RESULT" ≡ false
  pub matched : match_receipt o row r ≡ ok tt
  pub one : (update_reserved row.request_id (with_result "RESULT" r reason at) db.requests).1 ≡ 1
  pub same_id : event.request_id ≡ row.request_id
  pub same_receipt : event.receipt ≡ r

pub data IsChange (o : Runtime) (db : Db) : Db → Type 0 where
  unchanged : IsChange o db db
  new_row :
      (row : Request) (rows : List Request)
      → IsNew db row rows
      → IsChange o db (record db { requests = rows })
  saved_result :
      (row : Request) (r : WorkResult) (reason : Option String) (at : String) (event : ResultEvent)
      → IsSaved o db row r reason at event
      → IsChange o db (record db {
        requests =
            (update_reserved row.request_id (with_result "RESULT" r reason at) db.requests).0;
        events = db.events ++ event ∷ [];
      })
