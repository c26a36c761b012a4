-- ===== src/Capability/Runs.antt =====
-- The states of the tables that calls of src/engine/capability-execution-coordinator.mjs lead to,
-- in any order, while other code writes the orders and the bindings.
pub mod Once
pub mod Recovered
use ai_core.Base.{
  ℕ, String, Bool, true, false, Option, none, some, List, [], ◌∷◌, ◌++◌, ◌==◌, ◌≡◌, refl, ap, subst,
  sym, ◌∙◌, arith, inl, inr, eqb, Bool-cases, Option-cases, if◌then◌else◌,
}
use ai_core.Base.Result.{
  Result, ok, err, need, ◌>>=◌, ◌>>◌, >>=-eq-ok, need-eq-ok, ok-subst, Result-cases,
}
use ai_core.Base.Table
use ai_core.Base.Table.{Table}
use ai_core.Json.{Json}
use ai_core.Workflow.Spec.{Workflow}
use ai_core.Workflow.Inspect.{Host}
use ai_core.Workflow.Decide.{Decision, Stamp}
use ai_core.Workflow.Execution.{WorkResult}
use ai_core.Capability.Receipt.{Runtime, safe_receipt}
use ai_core.Capability.Recovery.{Project, Capability, Snapshot, column_of}
use ai_core.Capability.Store.{
  Request, ResultEvent, Db, request_row, insert_request, with_result, update_reserved,
}
use ai_core.Capability.Store.Rows.{
  request_row-request_id, request_row-insert_request, request_row-update_reserved, updated,
  updated_row,
}
use ai_core.Capability.Reserve.{
  CapabilityError, request_missing, result_schema_invalid, Call, Shape, ReceiptReader, the,
  asked_shape, reserved_row, prepared, reserve_in, reserve,
}
use ai_core.Capability.Complete.{
  match_receipt, decided, completed_again, complete_in, complete_row, complete,
}
use ai_core.Capability.Reconcile.{Paths, judge, reconcile}
use ai_core.Base.{◌⊎◌, ◌&&◌, eq_iff}
use ai_core.Capability.Change.{IsNew, IsSaved, IsChange, unchanged, new_row, saved_result}
use ai_core.Orders.Spec.{Order}
use ai_core.Capability.Store.{Binding}
use ai_core.Capability.Change.Rows.{IsKept, IsKept-refl, IsKept-trans, HoldsRow, change-HoldsRow}
use ai_core.Capability.Reserve.Changes.{reserve-IsChange}
use ai_core.Capability.Complete.Changes.{complete-IsChange}
use ai_core.Capability.Reconcile.Changes.{reconcile-IsChange}

module _ (o : Runtime) (host : Host (Unit {0}) (Unit {0})) (workflow : Workflow) where
  -- `Runs a b`: calls lead from `a` to `b`. What `reserve` and `reconcile` have read before they wait
  -- is any state of the tables, and the receipts, projects and clocks may differ from call to call.
  pub data Runs (a : Db) : Db → Type 0 where
    no_call : Runs a a
    by_reserve :
        (b : Db) (reader : ReceiptReader) (projects : Table Project) (now : Db) (c : Call)
        (at : String)
        → Runs a b
        → Runs a (reserve o reader projects now b c at).0
    by_complete :
        (b : Db) (stamp : Stamp) (id : String) (result : Option WorkResult) (reason : Option String)
        → Runs a b
        → Runs a (complete o host workflow b stamp id result reason).0
    by_reconcile :
        (b : Db) (projects : Table Project) (reader : ReceiptReader) (paths : Paths) (now : Db)
        (stamp : Stamp) (id : String)
        → Runs a b
        → Runs a (reconcile o projects reader paths host workflow now b stamp id).0
    by_others :
        (b : Db) (orders : Table Order) (bindings : Option (List Binding))
        → Runs a b
        → Runs a (record b { orders = orders; bindings = bindings })

  then_kept :
      (b c : Db) (id : String) (row : Request)
      → IsChange o b c
      → HoldsRow o b id row
      → HoldsRow o c id row
  unfolding HoldsRow
  then_kept b c id row change (row', found, kept) =
      let (row'', later, kept') = change-HoldsRow o b c id row' change found in
      (row'', later, IsKept-trans o row row' row'' kept kept')

  -- Whatever calls are made, a request that is stored stays stored. Its row is unchanged, or it was
  -- reserved and differs only in the state `RESULT`, a result that matches the row, the reason and the
  -- time: no identity ever changes, and a row with a result never changes again.
  pub Runs-HoldsRow :
      (a b : Db) (id : String) (row : Request)
      → Runs a b
      → request_row id a.requests ≡ some row
      → HoldsRow o b id row
  unfolding HoldsRow
  Runs-HoldsRow a b id row no_call h = (row, h, IsKept-refl o row)
  Runs-HoldsRow a b id row (by_reserve b₀ reader projects now c at run) h =
      then_kept b₀ _ id row (reserve-IsChange o reader projects now b₀ c at)
        (Runs-HoldsRow a b₀ id row run h)
  Runs-HoldsRow a b id row (by_complete b₀ stamp i result reason run) h =
      then_kept b₀ _ id row (complete-IsChange o host workflow b₀ stamp i result reason)
        (Runs-HoldsRow a b₀ id row run h)
  Runs-HoldsRow a b id row (by_reconcile b₀ projects reader paths now stamp i run) h =
      then_kept b₀ _ id row
        (reconcile-IsChange o projects reader paths host workflow now b₀ stamp i)
        (Runs-HoldsRow a b₀ id row run h)
  Runs-HoldsRow a b id row (by_others b₀ orders bindings run) h = Runs-HoldsRow a b₀ id row run h
