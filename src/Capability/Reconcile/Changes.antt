-- ===== src/Capability/Reconcile/Changes.antt =====
-- What `reconcile` of src/engine/capability-execution-coordinator.mjs does to the tables.
use ai_core.Base.{
  String, Option, some, ◌==◌, ◌≡◌, refl, subst, sym, inl, inr, Bool-cases, Option-cases,
}
use ai_core.Base.Result.{Result, ok, err}
use ai_core.Base.Table.{Table}
use ai_core.Workflow.Spec.{Workflow}
use ai_core.Workflow.Inspect.{Host}
use ai_core.Workflow.Decide.{Stamp}
use ai_core.Workflow.Execution.{WorkResult}
use ai_core.Capability.Receipt.{Runtime}
use ai_core.Capability.Recovery.{Project}
use ai_core.Capability.Store.{Request, Db, request_row}
use ai_core.Capability.Reserve.{CapabilityError, ReceiptReader}
use ai_core.Capability.Complete.{complete}
use ai_core.Capability.Reconcile.{
  Paths, Judgement, held, observed, judge, reconcile, settle, saved, observed_ref, terminal_result,
}
use ai_core.Capability.Complete.Changes.{complete-IsChange}
use ai_core.Capability.Change.{IsChange, unchanged}

module _ (o : Runtime) (projects : Table Project) (reader : ReceiptReader) (paths : Paths)
    (host : Host (Unit {0}) (Unit {0})) (workflow : Workflow) where
  saved_db :
      (out : Db × Result CapabilityError (Option WorkResult))
      → (saved o projects reader paths host workflow out).0 ≡ out.0
  unfolding saved
  saved_db (db, ok r) = refl
  saved_db (db, err e) = refl

  settle-IsChange :
      (later : Db) (stamp : Stamp) (row : Request)
      (j : Result CapabilityError (Judgement o projects))
      → IsChange o later (settle o projects reader paths host workflow later stamp row j).0
  unfolding settle
  settle-IsChange later stamp row (err e) = unchanged
  settle-IsChange later stamp row (ok (held reason)) = unchanged
  settle-IsChange later stamp row (ok (observed s obs)) =
      let result =
        terminal_result row s obs (observed_ref o projects reader paths host workflow s obs)
          stamp.now in
      subst (IsChange o later)
        (sym (
          saved_db (
            complete o host workflow later stamp row.request_id (some result)
              (some "RECONCILED_FROM_TERMINAL_RECEIPT"))))
        (complete-IsChange o host workflow later stamp row.request_id (some result)
          (some "RECONCILED_FROM_TERMINAL_RECEIPT"))

  pub reconcile-IsChange :
      (now later : Db) (stamp : Stamp) (id : String)
      → IsChange o later (reconcile o projects reader paths host workflow now later stamp id).0
  unfolding reconcile
  reconcile-IsChange now later stamp id = elim (Option-cases (request_row id now.requests)) [
    | inl e ↦ rw (e, reconcile) unchanged
    | inr (row, e) ↦ elim (Bool-cases (row.state == "RESULT")) [
      | inl done ↦ rw (e, reconcile, done) unchanged
      | inr waiting ↦
          rw (e, reconcile, waiting) (settle-IsChange later stamp row (judge o projects reader row))
    ]
  ]
