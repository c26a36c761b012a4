-- ===== src/Capability/Complete/Failures.antt =====
-- Failures of `complete` of src/engine/capability-execution-coordinator.mjs.
use ai_core.Base.{String, Option, ◌==◌, ◌≡◌, refl, subst, inl, inr, eqb, Bool-cases, Option-cases}
use ai_core.Base.Result.{Result, ok, err, Result-cases}
use ai_core.Base.Table
use ai_core.Base.Table.{Table}
use ai_core.Workflow.Spec.{Workflow}
use ai_core.Workflow.Inspect.{Host}
use ai_core.Workflow.Decide.{Decision, Stamp}
use ai_core.Workflow.Execution.{WorkResult}
use ai_core.Capability.Receipt.{Runtime}
use ai_core.Capability.Store.{Request, Db, with_result, update_reserved}
use ai_core.Capability.Reserve.{CapabilityError}
use ai_core.Capability.Complete.{
  decided, completed_again, complete_in, complete_row, complete, matched_row, committed,
  is_reconciled,
}

-- The tables are the same where the call throws.
Unmoved : {A : Type 0} → Db → Db × Result CapabilityError A → Type 0
Unmoved db (db', ok v) = Unit
Unmoved db (db', err x) = db' ≡ db

module _ (o : Runtime) (host : Host (Unit {0}) (Unit {0})) (workflow : Workflow) where
  complete_in-Unmoved :
      (db : Db) (stamp : Stamp) (row : Request) (r : WorkResult) (reason : Option String)
      (d : Decision (Unit {0}))
      → Unmoved db (complete_in o host workflow db stamp row r reason d)
  unfolding complete_in Unmoved
  complete_in-Unmoved db stamp row r reason d =
      let out =
        update_reserved row.request_id (with_result "RESULT" r reason stamp.now) db.requests in
      elim (Bool-cases (eqb out.1 1)) [
        | inr e ↦ rw (e) refl
        | inl e ↦ elim (Option-cases (Table.get row.order_id db.orders)) [
          | inl f ↦ rw (e, committed, f) refl
          | inr (order, f) ↦ rw (e, committed, f) tt
        ]
      ]

  completed_again-Unmoved :
      (db : Db) (out : Result CapabilityError (Option WorkResult)) → Unmoved db (db, out)
  unfolding Unmoved
  completed_again-Unmoved db (ok v) = tt
  completed_again-Unmoved db (err x) = refl

  complete_row-Unmoved :
      (db : Db) (stamp : Stamp) (row : Request) (r : WorkResult) (reason : Option String)
      → Unmoved db (complete_row o host workflow db stamp row r reason)
  unfolding complete_row Unmoved
  complete_row-Unmoved db stamp row r reason = elim (Bool-cases (row.state == "RESULT")) [
    | inl done ↦ rw (done) (completed_again-Unmoved db (completed_again o row r))
    | inr waiting ↦
        elim (Result-cases
          (decided o host workflow stamp row r (is_reconciled o host workflow reason))) [
            | inr (x, e) ↦ rw (waiting, e) refl
            | inl (d, e) ↦ rw (waiting, e) (complete_in-Unmoved db stamp row r reason d)
          ]
  ]

  complete-Unmoved :
      (db : Db) (stamp : Stamp) (id : String) (result : Option WorkResult) (reason : Option String)
      → Unmoved db (complete o host workflow db stamp id result reason)
  unfolding complete Unmoved
  complete-Unmoved db stamp id result reason =
      elim (Result-cases (matched_row o host workflow db id result)) [
        | inr (x, e) ↦ rw (e, complete) refl
        | inl ((row, r), e) ↦ rw (e, complete) (complete_row-Unmoved db stamp row r reason)
      ]

  -- A completion that throws, before or in its transaction, leaves the tables as they were.
  pub complete-err :
      (db db' : Db) (stamp : Stamp) (id : String) (result : Option WorkResult)
      (reason : Option String) (x : CapabilityError)
      → complete o host workflow db stamp id result reason ≡ (db', err x)
      → db' ≡ db
  unfolding Unmoved
  complete-err db db' stamp id result reason x h =
      subst (Unmoved db) h (complete-Unmoved db stamp id result reason)
