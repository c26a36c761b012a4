-- ===== src/Capability/Complete/Changes.antt =====
-- What `complete` of src/engine/capability-execution-coordinator.mjs does to the tables.
use ai_core.Base.{
  String, false, Option, some, ◌==◌, ◌≡◌, refl, subst, sym, arith, inl, inr, eqb, Bool-cases,
  Option-cases,
}
use ai_core.Base.Result.{ok, >>=-eq-ok, ok-subst, Result-cases}
use ai_core.Base.Table
use ai_core.Base.Table.{Table}
use ai_core.Workflow.Spec.{Workflow}
use ai_core.Workflow.Inspect.{Host}
use ai_core.Workflow.Decide.{Decision, Stamp}
use ai_core.Workflow.Execution.{WorkResult}
use ai_core.Capability.Receipt.{Runtime, safe_receipt}
use ai_core.Capability.Store.{Request, Db, request_row, with_result, update_reserved}
use ai_core.Capability.Store.Rows.{request_row-request_id}
use ai_core.Capability.Reserve.{request_missing, result_schema_invalid, the, the-eq-ok}
use ai_core.Capability.Complete.{
  match_receipt, decided, complete_in, complete_row, complete, matched_row, committed,
  is_reconciled, result_event,
}
use ai_core.Capability.Change.{IsChange, unchanged, saved_result}

module _ (o : Runtime) (host : Host (Unit {0}) (Unit {0})) (workflow : Workflow) where
  pub matched_row-eq-ok :
      (db : Db) (id : String) (result : Option WorkResult) (row : Request) (r : WorkResult)
      → matched_row o host workflow db id result ≡ ok (row, r)
      → (request_row id db.requests ≡ some row)
        × (safe_receipt o result ≡ some r)
        × (match_receipt o row r ≡ ok tt)
  unfolding matched_row
  matched_row-eq-ok db id result row r h =
      let (row', e₁, h₁) = >>=-eq-ok (the (request_row id db.requests) request_missing) _ h in
      let (r', e₂, h₂) = >>=-eq-ok (the (safe_receipt o result) result_schema_invalid) _ h₁ in
      let (u, e₃, h₃) = >>=-eq-ok (match_receipt o row' r') _ h₂ in
      ok-subst
        (λ (p : Request × WorkResult).
          (request_row id db.requests ≡ some p.0)
          × (safe_receipt o result ≡ some p.1)
          × (match_receipt o p.0 p.1 ≡ ok tt))
        h₃
        (
          the-eq-ok (request_row id db.requests) request_missing e₁,
          the-eq-ok (safe_receipt o result) result_schema_invalid e₂,
          e₃,
        )

  complete_in-IsChange :
      (db : Db) (stamp : Stamp) (row : Request) (r : WorkResult) (reason : Option String)
      (d : Decision (Unit {0}))
      → request_row row.request_id db.requests ≡ some row
      → row.state == "RESULT" ≡ false
      → match_receipt o row r ≡ ok tt
      → IsChange o db (complete_in o host workflow db stamp row r reason d).0
  unfolding complete_in
  complete_in-IsChange db stamp row r reason d found waiting matched =
      let out =
        update_reserved row.request_id (with_result "RESULT" r reason stamp.now) db.requests in
      elim (Bool-cases (eqb out.1 1)) [
        | inr e ↦ rw (e) unchanged
        | inl e ↦ elim (Option-cases (Table.get row.order_id db.orders)) [
          | inl f ↦ rw (e, committed, f) unchanged
          | inr (order, f) ↦
              rw (e, committed, f)
                (saved_result row r reason stamp.now
                  (result_event o host workflow stamp row r d order)
                  (record {
                    found = found;
                    waiting = waiting;
                    matched = matched;
                    one = ground arith;
                    same_id = refl;
                    same_receipt = refl;
                  }))
        ]
      ]

  complete_row-IsChange :
      (db : Db) (stamp : Stamp) (row : Request) (r : WorkResult) (reason : Option String)
      → request_row row.request_id db.requests ≡ some row
      → match_receipt o row r ≡ ok tt
      → IsChange o db (complete_row o host workflow db stamp row r reason).0
  unfolding complete_row
  complete_row-IsChange db stamp row r reason found matched =
      elim (Bool-cases (row.state == "RESULT")) [
        | inl done ↦ rw (done) unchanged
        | inr waiting ↦
            elim (Result-cases
              (decided o host workflow stamp row r (is_reconciled o host workflow reason))) [
                | inr (x, e) ↦ rw (waiting, e) unchanged
                | inl (d, e) ↦
                    rw (waiting, e)
                      (complete_in-IsChange db stamp row r reason d found waiting matched)
              ]
      ]

  pub complete-IsChange :
      (db : Db) (stamp : Stamp) (id : String) (result : Option WorkResult) (reason : Option String)
      → IsChange o db (complete o host workflow db stamp id result reason).0
  unfolding complete
  complete-IsChange db stamp id result reason =
      elim (Result-cases (matched_row o host workflow db id result)) [
        | inr (x, e) ↦ rw (e, complete) unchanged
        | inl ((row, r), e) ↦
            let (found, _, matched) = matched_row-eq-ok db id result row r e in
            rw (e, complete)
              (complete_row-IsChange db stamp row r reason
                (subst (λ j. request_row j db.requests ≡ some row)
                  (sym (request_row-request_id id db.requests row found)) found)
                matched)
      ]
