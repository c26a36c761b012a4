-- ===== src/Capability/Complete/Replays.antt =====
-- What `complete` of src/engine/capability-execution-coordinator.mjs returns, and what a second call
-- returns.
use ai_core.Base.{
  String, true, false, Option, some, [], ◌∷◌, ◌++◌, ◌==◌, ◌≡◌, refl, ap, subst, sym, ◌∙◌, inl, inr,
  eqb, Bool-cases, Option-cases,
}
use ai_core.Base.Result.{ok, err, ok-subst, Result-cases}
use ai_core.Base.Table
use ai_core.Base.Table.{Table}
use ai_core.Workflow.Spec.{Workflow}
use ai_core.Workflow.Inspect.{Host}
use ai_core.Workflow.Decide.{Decision, Stamp}
use ai_core.Workflow.Execution.{WorkResult}
use ai_core.Capability.Receipt.{Runtime}
use ai_core.Capability.Store.{Request, Db, request_row, with_result, update_reserved}
use ai_core.Capability.Store.Rows.{request_row-request_id}
use ai_core.Capability.Reserve.{pair_eq, refuted, state_changed, order_not_found}
use ai_core.Capability.Complete.{
  match_receipt, decided, completed_again, complete_in, complete_row, complete, matched_row,
  committed, is_reconciled, result_event, result_of, stored_digest,
}
use ai_core.Base.{eq_refl}
use ai_core.Capability.Receipt.{digest, receipt_json}
use ai_core.Capability.Store.Rows.{updated, updated_row, request_row-update_reserved}
use ai_core.Capability.Runs.Once.{IsSound, IsRecorded, waiting_done}
use ai_core.Capability.Complete.Changes.{matched_row-eq-ok}

module _ (o : Runtime) (host : Host (Unit {0}) (Unit {0})) (workflow : Workflow) where
  complete_in-eq-ok :
      (db db' : Db) (stamp : Stamp) (row : Request) (r : WorkResult) (reason : Option String)
      (d : Decision (Unit {0})) (saved : Option WorkResult)
      → complete_in o host workflow db stamp row r reason d ≡ (db', ok saved)
      → (db'.requests
          ≡ (update_reserved row.request_id
              (with_result "RESULT" r reason stamp.now)
              db.requests).0)
        × (saved ≡ result_of o host workflow (request_row row.request_id db'.requests))
  unfolding complete_in
  complete_in-eq-ok db db' stamp row r reason d saved h =
      let out =
        update_reserved row.request_id (with_result "RESULT" r reason stamp.now) db.requests in
      elim (Bool-cases (eqb out.1 1)) [
        | inr e ↦
            let made : complete_in o host workflow db stamp row r reason d
                ≡ (db, err state_changed) =
              rw (e) refl in
            absurd (refuted made h)
        | inl e ↦ elim (Option-cases (Table.get row.order_id db.orders)) [
          | inl f ↦
              let made : complete_in o host workflow db stamp row r reason d
                  ≡ (db, err order_not_found) =
                rw (e, committed, f) refl in
              absurd (refuted made h)
          | inr (order, f) ↦
              let after = record db {
                requests = out.0;
                events = db.events ++ result_event o host workflow stamp row r d order ∷ [];
              } in
              let made : complete_in o host workflow db stamp row r reason d
                  ≡ (after, ok (result_of o host workflow (request_row row.request_id out.0))) =
                rw (e, committed, f) refl in
              let (same_db, same_out) = pair_eq (sym made ∙ h) in
              let rows : db'.requests ≡ out.0 = ap (λ (x : Db). x.requests) (sym same_db) in
              (
                rows,
                ok-subst
                    (λ v. v ≡ result_of o host workflow (request_row row.request_id db'.requests))
                    same_out
                    (ap (λ rs. result_of o host workflow (request_row row.request_id rs))
                      (sym rows)),
              )
        ]
      ]

  -- A receipt that matched a row matches the row that a later state has of the same identity.
  matched_row_later :
      (db db' : Db) (id : String) (result : Option WorkResult) (row row' : Request) (r : WorkResult)
      → matched_row o host workflow db id result ≡ ok (row, r)
      → request_row id db'.requests ≡ some row'
      → ((x : WorkResult) → match_receipt o row' x ≡ match_receipt o row x)
      → matched_row o host workflow db' id result ≡ ok (row', r)
  unfolding matched_row
  matched_row_later db db' id result row row' r h later same =
      let (_, safe, matched) = matched_row-eq-ok o host workflow db id result row r h in
      rw (later, safe, same r, matched) refl

  saved_row :
      (db : Db) (id : String) (row : Request)
      → IsSound o db
      → request_row id db.requests ≡ some row
      → row.state == "RESULT" ≡ false
      → row.state ≡ "RESERVED"
  unfolding IsSound IsRecorded
  saved_row db id row sound found waiting =
      elim (subst (IsRecorded o db.events id) found (sound id)) [
        | inl w ↦ w.state_is
        | inr d ↦ absurd (waiting_done row.state waiting d.state_is)
      ]

  complete_row-eq-ok :
      (db db' : Db) (stamp : Stamp) (row : Request) (r : WorkResult) (reason : Option String)
      (saved : Option WorkResult)
      → complete_row o host workflow db stamp row r reason ≡ (db', ok saved)
      → row.state == "RESULT" ≡ false
      → (db'.requests
          ≡ (update_reserved row.request_id
              (with_result "RESULT" r reason stamp.now)
              db.requests).0)
        × (saved ≡ result_of o host workflow (request_row row.request_id db'.requests))
  unfolding complete_row
  complete_row-eq-ok db db' stamp row r reason saved h waiting =
      elim (Result-cases
        (decided o host workflow stamp row r (is_reconciled o host workflow reason))) [
          | inr (x, e) ↦
              let made : complete_row o host workflow db stamp row r reason ≡ (db, err x) =
                rw (waiting, e) refl in
              absurd (refuted made h)
          | inl (d, e) ↦
              let made : complete_row o host workflow db stamp row r reason
                  ≡ complete_in o host workflow db stamp row r reason d =
                rw (waiting, e) refl in
              complete_in-eq-ok db db' stamp row r reason d saved (sym made ∙ h)
        ]

  -- The row that a completion leaves.
  left_row :
      (db db' : Db) (stamp : Stamp) (id : String) (row : Request) (r : WorkResult)
      (reason : Option String)
      → IsSound o db
      → request_row id db.requests ≡ some row
      → row.state == "RESULT" ≡ false
      → db'.requests
        ≡ (update_reserved row.request_id (with_result "RESULT" r reason stamp.now) db.requests).0
      → request_row id db'.requests ≡ some (with_result "RESULT" r reason stamp.now row)
  unfolding updated
  left_row db db' stamp id row r reason sound found waiting rows =
      let own = request_row-request_id id db.requests row found in
      let reserved = saved_row db id row sound found waiting in
      ap (request_row id) rows
      ∙ request_row-update_reserved row.request_id "RESULT" r reason stamp.now db.requests id
      ∙ ap (updated_row row.request_id "RESULT" r reason stamp.now) found
      ∙ rw (eq_refl row.request_id, reserved) refl

  again_done :
      (db : Db) (stamp : Stamp) (id : String) (result : Option WorkResult) (reason : Option String)
      (row : Request) (r : WorkResult)
      → matched_row o host workflow db id result ≡ ok (row, r)
      → row.state == "RESULT" ≡ true
      → complete o host workflow db stamp id result reason ≡ (db, completed_again o row r)
  unfolding complete complete_row
  again_done db stamp id result reason row r e done = rw (e, complete, complete_row, done) refl

  completed_again-with_result :
      (row : Request) (r : WorkResult) (reason : Option String) (at : String)
      → completed_again o (with_result "RESULT" r reason at row) r ≡ ok (some r)
  unfolding completed_again with_result stored_digest
  completed_again-with_result row r reason at = rw (eq_refl (digest o (receipt_json r))) refl

  match_receipt-with_result :
      (row : Request) (r : WorkResult) (reason : Option String) (at : String) (x : WorkResult)
      → match_receipt o (with_result "RESULT" r reason at row) x ≡ match_receipt o row x
  unfolding match_receipt with_result
  match_receipt-with_result row r reason at x = refl

  again_saved :
      (db db' : Db) (stamp later : Stamp) (id : String) (result : Option WorkResult)
      (reason reason' : Option String) (saved : Option WorkResult) (row : Request) (r : WorkResult)
      → IsSound o db
      → matched_row o host workflow db id result ≡ ok (row, r)
      → row.state == "RESULT" ≡ false
      → complete_row o host workflow db stamp row r reason ≡ (db', ok saved)
      → complete o host workflow db' later id result reason' ≡ (db', ok saved)
  unfolding result_of with_result
  again_saved db db' stamp later id result reason reason' saved row r sound e waiting h =
      let (found, safe, matched) = matched_row-eq-ok o host workflow db id result row r e in
      let (rows, saved_is) = complete_row-eq-ok db db' stamp row r reason saved h waiting in
      let row' = with_result "RESULT" r reason stamp.now row in
      let left = left_row db db' stamp id row r reason sound found waiting rows in
      let matched' =
        matched_row_later db db' id result row row' r e left
          (match_receipt-with_result row r reason stamp.now) in
      let own = request_row-request_id id db.requests row found in
      let value : saved ≡ some r =
        saved_is
        ∙ ap (λ j. result_of o host workflow (request_row j db'.requests)) own
        ∙ ap (result_of o host workflow) left in
      again_done db' later id result reason' row' r matched' refl
      ∙ ap (λ v. (db', v)) (completed_again-with_result row r reason stamp.now ∙ ap ok (sym value))

  -- A second completion by the same result, with any clock and any reason, after one that succeeded,
  -- returns the same and leaves the tables as they are.
  pub complete_twice :
      (db db' : Db) (stamp later : Stamp) (id : String) (result : Option WorkResult)
      (reason reason' : Option String) (saved : Option WorkResult)
      → IsSound o db
      → complete o host workflow db stamp id result reason ≡ (db', ok saved)
      → complete o host workflow db' later id result reason' ≡ (db', ok saved)
  unfolding complete
  complete_twice db db' stamp later id result reason reason' saved sound h =
      elim (Result-cases (matched_row o host workflow db id result)) [
        | inr (x, e) ↦
            let made : complete o host workflow db stamp id result reason ≡ (db, err x) =
              rw (e, complete) refl in
            absurd (refuted made h)
        | inl ((row, r), e) ↦ elim (Bool-cases (row.state == "RESULT")) [
          | inl done ↦
              let first = again_done db stamp id result reason row r e done in
              subst (λ x. complete o host workflow x later id result reason' ≡ (db', ok saved))
                (pair_eq (sym first ∙ h)).0
                (again_done db later id result reason' row r e done ∙ sym first ∙ h)
          | inr waiting ↦
              let made : complete o host workflow db stamp id result reason
                  ≡ complete_row o host workflow db stamp row r reason =
                rw (e, complete) refl in
              again_saved db db' stamp later id result reason reason' saved row r sound e waiting
                (sym made ∙ h)
        ]
      ]
