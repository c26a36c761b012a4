-- ===== src/Capability/Change/Rows.antt =====
-- What a change of the tables of src/engine/capability-execution-coordinator.mjs leaves of a row.
use ai_core.Base.{
  String, true, Option, none, some, ◌==◌, ◌≡◌, refl, ap, subst, sym, ◌∙◌, arith, inl, inr,
  Bool-cases,
}
use ai_core.Base.Result.{ok}
use ai_core.Workflow.Execution.{WorkResult}
use ai_core.Capability.Receipt.{Runtime}
use ai_core.Capability.Store.{Request, ResultEvent, Db, request_row, with_result}
use ai_core.Capability.Store.Rows.{
  request_row-request_id, request_row-insert_request, request_row-update_reserved, updated,
  updated_row,
}
use ai_core.Capability.Complete.{match_receipt}
use ai_core.Base.{◌⊎◌, ◌&&◌, eq_iff}
use ai_core.Capability.Change.{IsSaved, IsChange, unchanged, new_row, saved_result}

some_eq : {A : Type 0} {a b : A} → some a ≡ some b → a ≡ b
some_eq h = cc

module _ (o : Runtime) where
  -- The row has got its result, and is the same in all else.
  pub record IsCompleted (row row' : Request) : Type 0 where
    pub receipt : WorkResult
    pub reason : Option String
    pub at : String
    pub reserved : row.state == "RESERVED" ≡ true
    pub matched : match_receipt o row receipt ≡ ok tt
    pub completed : row' ≡ with_result "RESULT" receipt reason at row

  -- The row is as it was, or was reserved and has got its result.
  unfoldable pub IsKept : Request → Request → Type 0
  IsKept row row' = (row' ≡ row) ⊎ IsCompleted row row'

  pub IsKept-refl : (row : Request) → IsKept row row
  unfolding IsKept
  IsKept-refl row = inl refl

  reserved_twice : (a b c : Request) → IsCompleted a b → IsCompleted b c → ⊥
  unfolding with_result
  reserved_twice a b c p q =
      let twice = subst (λ (x : Request). x.state == "RESERVED" ≡ true) p.completed q.reserved in
      absurd (cc)

  pub IsKept-trans : (a b c : Request) → IsKept a b → IsKept b c → IsKept a c
  unfolding IsKept
  IsKept-trans a b c (inl p) q = subst (λ x. IsKept x c) p q
  IsKept-trans a b c (inr p) (inl q) = subst (λ x. IsKept a x) (sym q) (inr p)
  IsKept-trans a b c (inr p) (inr q) = absurd (reserved_twice a b c p q)

  -- A row that is found stays found, and is kept.
  unfoldable pub HoldsRow : Db → String → Request → Type 0
  HoldsRow db id row = (row' : Request) × (request_row id db.requests ≡ some row') × IsKept row row'

  saved_row :
      (db : Db) (id : String) (row srow : Request) (r : WorkResult) (reason : Option String)
      (at : String) (event : ResultEvent)
      → IsSaved o db srow r reason at event
      → request_row id db.requests ≡ some row
      → IsKept row (updated srow.request_id (with_result "RESULT" r reason at) row)
  unfolding updated IsKept
  saved_row db id row srow r reason at event s h =
      elim (Bool-cases (row.request_id == srow.request_id && row.state == "RESERVED")) [
        | inr e ↦ rw (e) (inl refl)
        | inl e ↦
            let at_id = request_row-request_id id db.requests row h in
            let same_id : srow.request_id ≡ id =
              ground (arith, eq_iff row.request_id srow.request_id) in
            let same : srow ≡ row =
              some_eq (sym s.found ∙ ap (λ j. request_row j db.requests) same_id ∙ h) in
            rw (e) (
              inr (record {
                receipt = r;
                reason = reason;
                at = at;
                reserved = ground arith;
                matched = subst (λ x. match_receipt o x r ≡ ok tt) same s.matched;
                completed = refl;
              }))
      ]

  pub change-HoldsRow :
      (db db' : Db) (id : String) (row : Request)
      → IsChange o db db'
      → request_row id db.requests ≡ some row
      → HoldsRow db' id row
  unfolding HoldsRow
  change-HoldsRow db db' id row unchanged h = (row, h, IsKept-refl row)
  change-HoldsRow db db' id row (new_row new rows n) h =
      let looked = request_row-insert_request new db.requests id rows n.inserted in
      elim (Bool-cases (new.request_id == id)) [
        | inl e ↦
            let at_id : new.request_id ≡ id = ground (arith, eq_iff new.request_id id) in
            let free = subst (λ j. request_row j db.requests ≡ none) at_id n.free in absurd (cc)
        | inr e ↦ (row, looked ∙ ground arith, IsKept-refl row)
      ]
  change-HoldsRow db db' id row (saved_result srow r reason at event s) h =
      let looked =
        request_row-update_reserved srow.request_id "RESULT" r reason at db.requests id in
      (
        updated srow.request_id (with_result "RESULT" r reason at) row,
        looked ∙ ap (updated_row srow.request_id "RESULT" r reason at) h,
        saved_row db id row srow r reason at event s h,
      )
