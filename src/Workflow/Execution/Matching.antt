-- ===== src/Workflow/Execution/Matching.antt =====
-- What a completion of src/workflow/capability-execution-shadow.mjs has passed.
use ai_core.Base.{
  String, Bool, true, false, not, ◌&&◌, Option, none, some, [], truthy, ◌≡◌, refl, subst, ap, ◌∙◌,
  ◌==◌, ◌↔◌, ◌⊎◌, inl, inr, arith, same_text, same_text_iff, or_else, Bool-cases, if◌then◌else◌,
}
use ai_core.Base.Result.{Result, ok}
use ai_core.Workflow.Spec.{Workflow}
use ai_core.Workflow.Inspect.{Thrown, Host}
use ai_core.Workflow.Decide.{Decision, Stamp, decide, previous_item}
use ai_core.Workflow.Decide.Acceptance.{IsAdvance, decide-IsAdvance, decide_new}
use ai_core.Workflow.Execution.{
  WorkResult, Row, ExecutionData, Completion, completed, refused, context_mismatch,
  capability_mismatch, revision_stale, Outside, same_context, same_capability, same_revision,
  CapabilityEntry, Observed, persist_terminal_result, reconciled_result, reconcile_open,
  mapped_status, observed_status, classify_reconciliation, safe_receipt, complete_request,
  completion_of, complete_again, complete_open, decide_complete,
}

no_history : (key : Option String) → previous_item {X = ExecutionData} key [] ≡ none
unfolding previous_item
no_history key = elim (Bool-cases (truthy key)) [ inl e ↦ rw (e) refl | inr e ↦ rw (e) refl ]

module _ (o : Outside) (host : Host (Unit {0}) ExecutionData) (w : Workflow) where
  -- The receipt names the order, the work, the capability, the project and the revision of the row,
  -- the row had no result, and the engine moved the row's execution one revision on.
  pub record IsMatched (row : Row) (result : Option WorkResult) (request_id : Option String)
      (reconciliation : Bool) (r : WorkResult) (d : Decision ExecutionData) : Type 0 where
    pub state : (row.state == "RESULT") ≡ false
    pub receipt : safe_receipt o result ≡ some r
    pub order_id : r.order_id ≡ row.order_id
    pub work_id : r.work_id ≡ row.work_id
    pub capability_id : r.capability_id ≡ row.capability_id
    pub project_id : r.project_id ≡ row.project_id
    pub subject_revision : r.subject_revision ≡ row.subject_revision
    pub advance :
        IsAdvance host w
          (complete_request o row r (or_else request_id row.request_id) reconciliation)
          d

  completion_inversion :
      (r r' : WorkResult) (x : Result Thrown (Decision ExecutionData)) (d : Decision ExecutionData)
      → completion_of o r x ≡ ok (completed r' d)
      → (r ≡ r') × (x ≡ ok d)
  unfolding completion_of
  completion_inversion r r' x d h = ground arith

  request_new :
      (stamp : Stamp) (row : Row) (r : WorkResult) (id : Option String) (reconciliation : Bool)
      (d : Decision ExecutionData)
      → decide host w stamp (complete_request o row r id reconciliation) ≡ ok d
      → IsAdvance host w (complete_request o row r id reconciliation) d
  unfolding complete_request previous_item
  request_new stamp row r id reconciliation d h =
      let q = complete_request o row r id reconciliation in
      decide-IsAdvance host w stamp q d h (decide_new host w stamp q d h (no_history id))

  tests_passed :
      (row : Row) (r : WorkResult) (a b c : Bool) (x : Result Thrown Completion) (r' : WorkResult)
      (d : Decision ExecutionData)
      → (if not a
          then ok (refused context_mismatch)
          else if not b
          then ok (refused capability_mismatch)
          else if not c
          then ok (refused revision_stale)
          else x)
        ≡ ok (completed r' d)
      → (a ≡ true) × (b ≡ true) × (c ≡ true) × (x ≡ ok (completed r' d))
  tests_passed row r true true true x r' d h = (refl, refl, refl, h)
  tests_passed row r true true false x r' d h = absurd (cc)
  tests_passed row r true false c x r' d h = absurd (cc)
  tests_passed row r false b c x r' d h = absurd (cc)

  both :
      (a b : Option String) (c e : Option String)
      → (same_text a b && same_text c e) ≡ true
      → (a ≡ b) × (c ≡ e)
  both a b c e h = ((same_text_iff a b).0 (ground arith), (same_text_iff c e).0 (ground arith))

  open-IsMatched :
      (stamp : Stamp) (row : Row) (result receipt : Option WorkResult) (id : Option String)
      (reconciliation : Bool) (r : WorkResult) (d : Decision ExecutionData)
      → (row.state == "RESULT") ≡ false
      → safe_receipt o result ≡ receipt
      → complete_open o host w stamp row receipt (or_else id row.request_id) reconciliation
        ≡ ok (completed r d)
      → IsMatched row result id reconciliation r d
  unfolding complete_open
  open-IsMatched stamp row result none id reconciliation r d s e h = absurd (cc)
  open-IsMatched stamp row result (some given) id reconciliation r d s e h =
      let key = or_else id row.request_id in
      let (context, capability, revision, rest) =
        tests_passed row given (same_context o row given) (same_capability o row given)
          (same_revision o row given) _ r d h in
      let (same, ran) =
        completion_inversion given r
          (decide host w stamp (complete_request o row given key reconciliation)) d rest in
      let (order, work) = both given.order_id row.order_id given.work_id row.work_id context in
      let (cap, project) =
        both given.capability_id row.capability_id given.project_id row.project_id capability in
      subst (λ (x : WorkResult). IsMatched row result id reconciliation x d) same
        (record {
          state = s;
          receipt = e;
          order_id = order;
          work_id = work;
          capability_id = cap;
          project_id = project;
          subject_revision = (same_text_iff given.subject_revision row.subject_revision).0 revision;
          advance = request_new stamp row given key reconciliation d ran;
        })

  not_again :
      (row : Row) (receipt : Option WorkResult) (r : WorkResult) (d : Decision ExecutionData)
      → ◌≡◌ {A = Result Thrown Completion} (ok (complete_again o row receipt)) (ok (completed r d))
      → ⊥
  unfolding complete_again
  not_again row none r d h = cc
  not_again row (some given) r d h = ground arith

  -- A result that completes an execution has the form of a work result, and names the order, the
  -- work, the capability, the project and the revision that were reserved; the execution had no
  -- result before, and the engine moved it one revision on.
  pub decide_complete-IsMatched :
      (stamp : Stamp) (row : Row) (result : Option WorkResult) (request_id : Option String)
      (reconciliation : Bool) (r : WorkResult) (d : Decision ExecutionData)
      → decide_complete o host w stamp (some row) result request_id reconciliation
        ≡ ok (completed r d)
      → IsMatched row result request_id reconciliation r d
  unfolding decide_complete
  decide_complete-IsMatched stamp row result id reconciliation r d h =
      elim (Bool-cases (row.state == "RESULT")) [
        | inl e ↦ absurd (not_again row (safe_receipt o result) r d (ground arith))
        | inr e ↦
            open-IsMatched stamp row result (safe_receipt o result) id reconciliation r d e refl
              (ground arith)
      ]

same_refl : (a : Option String) → same_text a a ≡ true
same_refl a = (same_text_iff a a).1 refl

same_both : (a b : Option String) → (same_text a a && same_text b b) ≡ true
same_both a b = ground (arith, same_refl a, same_refl b)

reconciled_fields :
    (o : Outside) (row : Row) (c : CapabilityEntry) (ob : Option Observed) (at : String)
    → (same_context o row (reconciled_result row c ob at) ≡ true)
      × (same_capability o row (reconciled_result row c ob at) ≡ true)
      × (same_revision o row (reconciled_result row c ob at) ≡ true)
      × ((reconciled_result row c ob at).status ≡ some (mapped_status ob))
unfolding reconciled_result
reconciled_fields o row c ob at = (
  same_both row.order_id row.work_id,
  same_both row.capability_id row.project_id,
  same_refl row.subject_revision,
  refl,
)

none_eq : {A : Type 0} {a : A} → ◌≡◌ {A = Option A} none (some a) → ⊥
none_eq h = absurd (cc)

none_is : {s : String} {b : Bool} → b ≡ true ↔ ◌≡◌ {A = Option String} none (some s) → b ≡ true → ⊥
none_is i h = none_eq (i.0 h)

some_of : {A : Type 0} {a b : A} → some a ≡ some b → a ≡ b
some_of h = cc

not_both : {b : Bool} → b ≡ false → b ≡ true → ⊥
not_both e h = absurd (cc)

-- The observation, where there is one, has this status.
unfoldable pub HasStatus : Option Observed → String → Type 0
HasStatus ob s = (x : Observed) × (ob ≡ some x) × (x.status ≡ some s)

-- The status of the result for an observation: success and failure as they are, all else a hold.
unfoldable pub IsMapped : Option Observed → String → Type 0
IsMapped ob mapped =
    (HasStatus ob "SUCCEEDED" × (mapped ≡ "SUCCEEDED"))
    ⊎ ((HasStatus ob "FAILED" × (mapped ≡ "FAILED"))
        ⊎ ((HasStatus ob "SUCCEEDED" → ⊥) × ((HasStatus ob "FAILED" → ⊥) × (mapped ≡ "HOLD"))))

status_iff :
    (ob : Option Observed) (s : String)
    → same_text (observed_status ob) (some s) ≡ true ↔ HasStatus ob s
unfolding observed_status HasStatus
status_iff none s =
    (λ h. absurd (none_is (same_text_iff none (some s)) h), λ (x, e, _). absurd (none_eq e))
status_iff (some x) s = (
  λ h. (x, refl, (same_text_iff x.status (some s)).0 h),
  λ (y, e, h).
      (same_text_iff x.status (some s)).1 (ap (λ (o : Observed). o.status) (some_of e) ∙ h),
)

mapped_status-IsMapped : (ob : Option Observed) → IsMapped ob (mapped_status ob)
unfolding mapped_status IsMapped
mapped_status-IsMapped ob = elim (Bool-cases (same_text (observed_status ob) (some "SUCCEEDED"))) [
  | inl e ↦ inl ((status_iff ob "SUCCEEDED").0 e, rw (e) refl)
  | inr e ↦ elim (Bool-cases (same_text (observed_status ob) (some "FAILED"))) [
    | inl f ↦ inr (inl ((status_iff ob "FAILED").0 f, rw (e, f) refl))
    | inr f ↦ inr (
        inr (
          λ h. not_both e ((status_iff ob "SUCCEEDED").1 h),
          (λ h. not_both f ((status_iff ob "FAILED").1 h), rw (e, f) refl),
        ))
  ]
]

-- A reconciliation persists a result only for an execution that has none and a capability that
-- leaves receipts; the result passes the context, capability and revision tests of a completion of
-- that execution, and its status is the one observed where that is a success or a failure, and a
-- hold otherwise.
pub classify_reconciliation_matches :
    (o : Outside) (row : Row) (c : Option CapabilityEntry) (ob : Option Observed)
    (at mapped : String) (r : WorkResult)
    → classify_reconciliation (some row) c ob at ≡ persist_terminal_result mapped r
    → ((row.state == "RESULT") ≡ false)
      × ((entry : CapabilityEntry) × (c ≡ some entry) × (entry.has_receipt ≡ true))
      × (same_context o row r ≡ true)
      × (same_capability o row r ≡ true)
      × (same_revision o row r ≡ true)
      × (r.status ≡ some mapped)
      × IsMapped ob mapped
unfolding classify_reconciliation reconcile_open
classify_reconciliation_matches o row none ob at mapped r h = absurd (ground arith)
classify_reconciliation_matches o row (some c) ob at mapped r h =
    let (context, capability, revision, status) = reconciled_fields o row c ob at in
    let same : reconciled_result row c ob at ≡ r = ground arith in
    let name : mapped_status ob ≡ mapped = ground arith in
    (
      ground arith,
      (c, refl, ground arith),
      subst (λ x. same_context o row x ≡ true) same context,
      subst (λ x. same_capability o row x ≡ true) same capability,
      subst (λ x. same_revision o row x ≡ true) same revision,
      subst (λ (x : WorkResult). x.status ≡ some mapped) same (status ∙ ap some name),
      subst (IsMapped ob) name (mapped_status-IsMapped ob),
    )
