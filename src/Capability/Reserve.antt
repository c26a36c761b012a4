-- ===== src/Capability/Reserve.antt =====
-- `recover`, `reserve` and `list` of src/engine/capability-execution-coordinator.mjs. While `reserve`
-- waits for the snapshot of the receipts other calls may run: it reads one state of the tables and
-- writes to a later one. A call that throws in a transaction leaves the tables as they were.
pub mod Changes
pub mod Asked
use Prim.Native.String
use ai_core.Base.{
  ◌≡◌, refl, ap, sym, ◌∙◌, ℕ, String, Bool, true, false, not, ◌&&◌, ◌||◌, Option, none, some, List,
  [], ◌∷◌, ◌==◌, eqb, leb, keep, find, includes, same_text, if◌then◌else◌,
}
use ai_core.Base.Result.{Result, ok, err, need, ok-subst, ◌>>=◌, ◌>>◌}
use ai_core.Base.Table
use ai_core.Base.Table.{Table}
use ai_core.Json.{Json, bool, num, str, obj, Items, Fields, end, field}
use ai_core.Ledger.Names.{is_revision_text}
use ai_core.Orders.Spec.{Routing, Order}
use ai_core.Workflow.Inspect.{Thrown}
use ai_core.Workflow.Execution.{WorkResult}
use ai_core.Capability.Receipt.{Runtime, is_text, digest}
use ai_core.Capability.Recovery.{
  Project, Capability, Snapshot, Taken, no_snapshot, project_recovery_binding_required, taken,
  recovery_snapshot, column_of,
}
use ai_core.Capability.Store.{Request, Binding, Db, request_row, insert_request}

pub data CapabilityError : Type 0 where
  execution_request_id_invalid execution_context_required capability_not_active : CapabilityError
  order_not_found routing_requirement_stale capability_route_mismatch : CapabilityError
  order_route_project_mismatch capability_project_mismatch route_revision_invalid : CapabilityError
  work_binding_required work_binding_project_mismatch work_binding_revision_stale : CapabilityError
  idempotency_conflict project_not_registered project_local_path_required : CapabilityError
  binding_required reader_failed primary_key_taken order_id_required : CapabilityError
  request_missing result_schema_invalid result_context_mismatch : CapabilityError
  result_capability_mismatch result_revision_stale result_conflict : CapabilityError
  workflow_target_invalid state_changed : CapabilityError
  engine_error : Thrown → CapabilityError

-- The arguments of `reserve` and `recover`; `none` is a missing value.
pub record Call : Type 0 where
  pub request_id : Option String
  pub order_id : Option String
  pub work_id : Option String
  pub capability : Option Capability
  pub input : Option Json
  pub perform : Bool  -- perform === true

-- `body` of `requestShape`, with its digest.
pub record Shape : Type 0 where
  pub request_id : String
  pub order_id : String
  pub requirement_revision : ℕ
  pub work_id : String
  pub capability_id : String
  pub project_id : String
  pub subject_revision : String
  pub input_digest : String
  pub perform : Bool
  pub payload_digest : String

pub record Answer : Type 0 where
  pub status : String
  pub replay : Bool
  pub row : Request
  pub result : Option WorkResult

-- What `receiptReader` reads from the file system; `none` is a call that is rejected.
pub record Observation : Type 0 where
  pub status : Option String
  pub reason : Option String
  pub state : Option String
  pub path : Option String
  pub identity_verified : Bool

pub record ReceiptReader : Type 0 where
  pub snapshot : (root : String) → (receipt : Fields) → Option Items
  pub reconcile :
      (root : String)
      → (receipt : Fields) → (before : Items) → (identity : String) → Option Observation

unfoldable pub blank_or : Option String → String
blank_or none = ""
blank_or (some s) = s

-- The value of an option, or an error.
abbrev pub the : {A : Type 0} → Option A → CapabilityError → Result CapabilityError A
the none e = err e
the (some a) e = ok a

pub the-eq-ok :
    {A : Type 0} (x : Option A) (e : CapabilityError) {a : A}
    → ◌≡◌ {A = Result CapabilityError A} (the x e) (ok a)
    → x ≡ some a
the-eq-ok none e h = absurd (cc)
the-eq-ok (some b) e h = ok-subst (λ c. some b ≡ some c) h refl

pub pair_eq :
    {A B : Type 0} {a a' : A} {b b' : B} → ◌≡◌ {A = A × B} (a, b) (a', b') → (a ≡ a') × (b ≡ b')
pair_eq h = (ap (λ p. p.0) h, ap (λ p. p.1) h)

-- A call does not both throw and return.
pub refuted :
    {A : Type 0} {out : Db × Result CapabilityError A} {db db' : Db} {x : CapabilityError} {v : A}
    → out ≡ (db, err x)
    → out ≡ (db', ok v)
    → ⊥
refuted {A} {out} {db} {db'} {x} {v} p q =
    let bad : ◌≡◌ {A = Result CapabilityError A} (err x) (ok v) = ap (λ y. y.1) (sym p ∙ q) in
    absurd (cc)

-- `{status:row.state,replay:true,row,result:rowReceipt(row)}`
unfoldable pub replay_of : Request → Answer
replay_of row = record { status = row.state; replay = true; row = row; result = row.result }

unfoldable pub input_of : Option Json → Json
input_of none = obj end
input_of (some v) = v

module _ (o : Runtime) where
  -- The request id is a text of at most 200 characters.
  unfoldable pub is_request_id : Option String → Bool
  unfolding is_text blank_or
  is_request_id id = is_text o id && leb (o.units (blank_or id)) 200

  -- The three comparisons of `recover`.
  unfoldable pub is_same_call : Request → Call → Bool
  unfolding digest blank_or input_of
  is_same_call row c =
      row.order_id == blank_or c.order_id
      && row.input_digest == digest o (input_of c.input)
      && (if row.perform then c.perform else not c.perform)

  -- `recover`; `none` is `null`
  unfoldable pub recover : Db → Call → Result CapabilityError (Option Answer)
  unfolding is_request_id is_same_call replay_of is_text blank_or request_row
  recover db c = do
    need (is_request_id c.request_id) execution_request_id_invalid
    need (is_text o c.order_id) execution_context_required
    elim (request_row (blank_or c.request_id) db.requests) [
      | none ↦ ok none
      | some row ↦
          if is_same_call row c then ok (some (replay_of row)) else err idempotency_conflict
    ]

  binds : Order → String → Binding → Bool
  binds order work b =
      b.order_id == order.id && eqb b.requirement_revision order.revision && b.work_id == work

  -- `currentBinding`
  current_binding : Db → Order → String → Result CapabilityError Binding
  unfolding binds
  current_binding db order work = do
    table ← the db.bindings work_binding_required
    the (find (binds order work) table) work_binding_required

  route_of : Order → Result CapabilityError Routing
  route_of order = do
    r ← the order.routing routing_requirement_stale
    n ← the r.requirement_revision routing_requirement_stale
    need (eqb n order.revision) routing_requirement_stale
    ok r

  -- `validateOrderContext`, with the route that it has checked
  unfoldable pub order_context : Db → Order → String → Capability → Result CapabilityError Routing
  unfolding current_binding route_of is_revision_text blank_or
  order_context db order work c = do
    r ← route_of order
    need (same_text r.capability_id (some c.id)) capability_route_mismatch
    need (same_text (some order.project) r.target_project_id) order_route_project_mismatch
    need (includes c.projects "*" || includes c.projects (blank_or r.target_project_id))
        capability_project_mismatch
    need (is_revision_text (blank_or r.target_revision)) route_revision_invalid
    b ← current_binding db order work
    need (same_text (some b.project_id) r.target_project_id) work_binding_project_mismatch
    need (same_text (some b.subject_revision) r.target_revision) work_binding_revision_stale
    ok r

  shape_json : Shape → Json
  shape_json s = obj (
      field "request_id" (str s.request_id) (
        field "order_id" (str s.order_id) (
          field "requirement_revision" (num s.requirement_revision) (
            field "work_id" (str s.work_id) (
              field "capability_id" (str s.capability_id) (
                field "project_id" (str s.project_id) (
                  field "subject_revision" (str s.subject_revision) (
                    field "input_digest" (str s.input_digest)
                      (field "perform" (bool s.perform) end)))))))))

  -- `requestShape`
  unfoldable pub request_shape : Call → Order → Routing → Capability → Shape
  unfolding shape_json digest blank_or input_of
  request_shape c order r capability =
      let body : Shape = record {
        request_id = blank_or c.request_id;
        order_id = order.id;
        requirement_revision = order.revision;
        work_id = blank_or c.work_id;
        capability_id = capability.id;
        project_id = blank_or r.target_project_id;
        subject_revision = blank_or r.target_revision;
        input_digest = digest o (input_of c.input);
        perform = c.perform;
        payload_digest = "";
      } in
      record body { payload_digest = digest o (shape_json body) }

  active : Option Capability → Result CapabilityError Capability
  active none = err capability_not_active
  active (some c) = if c.status == "ACTIVE" then ok c else err capability_not_active

  -- The shape of the request that `reserve` is asked for.
  unfoldable pub asked_shape : Db → Call → Result CapabilityError (Shape × Capability)
  unfolding is_request_id is_text active order_context request_shape blank_or
  asked_shape db c = do
    need (is_request_id c.request_id) execution_request_id_invalid
    need (is_text o c.order_id && is_text o c.work_id) execution_context_required
    capability ← active c.capability
    order ← the (Table.get (blank_or c.order_id) db.orders) order_not_found
    r ← order_context db order (blank_or c.work_id) capability
    ok (request_shape c order r capability, capability)

  -- An earlier request of the same id is answered where its payload is the same.
  unfoldable pub answer_again : Request → Shape → Result CapabilityError Answer
  unfolding replay_of
  answer_again row s =
      if row.payload_digest == s.payload_digest
      then ok (replay_of row)
      else err idempotency_conflict

  -- `snapshotBefore`
  snapshot_before : ReceiptReader → Capability → Project → Result CapabilityError (Option Items)
  unfolding is_text blank_or
  snapshot_before reader c p = elim c.receipt [
    | none ↦ ok none
    | some receipt ↦ do
      need (is_text o p.local_path) project_local_path_required
      before ← the (reader.snapshot (blank_or p.local_path) receipt) reader_failed
      ok (some before)
  ]

  snapshot_of : Taken → Result CapabilityError (Option Snapshot)
  snapshot_of no_snapshot = ok none
  snapshot_of project_recovery_binding_required = err binding_required
  snapshot_of (taken s) = ok (some s)

  -- What is read before the transaction.
  unfoldable pub prepared :
      ReceiptReader → Table Project → Shape → Capability → Result CapabilityError (Option Snapshot)
  unfolding snapshot_before recovery_snapshot snapshot_of
  prepared reader projects s c = do
    p ← the (Table.get s.project_id projects) project_not_registered
    before ← snapshot_before reader c p
    snapshot_of (recovery_snapshot o c before (some p))

  -- The row that is inserted.
  unfoldable pub reserved_row : Shape → Option Snapshot → (at : String) → Request
  unfolding column_of
  reserved_row s recovery at = record {
    request_id = s.request_id;
    order_id = s.order_id;
    requirement_revision = s.requirement_revision;
    work_id = s.work_id;
    capability_id = s.capability_id;
    project_id = s.project_id;
    subject_revision = s.subject_revision;
    payload_digest = s.payload_digest;
    input_digest = s.input_digest;
    perform = s.perform;
    before_receipts = column_of recovery;
    state = "RESERVED";
    result = none;
    reason = none;
    created_at = at;
    updated_at = at;
  }

  inserted : Db → Request → Option (List Request) → Db × Result CapabilityError Answer
  inserted db row none = (db, err primary_key_taken)
  inserted db row (some rows) = (
    record db { requests = rows },
    ok (record { status = "RESERVED"; replay = false; row = row; result = none }),
  )

  -- The transaction of `reserve`.
  unfoldable pub reserve_in :
      Db → Shape → Option Snapshot → (at : String) → Db × Result CapabilityError Answer
  unfolding answer_again reserved_row inserted request_row insert_request
  reserve_in db s recovery at = elim (request_row s.request_id db.requests) [
    | some raced ↦ (db, answer_again raced s)
    | none ↦
        let row = reserved_row s recovery at in inserted db row (insert_request row db.requests)
  ]

  after_snapshot :
      Db
      → Shape
      → (at : String) → Result CapabilityError (Option Snapshot)
      → Db × Result CapabilityError Answer
  unfolding reserve_in
  after_snapshot later s at (err e) = (later, err e)
  after_snapshot later s at (ok recovery) = reserve_in later s recovery at

  -- What `reserve` does once it knows the shape: `now` is the state that it has read.
  reserve_shape :
      ReceiptReader
      → Table Project
      → (now later : Db) → Shape
      → Capability
      → (at : String) → Db × Result CapabilityError Answer
  unfolding answer_again prepared after_snapshot request_row
  reserve_shape reader projects now later s c at = elim (request_row s.request_id now.requests) [
    | some existing ↦ (later, answer_again existing s)
    | none ↦ after_snapshot later s at (prepared reader projects s c)
  ]

  -- `reserve`
  unfoldable pub reserve :
      ReceiptReader
      → Table Project
      → (now later : Db) → Call
      → (at : String) → Db × Result CapabilityError Answer
  unfolding asked_shape reserve_shape
  reserve reader projects now later c at = elim (asked_shape now c) [
    | err e ↦ (later, err e)
    | ok (s, capability) ↦ reserve_shape reader projects now later s capability at
  ]
