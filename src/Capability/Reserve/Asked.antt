-- ===== src/Capability/Reserve/Asked.antt =====
-- The row that `reserve` of src/engine/capability-execution-coordinator.mjs makes of a call.
use ai_core.Base.{
  String, Bool, true, false, Option, none, some, List, ◌==◌, ◌≡◌, refl, ap, sym, ◌∙◌, arith, inl,
  inr, Bool-cases, Option-cases, if◌then◌else◌,
}
use ai_core.Base.Result.{Result, ok, err, >>=-eq-ok, need-eq-ok, ok-subst, Result-cases}
use ai_core.Base.Table
use ai_core.Base.Table.{Table}
use ai_core.Capability.Receipt.{Runtime}
use ai_core.Capability.Recovery.{Project, Capability, Snapshot}
use ai_core.Capability.Store.{Request, Db, request_row, insert_request}
use ai_core.Capability.Store.Rows.{request_row-insert_request}
use ai_core.Capability.Reserve.{
  Call, Shape, ReceiptReader, the, the-eq-ok, pair_eq, refuted, asked_shape, reserved_row, prepared,
  reserve_in, reserve, is_request_id, is_same_call, replay_of, answer_again, idempotency_conflict,
  Answer, blank_or, input_of, active, order_context, order_not_found, execution_request_id_invalid,
  execution_context_required, request_shape, CapabilityError, reserve_shape, inserted,
  after_snapshot,
}
use ai_core.Orders.Spec.{Order, Routing}
use ai_core.Base.{◌==◌, not, ◌&&◌, eq_refl}
use ai_core.Capability.Receipt.{is_text, digest}

module _ (o : Runtime) where
  -- The stored identity is the caller's.
  pub record IsAsked (c : Call) (s : Shape) : Type 0 where
    pub id_ok : is_request_id o c.request_id ≡ true
    pub order_ok : is_text o c.order_id ≡ true
    pub same_request : s.request_id ≡ blank_or c.request_id
    pub same_order : s.order_id == blank_or c.order_id ≡ true
    pub same_call :
        (recovery : Option Snapshot) (at : String)
        → is_same_call o (reserved_row o s recovery at) c ≡ true

  same_perform : (b : Bool) → (if b then b else not b) ≡ true
  same_perform true = refl
  same_perform false = refl

  asked :
      (c : Call) (order : Order) (r : Routing) (capability : Capability)
      → is_request_id o c.request_id ≡ true
      → is_text o c.order_id ≡ true
      → order.id ≡ blank_or c.order_id
      → IsAsked c (request_shape o c order r capability)
  unfolding request_shape is_same_call reserved_row
  asked c order r capability id_ok order_ok own = record {
    id_ok = id_ok;
    order_ok = order_ok;
    same_request = refl;
    same_order = rw (own) (eq_refl (blank_or c.order_id));
    same_call = λ recovery at.
        rw
          (
            own,
            eq_refl (blank_or c.order_id),
            eq_refl (digest o (input_of c.input)),
            same_perform c.perform,
          )
          refl;
  }

  both_texts :
      (c : Call)
      → (is_text o c.order_id && is_text o c.work_id) ≡ true
      → is_text o c.order_id ≡ true
  both_texts c h = ground arith

  asked_shape-IsAsked :
      (db : Db) (c : Call) (s : Shape) (capability : Capability)
      → ((k : String) (order : Order) → Table.get k db.orders ≡ some order → order.id ≡ k)
      → asked_shape o db c ≡ ok (s, capability)
      → IsAsked c s
  unfolding asked_shape
  asked_shape-IsAsked db c s capability own h =
      let (id_ok, h₁) =
        need-eq-ok (is_request_id o c.request_id) execution_request_id_invalid _ h in
      let (texts, h₂) = need-eq-ok _ execution_context_required _ h₁ in
      let (cap, _, h₃) = >>=-eq-ok (active o c.capability) _ h₂ in
      let (order, e₄, h₄) =
        >>=-eq-ok (the (Table.get (blank_or c.order_id) db.orders) order_not_found) _ h₃ in
      let (route, _, h₅) = >>=-eq-ok (order_context o db order (blank_or c.work_id) cap) _ h₄ in
      ok-subst (λ (p : Shape × Capability). IsAsked c p.0) h₅
        (asked c order route cap id_ok (both_texts c texts) (
          own (blank_or c.order_id) order
            (the-eq-ok (Table.get (blank_or c.order_id) db.orders) order_not_found e₄)))

  -- A fresh reservation: the row that is inserted and found.
  pub record IsFresh (c : Call) (at : String) (db' : Db) (a : Answer) : Type 0 where
    pub shape : Shape
    pub recovery : Option Snapshot
    pub is_asked : IsAsked c shape
    pub row_is : a.row ≡ reserved_row o shape recovery at
    pub found : request_row shape.request_id db'.requests ≡ some a.row

  inserted-fresh :
      (db db' : Db) (row : Request) (rows : Option (List Request)) (a : Answer)
      → insert_request row db.requests ≡ rows
      → inserted o db row rows ≡ (db', ok a)
      → (a.row ≡ row) × (request_row row.request_id db'.requests ≡ some a.row)
  unfolding inserted
  inserted-fresh db db' row none a made h = absurd (refuted refl h)
  inserted-fresh db db' row (some rows) a made h =
      let (same_db, same_out) = pair_eq h in
      let answer : ◌≡◌ {A = Answer}
          (record { status = "RESERVED"; replay = false; row = row; result = none }) a =
        ok-subst (λ x. record { status = "RESERVED"; replay = false; row = row; result = none } ≡ x)
          same_out refl in
      let same_row : row ≡ a.row = ap (λ (x : Answer). x.row) answer in
      let looked =
        request_row-insert_request row db.requests row.request_id rows made
        ∙ ap (λ b. if b then some row else request_row row.request_id db.requests)
            (eq_refl row.request_id) in
      (
        sym same_row,
        ap (λ (x : Db). request_row row.request_id x.requests) (sym same_db)
            ∙ looked
            ∙ ap some same_row,
      )

  -- Of an answer that is no replay.
  replays : (row : Request) (s : Shape) (a : Answer) → answer_again o row s ≡ ok a → a.replay ≡ true
  unfolding answer_again replay_of
  replays row s a h = elim (Bool-cases (row.payload_digest == s.payload_digest)) [
    | inl e ↦
        let made : answer_again o row s ≡ ok (replay_of row) = rw (e) refl in
        ok-subst (λ (x : Answer). x.replay ≡ true) (sym made ∙ h) refl
    | inr e ↦
        let made : answer_again o row s ≡ err idempotency_conflict = rw (e) refl in
        absurd (ground arith)
  ]

  not_replay :
      (row : Request) (s : Shape) (a : Answer) → answer_again o row s ≡ ok a → a.replay ≡ false → ⊥
  not_replay row s a h fresh = let both = sym (replays row s a h) ∙ fresh in absurd (cc)

  reserve_in-fresh :
      (db db' : Db) (s : Shape) (recovery : Option Snapshot) (at : String) (a : Answer)
      → reserve_in o db s recovery at ≡ (db', ok a)
      → a.replay ≡ false
      → (a.row ≡ reserved_row o s recovery at)
        × (request_row s.request_id db'.requests ≡ some a.row)
  unfolding reserve_in reserved_row
  reserve_in-fresh db db' s recovery at a h fresh =
      elim (Option-cases (request_row s.request_id db.requests)) [
        | inr (raced, e) ↦
            let made : reserve_in o db s recovery at ≡ (db, answer_again o raced s) =
              rw (e, reserve_in) refl in
            absurd (not_replay raced s a (pair_eq (sym made ∙ h)).1 fresh)
        | inl e ↦
            let row = reserved_row o s recovery at in
            let made : reserve_in o db s recovery at
                ≡ inserted o db row (insert_request row db.requests) =
              rw (e, reserve_in) refl in
            inserted-fresh db db' row (insert_request row db.requests) a refl (sym made ∙ h)
      ]

  after_snapshot-IsFresh :
      (db db' : Db) (c : Call) (s : Shape) (at : String)
      (r : Result CapabilityError (Option Snapshot)) (a : Answer)
      → IsAsked c s
      → after_snapshot o db s at r ≡ (db', ok a)
      → a.replay ≡ false
      → IsFresh c at db' a
  unfolding after_snapshot
  after_snapshot-IsFresh db db' c s at (err x) a asked h fresh = absurd (refuted refl h)
  after_snapshot-IsFresh db db' c s at (ok recovery) a asked h fresh =
      let (row_is, found) = reserve_in-fresh db db' s recovery at a h fresh in
      record { shape = s; recovery = recovery; is_asked = asked; row_is = row_is; found = found }

  -- What a reservation that is no replay has stored.
  pub reserve-IsFresh :
      (reader : ReceiptReader) (projects : Table Project) (now later db' : Db) (c : Call)
      (at : String) (a : Answer)
      → ((k : String) (order : Order) → Table.get k now.orders ≡ some order → order.id ≡ k)
      → reserve o reader projects now later c at ≡ (db', ok a)
      → a.replay ≡ false
      → IsFresh c at db' a
  unfolding reserve reserve_shape
  reserve-IsFresh reader projects now later db' c at a own h fresh =
      elim (Result-cases (asked_shape o now c)) [
        | inr (x, e) ↦
            let made : reserve o reader projects now later c at ≡ (later, err x) =
              rw (e, reserve) refl in
            absurd (refuted made h)
        | inl ((s, capability), e) ↦
            let asked = asked_shape-IsAsked now c s capability own e in
            let first : reserve o reader projects now later c at
                ≡ reserve_shape o reader projects now later s capability at =
              rw (e, reserve) refl in
            elim (Option-cases (request_row s.request_id now.requests)) [
              | inr (existing, f) ↦
                  let made : reserve_shape o reader projects now later s capability at
                      ≡ (later, answer_again o existing s) =
                    rw (f, reserve_shape) refl in
                  absurd (not_replay existing s a (pair_eq (sym made ∙ sym first ∙ h)).1 fresh)
              | inl f ↦
                  let r = prepared o reader projects s capability in
                  let made : reserve_shape o reader projects now later s capability at
                      ≡ after_snapshot o later s at r =
                    rw (f, reserve_shape) refl in
                  after_snapshot-IsFresh later db' c s at r a asked (sym made ∙ sym first ∙ h) fresh
            ]
      ]
