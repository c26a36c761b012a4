-- ===== src/Capability/Reconcile/Verified.antt =====
-- When `reconcile` of src/engine/capability-execution-coordinator.mjs settles a request.
use ai_core.Base.{
  String, true, false, Option, some, ◌==◌, ◌≡◌, refl, ap, subst, sym, ◌∙◌, inl, inr, Bool-cases,
  Option-cases, if◌then◌else◌,
}
use ai_core.Base.Result.{Result, ok, err}
use ai_core.Base.Table.{Table}
use ai_core.Workflow.Spec.{Workflow}
use ai_core.Workflow.Inspect.{Host}
use ai_core.Workflow.Decide.{Stamp}
use ai_core.Workflow.Execution.{WorkResult}
use ai_core.Capability.Receipt.{Runtime}
use ai_core.Capability.Recovery.{Project, Snapshot}
use ai_core.Capability.Store.{Request, Db, request_row}
use ai_core.Capability.Reserve.{CapabilityError, ReceiptReader}
use ai_core.Capability.Complete.{complete}
use ai_core.Capability.Reconcile.{
  Paths, Judgement, held, observed, judge, reconcile, settle, saved, observed_ref, terminal_result,
}
use ai_core.Base.{Bool, not, ◌&&◌, eq_iff, arith}
use ai_core.Base.Field.{is_text}
use ai_core.Json.{obj, Fields, canonical, field_at}
use ai_core.Base.Table
use ai_core.Capability.Receipt.{digest}
use ai_core.Capability.Reconcile.{
  Reconciliation, hold, result, is_same_binding, judge_observation, root_of, is_lost, text_or,
}
use ai_core.Capability.Recovery.{
  recovery_binding, parse_snapshot, Parsed, invalid, missing, snapshot,
}
use ai_core.Capability.Reserve.{Observation, reader_failed, refuted, pair_eq}

result_eq :
    {a b : Option WorkResult}
    → ◌≡◌ {A = Result CapabilityError Reconciliation} (ok (result a)) (ok (result b))
    → a ≡ b
result_eq h = cc

held_result :
    (reason : String) (a : Option WorkResult)
    → ◌≡◌ {A = Result CapabilityError Reconciliation} (ok (hold reason)) (ok (result a))
    → ⊥
held_result reason a h = absurd (cc)

and_parts : (a b : Bool) → (a && b) ≡ true → (a ≡ true) × (b ≡ true)
and_parts a b h = (ground (arith, h), ground (arith, h))

module _ (o : Runtime) (projects : Table Project) (reader : ReceiptReader) where
  -- The project of the row is registered with the digest of the binding that the snapshot holds.
  pub record IsBound (row : Request) (s : Snapshot) : Type 0 where
    pub current : Fields
    pub registered : recovery_binding o (Table.get row.project_id projects) ≡ some current
    pub own : is_text (field_at "project_id" s.project_binding) row.project_id ≡ true
    pub same_digest : digest o (obj current) ≡ digest o (obj s.project_binding)

  -- The project of the row is registered with the id, the repository and the path of the binding that
  -- the snapshot holds: the two bindings are the same up to the order of their properties.
  pub record IsRegistered (row : Request) (s : Snapshot) : Type 0 where
    pub current : Fields
    pub registered : recovery_binding o (Table.get row.project_id projects) ≡ some current
    pub own : is_text (field_at "project_id" s.project_binding) row.project_id ≡ true
    pub same : canonical (obj current) ≡ canonical (obj s.project_binding)

  -- The binding that the row stores and the one of the registered project do not have the same digest
  -- and a different content.
  unfoldable pub NoCollision : Request → Type 0
  NoCollision row =
      (s : Snapshot) (current : Fields)
      → parse_snapshot o row.before_receipts ≡ snapshot s
      → recovery_binding o (Table.get row.project_id projects) ≡ some current
      → digest o (obj current) ≡ digest o (obj s.project_binding)
      → canonical (obj current) ≡ canonical (obj s.project_binding)

  is_same_binding-IsBound :
      (row : Request) (s : Snapshot) → is_same_binding o projects row s ≡ true → IsBound row s
  unfolding is_same_binding
  is_same_binding-IsBound row s h =
      elim (Option-cases (recovery_binding o (Table.get row.project_id projects))) [
        | inl e ↦
            let made : is_same_binding o projects row s ≡ false = rw (is_same_binding, e) refl in
            absurd (let bad : false ≡ true = sym made ∙ h in cc)
        | inr (current, e) ↦
            let made : is_same_binding o projects row s ≡ (
                is_text (field_at "project_id" s.project_binding) row.project_id
                && digest o (obj current) == digest o (obj s.project_binding)) =
              rw (is_same_binding, e) refl in
            let (own, digests) =
              and_parts (is_text (field_at "project_id" s.project_binding) row.project_id)
                (digest o (obj current) == digest o (obj s.project_binding)) (sym made ∙ h) in
            record {
              current = current;
              registered = e;
              own = own;
              same_digest =
                  (eq_iff (digest o (obj current)) (digest o (obj s.project_binding))).0 digests;
            }
      ]

  -- What a judgement that is no reason to hold rests on.
  pub record IsVerified (row : Request) (s : Snapshot) (obs : Observation) : Type 0 where
    pub stored : parse_snapshot o row.before_receipts ≡ snapshot s
    pub bound : IsBound row s
    pub read : reader.reconcile (root_of o projects s) s.receipt s.before row.request_id ≡ some obs
    pub verified : obs.identity_verified ≡ true
    pub not_lost : is_lost obs ≡ false

  Judged : Request → Result CapabilityError (Judgement o projects) → Type 0
  Judged row (err e) = Unit
  Judged row (ok (held reason)) = Unit
  Judged row (ok (observed s obs)) = IsVerified row s obs

  judge_observation-Judged :
      (row : Request) (s : Snapshot) (obs : Observation)
      → parse_snapshot o row.before_receipts ≡ snapshot s
      → is_same_binding o projects row s ≡ true
      → reader.reconcile (root_of o projects s) s.receipt s.before row.request_id ≡ some obs
      → Judged row (ok (judge_observation o projects s obs))
  unfolding judge_observation Judged
  judge_observation-Judged row s obs stored same read = elim (Bool-cases (is_lost obs)) [
    | inl lost ↦ rw (lost) tt
    | inr found ↦ elim (Bool-cases obs.identity_verified) [
      | inr other ↦
          let made : ok (judge_observation o projects s obs)
              ≡ ok (held (text_or obs.reason "EXECUTION_RECEIPT_IDENTITY_UNVERIFIED")) =
            ap
              (λ b. ok (
                if is_lost obs
                then held "EXECUTION_OUTCOME_UNKNOWN"
                else if not b
                then held (text_or obs.reason "EXECUTION_RECEIPT_IDENTITY_UNVERIFIED")
                else observed s obs))
              other
            ∙ rw (found) refl in
          subst (Judged row) (sym made) tt
      | inl own ↦
          let made : ok (judge_observation o projects s obs) ≡ ok (observed s obs) =
            ap
              (λ b. ok (
                if is_lost obs
                then held "EXECUTION_OUTCOME_UNKNOWN"
                else if not b
                then held (text_or obs.reason "EXECUTION_RECEIPT_IDENTITY_UNVERIFIED")
                else observed s obs))
              own
            ∙ rw (found) refl in
          subst (Judged row) (sym made) (record {
            stored = stored;
            bound = is_same_binding-IsBound row s same;
            read = read;
            verified = own;
            not_lost = found;
          })
    ]
  ]

  snapshot-Judged :
      (row : Request) (s : Snapshot)
      → parse_snapshot o row.before_receipts ≡ snapshot s
      → Judged row (judge o projects reader row)
  unfolding judge Judged
  snapshot-Judged row s stored = elim (Bool-cases (is_same_binding o projects row s)) [
    | inr other ↦
        let made : judge o projects reader row ≡ ok (held "PROJECT_RECOVERY_BINDING_DRIFT") =
          rw (stored, judge, other) refl in
        subst (Judged row) (sym made) tt
    | inl same ↦
        elim (Option-cases
          (reader.reconcile (root_of o projects s) s.receipt s.before row.request_id)) [
            | inl e ↦
                let made : judge o projects reader row ≡ err reader_failed =
                  rw (stored, judge, same, e) refl in
                subst (Judged row) (sym made) tt
            | inr (obs, e) ↦
                let made : judge o projects reader row ≡ ok (judge_observation o projects s obs) =
                  rw (stored, judge, same, e) refl in
                subst (Judged row) (sym made) (judge_observation-Judged row s obs stored same e)
          ]
  ]

  judge-Judged :
      (row : Request) (p : Parsed)
      → parse_snapshot o row.before_receipts ≡ p
      → Judged row (judge o projects reader row)
  unfolding judge Judged
  judge-Judged row invalid e =
      let made : judge o projects reader row ≡ ok (held "CAPABILITY_RECOVERY_METADATA_INVALID") =
        rw (e, judge) refl in
      subst (Judged row) (sym made) tt
  judge-Judged row missing e =
      let made : judge o projects reader row ≡ ok (held "CAPABILITY_RECOVERY_METADATA_MISSING") =
        rw (e, judge) refl in
      subst (Judged row) (sym made) tt
  judge-Judged row (snapshot s) e = snapshot-Judged row s e

  module _ (paths : Paths) (host : Host (Unit {0}) (Unit {0})) (workflow : Workflow) where
    -- The completion by which `reconcile` settles a row.
    pub record IsSettled (row : Request) (later db' : Db) (stamp : Stamp)
        (saved_as : Option WorkResult) : Type 0 where
      pub stored : Snapshot
      pub observation : Observation
      pub is_verified : IsVerified row stored observation
      pub completed :
          complete o host workflow later stamp row.request_id
            (some (
              terminal_result row stored observation
                (observed_ref o projects reader paths host workflow stored observation)
                stamp.now))
            (some "RECONCILED_FROM_TERMINAL_RECEIPT")
          ≡ (db', ok saved_as)

    saved-eq-ok :
        (out : Db × Result CapabilityError (Option WorkResult)) (db' : Db)
        (saved_as : Option WorkResult)
        → saved o projects reader paths host workflow out ≡ (db', ok (result saved_as))
        → out ≡ (db', ok saved_as)
    unfolding saved
    saved-eq-ok (db, err e) db' saved_as h = absurd (refuted refl h)
    saved-eq-ok (db, ok r) db' saved_as h =
        let (same_db, same_out) = pair_eq h in
        ap (λ x. (x, ok r)) same_db ∙ ap (λ v. (db', ok v)) (result_eq same_out)

    settle-IsSettled :
        (row : Request) (later db' : Db) (stamp : Stamp)
        (j : Result CapabilityError (Judgement o projects)) (saved_as : Option WorkResult)
        → Judged row j
        → settle o projects reader paths host workflow later stamp row j
          ≡ (db', ok (result saved_as))
        → IsSettled row later db' stamp saved_as
    unfolding settle Judged
    settle-IsSettled row later db' stamp (err e) saved_as d h = absurd (refuted refl h)
    settle-IsSettled row later db' stamp (ok (held reason)) saved_as d h =
        absurd (held_result reason saved_as (pair_eq h).1)
    settle-IsSettled row later db' stamp (ok (observed s obs)) saved_as d h = record {
      stored = s;
      observation = obs;
      is_verified = d;
      completed = saved-eq-ok _ db' saved_as h;
    }

    -- A reconciliation that settles a request that had no result is an `IsSettled`.
    pub reconcile_row :
        (now later db' : Db) (stamp : Stamp) (id : String) (row : Request)
        (saved_as : Option WorkResult)
        → request_row id now.requests ≡ some row
        → row.state == "RESULT" ≡ false
        → reconcile o projects reader paths host workflow now later stamp id
          ≡ (db', ok (result saved_as))
        → IsSettled row later db' stamp saved_as
    unfolding reconcile
    reconcile_row now later db' stamp id row saved_as found waiting h =
        let made : reconcile o projects reader paths host workflow now later stamp id
            ≡ settle o projects reader paths host workflow later stamp row
                (judge o projects reader row) =
          rw (found, reconcile, waiting) refl in
        settle-IsSettled row later db' stamp (judge o projects reader row) saved_as
          (judge-Judged row (parse_snapshot o row.before_receipts) refl) (sym made ∙ h)

    -- A reconciliation that settles a request that had no result does so by a receipt that was read for
    -- that request, from the snapshot stored with it, whose identity was verified, while its project is
    -- registered with the id, the repository and the path that the snapshot holds, provided that the two
    -- bindings do not have the same digest and a different content; what it returns is what the
    -- completion saves.
    pub reconcile-IsSettled :
        (now later db' : Db) (stamp : Stamp) (id : String) (row : Request)
        (saved_as : Option WorkResult)
        → request_row id now.requests ≡ some row
        → row.state == "RESULT" ≡ false
        → NoCollision row
        → reconcile o projects reader paths host workflow now later stamp id
          ≡ (db', ok (result saved_as))
        → (x : IsSettled row later db' stamp saved_as) × IsRegistered row x.stored
    unfolding NoCollision
    reconcile-IsSettled now later db' stamp id row saved_as found waiting apart h =
        let x = reconcile_row now later db' stamp id row saved_as found waiting h in
        let b = x.is_verified.bound in
        (
          x,
          record {
            current = b.current;
            registered = b.registered;
            own = b.own;
            same = apart x.stored b.current x.is_verified.stored b.registered b.same_digest;
          },
        )
