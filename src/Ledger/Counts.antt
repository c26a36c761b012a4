-- ===== src/Ledger/Counts.antt =====
-- What a replay of src/workflow/work-ledger-shadow.mjs keeps of its events: their number, the
-- engine's revision, the project, and whether a verification stands.
use ai_core.Base.{
  ℕ, ◌+◌, String, true, false, Option, none, some, List, [], ◌∷◌, ◌≡◌, refl, sym, ap, subst, ◌∙◌,
  arith, length, inl, inr, Bool-cases, Option-cases,
}
use ai_core.Base.Field.{null_value, or_null, is_text}
use ai_core.Base.Result.{Result, ok, err, >>=-eq-ok}
use ai_core.Json.{Json}
use ai_core.Workflow.Spec.{Workflow, Transition}
use ai_core.Workflow.Inspect.{Thrown}
use ai_core.Workflow.Decide.{Decision, Stamp, decide, previous_item}
use ai_core.Workflow.Decide.Acceptance.{decide-IsAdvance, decide_new}
use ai_core.Ledger.{
  inspect, adjudicate, adjudicate_typed, adjudicate_existing, applied_to, apply, replay_from,
  replay, valid, decided, rejected_by, engine_rejection, inspect_typed, find_first,
}
use ai_core.Ledger.Steps.{
  inspect_created, create_projection, advance_projection, next_verification, engine_request,
  ledger_host, is_reobservable_state,
}
use ai_core.Ledger.Events.{
  EventType, created, transitioned, blocked, resumed, cancelled, reobserved, other, LedgerEvent,
  WorkData, WorkProjection, LedgerInspection, Adjudication, Applied,
}

-- How many events the projection counts; none without a projection.
abbrev pub count_of : Option WorkProjection → ℕ
count_of none = 0
count_of (some p) = p.extra.event_count

-- After `n` events: the count is `n`, the engine's revision is one less, and a projection without a
-- verification names no verified revision.
pub IsCounted : ℕ → Option WorkProjection → Type 0
IsCounted n none = n ≡ 0
IsCounted n (some p) =
    (p.extra.event_count ≡ n)
    × (p.revision + 1 ≡ n)
    × ((p.extra.verification_captured ≡ false) → p.extra.verified_revision ≡ null_value)

-- A verification that is not captured names no revision, before and after.
next_verification-null :
    (e : LedgerEvent) (x : WorkData)
    → ((x.verification_captured ≡ false) → x.verified_revision ≡ null_value)
    → (next_verification e x).0 ≡ false
    → (next_verification e x).1 ≡ null_value
unfolding next_verification
next_verification-null e x h = elim (Bool-cases (is_text e.to_state "VERIFYING")) [
  | inl v ↦ rw (v) (λ k. absurd (cc))
  | inr v ↦ elim (Bool-cases (is_reobservable_state e.to_state)) [
    | inl r ↦ rw (v, r) (λ k. refl)
    | inr r ↦ rw (v, r) (λ k. ap or_null (h k))
  ]
]

created-IsCounted : (e : LedgerEvent) → IsCounted 1 (some (create_projection e))
unfolding create_projection IsCounted
created-IsCounted e = (refl, refl, λ _. refl)

advance-IsCounted :
    (e : LedgerEvent) (d : Decision WorkData) (n : ℕ) (p : WorkProjection)
    → IsCounted n (some p)
    → d.next_projection.revision ≡ p.revision + 1
    → IsCounted (n + 1) (some (advance_projection p e d))
unfolding advance_projection IsCounted
advance-IsCounted e d n p (count, revision, verified) next =
    (omega (arith, count), omega (arith, next, revision), next_verification-null e p.extra verified)

module _ (sha256_json : Json → String) (w : Workflow) where
  -- What an accepted adjudication decided: the first event, or an advance of the projection.
  Advances : Option WorkProjection → Adjudication → Type 0
  Advances none a = Unit
  Advances (some p) a =
      (d : Decision WorkData) × (a.decision ≡ some d)
      × (d.next_projection.revision ≡ p.revision + 1)

  engine_rejection-rejects :
      (i : LedgerInspection) (t : Thrown) (a : Adjudication)
      → engine_rejection sha256_json w i t ≡ ok a
      → a.accepted ≡ false
  unfolding engine_rejection rejected_by
  engine_rejection-rejects i t a h = ground arith

  -- The engine's request carries no history, so that what it decides is new.
  request-Advances :
      (stamp : Stamp) (p : WorkProjection) (e : LedgerEvent) (t : Transition)
      (d : Decision WorkData)
      → decide (ledger_host sha256_json) w stamp (engine_request p e t) ≡ ok d
      → d.next_projection.revision ≡ p.revision + 1
  unfolding engine_request previous_item
  request-Advances stamp p e t d h =
      let host = ledger_host sha256_json in
      let r = engine_request p e t in
      let a = decide-IsAdvance host w stamp r d h (decide_new host w stamp r d h refl) in
      let same : p ≡ a.before = cc (a.submitted) in
      a.revision ∙ ap (λ (q : WorkProjection). q.revision + 1) (sym same)

  decided-Advances :
      (stamp : Stamp) (p : WorkProjection) (e : LedgerEvent) (t : Transition) (i : LedgerInspection)
      (r : Result Thrown (Decision WorkData)) (a : Adjudication)
      → decide (ledger_host sha256_json) w stamp (engine_request p e t) ≡ r
      → decided sha256_json w i r ≡ ok a
      → a.accepted ≡ true
      → Advances (some p) a
  unfolding decided Advances
  decided-Advances stamp p e t i (ok d) a from h acc =
      (d, ground arith, request-Advances stamp p e t d from)
  decided-Advances stamp p e t i (err x) a from h acc =
      absurd (let k = engine_rejection-rejects i x a h in cc)

  adjudicate_existing-Advances :
      (stamp : Stamp) (p : Option WorkProjection) (e : LedgerEvent) (i : LedgerInspection)
      (a : Adjudication)
      → adjudicate_existing sha256_json w stamp p e i ≡ ok a
      → a.accepted ≡ true
      → Advances p a
  unfolding adjudicate_existing Advances rejected_by
  adjudicate_existing-Advances stamp none e i a h acc = tt
  adjudicate_existing-Advances stamp (some p) e i a h acc =
      elim (Option-cases (find_first sha256_json w i.transition_id)) [
        | inl n ↦ absurd (ground arith)
        | inr (t, f) ↦
            decided-Advances stamp p e t i
              (decide (ledger_host sha256_json) w stamp (engine_request p e t)) a refl
              (ground arith) acc
      ]

  created_twice :
      (p : WorkProjection) (e : LedgerEvent) → (inspect_created (some p) e).eligible ≡ false
  unfolding inspect_created
  created_twice p e = refl

  adjudicate_typed-Advances :
      (ty : EventType) (stamp : Stamp) (p : Option WorkProjection) (e : LedgerEvent)
      (i : LedgerInspection) (a : Adjudication)
      → inspect_typed sha256_json w ty p e ≡ ok i
      → i.eligible ≡ true
      → adjudicate_typed sha256_json w ty stamp p e i ≡ ok a
      → a.accepted ≡ true
      → Advances p a
  unfolding inspect_typed adjudicate_typed Advances
  adjudicate_typed-Advances created stamp none e i a f g h acc = tt
  adjudicate_typed-Advances created stamp (some p) e i a f g h acc =
      absurd (let k = created_twice p e in ground arith)
  adjudicate_typed-Advances transitioned stamp p e i a f g h acc =
      adjudicate_existing-Advances stamp p e i a h acc
  adjudicate_typed-Advances blocked stamp p e i a f g h acc =
      adjudicate_existing-Advances stamp p e i a h acc
  adjudicate_typed-Advances resumed stamp p e i a f g h acc =
      adjudicate_existing-Advances stamp p e i a h acc
  adjudicate_typed-Advances cancelled stamp p e i a f g h acc =
      adjudicate_existing-Advances stamp p e i a h acc
  adjudicate_typed-Advances reobserved stamp p e i a f g h acc =
      adjudicate_existing-Advances stamp p e i a h acc
  adjudicate_typed-Advances (other s) stamp p e i a f g h acc =
      adjudicate_existing-Advances stamp p e i a h acc

  adjudicate-Advances :
      (stamp : Stamp) (p : Option WorkProjection) (e : LedgerEvent) (a : Adjudication)
      → adjudicate sha256_json w stamp p e ≡ ok a
      → a.accepted ≡ true
      → Advances p a
  unfolding adjudicate inspect rejected_by
  adjudicate-Advances stamp p e a h acc =
      let (i, found, h₁) = >>=-eq-ok (inspect sha256_json w p (some e)) _ h in
      elim (Bool-cases i.eligible) [
        | inl good ↦ adjudicate_typed-Advances e.type stamp p e i a found good (ground arith) acc
        | inr bad ↦ absurd (ground arith)
      ]

  applied-IsCounted :
      (e : LedgerEvent) (a : Adjudication) (n : ℕ) (p : Option WorkProjection)
      → IsCounted n p
      → Advances p a
      → IsCounted (n + 1) (applied_to sha256_json w p e a)
  unfolding applied_to Advances IsCounted
  applied-IsCounted e a n none zero_ adv =
      let one : 1 ≡ n + 1 = omega (arith, zero_) in
      subst (λ m. IsCounted m (some (create_projection e))) one (created-IsCounted e)
  applied-IsCounted e a n (some p) c (d, has, next) = rw (has) (advance-IsCounted e d n p c next)

  apply-IsCounted :
      (stamp : Stamp) (e : LedgerEvent) (n : ℕ) (p : Option WorkProjection) (r : Applied)
      → IsCounted n p
      → apply sha256_json w stamp p e ≡ ok r
      → r.accepted ≡ true
      → IsCounted (n + 1) r.projection
  unfolding apply
  apply-IsCounted stamp e n p r c h acc =
      let (a, found, h₁) = >>=-eq-ok (adjudicate sha256_json w stamp p e) _ h in
      let same : a.accepted ≡ true = ground arith in
      let shown : applied_to sha256_json w p e a ≡ r.projection = ground arith in
      subst (IsCounted (n + 1)) shown
        (applied-IsCounted e a n p c (adjudicate-Advances stamp p e a found same))

  -- A replay that ends well has counted every event: with `n` events before it, `n` plus the number
  -- of its own after it.
  replay_from-IsCounted :
      (events : List (Stamp × LedgerEvent)) (index n : ℕ) (p q : Option WorkProjection)
      → IsCounted n p
      → replay_from sha256_json w index p events ≡ ok (valid q)
      → IsCounted (n + length events) q
  unfolding replay_from
  replay_from-IsCounted [] index n p q c h =
      let same : p ≡ q = cc in
      let none_ : n ≡ n + 0 = omega arith in
      subst (λ m. IsCounted m q) none_ (subst (IsCounted n) same c)
  replay_from-IsCounted ((stamp, e) ∷ events) index n p q c h =
      let (a, found, h₁) = >>=-eq-ok (apply sha256_json w stamp p e) _ h in
      elim (Bool-cases a.accepted) [
        | inl good ↦
            (let c' = apply-IsCounted stamp e n p a c found good in
              let all =
                replay_from-IsCounted events (index + 1) (n + 1) a.projection q c' (ground arith) in
              subst (λ m. IsCounted m q) (omega arith) all)
        | inr bad ↦ absurd (ground arith)
      ]

  -- A replay that ends well counts exactly its events, its revision is one less than their number,
  -- and where no verification is captured no verified revision is named.
  pub replay-IsCounted :
      (events : List (Stamp × LedgerEvent)) (q : Option WorkProjection)
      → replay sha256_json w events ≡ ok (valid q)
      → IsCounted (length events) q
  unfolding replay IsCounted
  replay-IsCounted events q h =
      subst (λ m. IsCounted m q) (omega arith) (replay_from-IsCounted events 0 0 none q refl h)
