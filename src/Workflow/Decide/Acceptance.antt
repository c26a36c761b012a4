-- ===== src/Workflow/Decide/Acceptance.antt =====
-- What an accepted request of `decide` (src/workflow/engine.mjs) has passed, and what it yields.
use ai_core.Base.{
  ℕ, ◌+◌, String, true, false, not, ◌||◌, Option, none, some, ◌≡◌, refl, ap, subst, ◌==◌, inl, inr,
  arith, eq_iff, eqb_iff, truthy, is_content, Option-cases, if◌then◌else◌,
}
use ai_core.Base.Result.{Result, ok, ◌>>=◌, >>=-eq-ok, need-eq-ok}
use ai_core.Base.Table
use ai_core.Workflow.Spec.{Command, Transition, Workflow, Projection}
use ai_core.Workflow.Inspect.{
  Thrown, Inspection, Host, inspect_transition, version_mismatch, audit_reason_required,
  projection_required, transition_unknown, command_transition_mismatch, command_unknown,
  idempotency_key_required, idempotency_conflict,
}
use ai_core.Workflow.Inspect.Eligibility.{IsOpen, inspect_sound}
use ai_core.Workflow.Decide.{
  Decision, HistoryItem, Request, Stamp, required, revision_matches, context_of, accepted, settle,
  decide_fresh, decide_known, find_transition, find_command, decide, previous_item,
  previous_fingerprint, intent_identity,
}

required-eq-ok :
    {A : Type 0} {B : Type 0} (o : Option A) (e : Thrown) (f : A → Result Thrown B) {b : B}
    → (required o e >>= f) ≡ ok b
    → (a : A) × (o ≡ some a) × (f a ≡ ok b)
required-eq-ok none e f h = cc
required-eq-ok (some a) e f h = (a, refl, h)

module _ {G X : Type 0} (host : Host G X) (w : Workflow) where
  -- The tests that stand before the idempotency test.
  pub record IsWellFormed (r : Request G X) (p : Projection X) (t : Transition) : Type 0 where
    pub projection : r.projection ≡ some p
    pub transition : find_transition w r.transition_id ≡ some t
    pub command_id : (t.command_id == r.command_id) ≡ true
    pub command : Command
    pub command_known : find_command w r.command_id ≡ some command
    pub key : (not command.idempotency_required || truthy r.idempotency_key) ≡ true

  pub decide-known :
      (stamp : Stamp) (r : Request G X) (d : Decision X)
      → decide host w stamp r ≡ ok d
      → (p : Projection X) × (t : Transition) × IsWellFormed r p t
        × (decide_known host w stamp r p t (previous_item r.idempotency_key r.history) ≡ ok d)
  unfolding decide
  decide-known stamp r d h =
      let (p, has_p, h₁) = required-eq-ok r.projection projection_required _ h in
      let (t, has_t, h₂) =
        required-eq-ok (find_transition w r.transition_id) transition_unknown _ h₁ in
      let (same, h₃) = need-eq-ok (t.command_id == r.command_id) command_transition_mismatch _ h₂ in
      let (c, has_c, h₄) = required-eq-ok (find_command w r.command_id) command_unknown _ h₃ in
      let (key, h₅) =
        need-eq-ok (not c.idempotency_required || truthy r.idempotency_key) idempotency_key_required
          _ h₄ in
      (
        p,
        t,
        record {
          projection = has_p;
          transition = has_t;
          command_id = same;
          command = c;
          command_known = has_c;
          key = key;
        },
        h₅,
      )

  -- What a request has passed that gets a fresh result: the tests on its form, the revision test,
  -- an inspection that is open or overridden, and the demand for a reason.
  pub record IsAccepted (stamp : Stamp) (r : Request G X) (d : Decision X) : Type 0 where
    pub projection : Projection X
    pub transition : Transition
    pub well_formed : IsWellFormed r projection transition
    pub revision : revision_matches r.expected_revision projection.revision ≡ true
    pub inspection : Inspection
    pub inspected :
        inspect_transition host w (some projection) transition (context_of host w r) ≡ ok inspection
    pub settled : settle host w r transition inspection ≡ ok tt
    pub reason : (not transition.reason_required || is_content r.reason) ≡ true
    pub result : accepted host w stamp r projection transition inspection.from_state ≡ d

  fresh_inversion :
      (stamp : Stamp) (r : Request G X) (p : Projection X) (t : Transition) (d : Decision X)
      → IsWellFormed r p t
      → decide_fresh host w stamp r p t ≡ ok d
      → IsAccepted stamp r d
  unfolding decide_fresh
  fresh_inversion stamp r p t d wf h =
      let (revision, h₁) =
        need-eq-ok (revision_matches r.expected_revision p.revision) version_mismatch _ h in
      let (i, inspected, h₂) =
        >>=-eq-ok (inspect_transition host w (some p) t (context_of host w r)) _ h₁ in
      let (u, settled, h₃) = >>=-eq-ok (settle host w r t i) _ h₂ in
      let (reason, h₄) =
        need-eq-ok (not t.reason_required || is_content r.reason) audit_reason_required _ h₃ in
      record {
        projection = p;
        transition = t;
        well_formed = wf;
        revision = revision;
        inspection = i;
        inspected = inspected;
        settled = settled;
        reason = reason;
        result = ground arith;
      }

  -- An answer from the history is marked as a replay, and its intent is the one on record.
  pub known_inversion :
      (stamp : Stamp) (r : Request G X) (p : Projection X) (t : Transition) (item : HistoryItem X)
      (d : Decision X)
      → decide_known host w stamp r p t (some item) ≡ ok d
      → (previous_fingerprint item ≡ (intent_identity host w r p.entity_id).intent_fingerprint)
        × (record item.result { replayed = true } ≡ d)
  unfolding decide_known
  known_inversion stamp r p t item d h =
      let (same, h') =
        need-eq-ok
          (previous_fingerprint item == (intent_identity host w r p.entity_id).intent_fingerprint)
          idempotency_conflict _ h in
      ((eq_iff _ _).0 same, ground arith)

  -- A result that is no replay was accepted afresh.
  pub decide-IsAccepted :
      (stamp : Stamp) (r : Request G X) (d : Decision X)
      → decide host w stamp r ≡ ok d
      → d.replayed ≡ false
      → IsAccepted stamp r d
  decide-IsAccepted stamp r d h new =
      let (p, t, wf, known) = decide-known stamp r d h in
      elim (Option-cases (previous_item r.idempotency_key r.history)) [
        | inl first ↦ fresh_inversion stamp r p t d wf (unfold decide_known in rw first at known)
        | inr (item, before) ↦
            let (_, e) = known_inversion stamp r p t item d (rw before at known) in
            absurd (cc (ap (λ (d : Decision X). d.replayed) e))
      ]

  accepted_replayed :
      (stamp : Stamp) (r : Request G X) (p : Projection X) (t : Transition) (from : Option String)
      → (accepted host w stamp r p t from).replayed ≡ false
  unfolding accepted
  accepted_replayed stamp r p t from = refl

  -- Where the history does not know the key, a result is no replay.
  pub decide_new :
      (stamp : Stamp) (r : Request G X) (d : Decision X)
      → decide host w stamp r ≡ ok d
      → previous_item r.idempotency_key r.history ≡ none
      → d.replayed ≡ false
  decide_new stamp r d h first =
      let (p, t, wf, known) = decide-known stamp r d h in
      let a = fresh_inversion stamp r p t d wf (unfold decide_known in rw first at known) in
      subst (λ (x : Decision X). x.replayed ≡ false) a.result
        (accepted_replayed stamp r a.projection a.transition a.inspection.from_state)

  -- An accepted request moves the projection one revision on, sets the state of the transition's
  -- axis to its target, leaves every other state and all other data, and records the same in the
  -- event and in the audit.
  pub record IsAdvance (r : Request G X) (d : Decision X) : Type 0 where
    pub before : Projection X
    pub taken : Transition
    pub submitted : r.projection ≡ some before
    pub known : find_transition w r.transition_id ≡ some taken
    pub expected : r.expected_revision ≡ some before.revision
    pub revision : d.next_projection.revision ≡ before.revision + 1
    pub states :
        (a : String)
        → Table.get a d.next_projection.states
          ≡ (if taken.axis_id == a then some taken.to else Table.get a before.states)
    pub entity : d.next_projection.entity_id ≡ before.entity_id
    pub extra : d.next_projection.extra ≡ before.extra
    pub recorded : d.event.change.resulting_revision ≡ d.next_projection.revision
    pub to_state : d.event.change.to_state ≡ taken.to
    pub same_record : d.audit.change ≡ d.event.change

  revision_eq : (o : Option ℕ) (n : ℕ) → revision_matches o n ≡ true → o ≡ some n
  unfolding revision_matches
  revision_eq none n h = absurd (cc)
  revision_eq (some m) n h = ap some ((eqb_iff m n).0 h)

  accepted-IsAdvance :
      (stamp : Stamp) (r : Request G X) (p : Projection X) (t : Transition) (from : Option String)
      → r.projection ≡ some p
      → find_transition w r.transition_id ≡ some t
      → r.expected_revision ≡ some p.revision
      → IsAdvance r (accepted host w stamp r p t from)
  unfolding accepted
  accepted-IsAdvance stamp r p t from submitted known expected = record {
    before = p;
    taken = t;
    submitted = submitted;
    known = known;
    expected = expected;
    revision = refl;
    states = λ a. Table.get-put t.axis_id a t.to p.states;
    entity = refl;
    extra = refl;
    recorded = refl;
    to_state = refl;
    same_record = refl;
  }

  -- A fresh result of `decide` is an advance of the submitted projection by the named transition:
  -- the caller's expected revision was the current one, the revision goes up by one, only the
  -- transition's axis changes, and event and audit agree with the new projection.
  pub decide-IsAdvance :
      (stamp : Stamp) (r : Request G X) (d : Decision X)
      → decide host w stamp r ≡ ok d
      → d.replayed ≡ false
      → IsAdvance r d
  decide-IsAdvance stamp r d h new =
      let a = decide-IsAccepted stamp r d h new in
      subst (IsAdvance r) a.result (
        accepted-IsAdvance stamp r a.projection a.transition a.inspection.from_state
          a.well_formed.projection a.well_formed.transition
          (revision_eq r.expected_revision a.projection.revision a.revision))

  settle_plain :
      (r : Request G X) (t : Transition) (i : Inspection)
      → r.override ≡ false
      → settle host w r t i ≡ ok tt
      → i.eligible ≡ true
  unfolding settle
  settle_plain r t i plain h = ground arith

  -- Without an override, a fresh result means that the transition was open.
  pub decide-IsOpen :
      (stamp : Stamp) (r : Request G X) (d : Decision X)
      → decide host w stamp r ≡ ok d
      → d.replayed ≡ false
      → r.override ≡ false
      → (p : Projection X) × (t : Transition) × (r.projection ≡ some p)
        × (find_transition w r.transition_id ≡ some t)
        × IsOpen host w (some p) t (context_of host w r)
  decide-IsOpen stamp r d h new plain =
      let a = decide-IsAccepted stamp r d h new in
      (
        a.projection,
        a.transition,
        a.well_formed.projection,
        a.well_formed.transition,
        inspect_sound host w (some a.projection) a.transition (context_of host w r) a.inspection
            a.inspected (settle_plain r a.transition a.inspection plain a.settled),
      )
