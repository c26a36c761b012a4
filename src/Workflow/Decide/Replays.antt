-- ===== src/Workflow/Decide/Replays.antt =====
-- Idempotency keys in `decide` of src/workflow/engine.mjs.
use ai_core.Base.{
  ℕ, String, true, false, Option, none, some, List, ◌∷◌, ◌≡◌, refl, sym, ap, ◌∙◌, arith, eq_refl,
  truthy, same_text_iff,
}
use ai_core.Base.Result.{ok}
use ai_core.Workflow.Spec.{Transition, Workflow, Projection}
use ai_core.Workflow.Inspect.{Host}
use ai_core.Workflow.Decide.{
  Decision, HistoryItem, Request, Stamp, Identity, accepted, decide, decide_known, previous_item,
  previous_fingerprint, intent_identity,
}
use ai_core.Workflow.Decide.Acceptance.{IsAccepted, IsWellFormed, decide-IsAccepted}

-- What a caller keeps of a request and its result.
abbrev pub kept : {G X : Type 0} → Request G X → Decision X → HistoryItem X
kept r d = record { idempotency_key = r.idempotency_key; intent_fingerprint = none; result = d }

-- The same request sent again at a later state of the entity, with the first result in the history.
abbrev pub again :
    {G X : Type 0}
    → Request G X
    → Decision X
    → Projection X
    → Option ℕ
    → List (HistoryItem X)
    → Request G X
again r d p expected older = record r {
  projection = some p;
  expected_revision = expected;
  history = kept r d ∷ older;
}

previous_item_first :
    {X : Type 0} (item : HistoryItem X) (items : List (HistoryItem X)) (key : Option String)
    → truthy key ≡ true
    → item.idempotency_key ≡ key
    → previous_item key (item ∷ items) ≡ some item
unfolding previous_item
previous_item_first item items key h e = ground (arith, same_text_iff item.idempotency_key key)

module _ {G X : Type 0} (host : Host G X) (w : Workflow) where
  -- A request that passes the tests on its form is answered by `decide_known`.
  pub decide_of_known :
      (stamp : Stamp) (r : Request G X) (p : Projection X) (t : Transition)
      → IsWellFormed host w r p t
      → decide host w stamp r
        ≡ decide_known host w stamp r p t (previous_item r.idempotency_key r.history)
  unfolding decide
  decide_of_known stamp r p t f =
      rw (f.projection, f.transition, f.command_id, f.command_known, f.key)

  again-IsWellFormed :
      (r : Request G X) (p p' : Projection X) (t : Transition) (d : Decision X)
      (expected : Option ℕ) (older : List (HistoryItem X))
      → IsWellFormed host w r p t
      → IsWellFormed host w (again r d p' expected older) p' t
  again-IsWellFormed r p p' t d expected older f = record {
    projection = refl;
    transition = f.transition;
    command_id = f.command_id;
    command = f.command;
    command_known = f.command_known;
    key = f.key;
  }

  same_intent :
      (r : Request G X) (d : Decision X) (p' : Projection X) (expected : Option ℕ)
      (older : List (HistoryItem X)) (e e' : Option String)
      → e ≡ e'
      → intent_identity host w r e ≡ intent_identity host w (again r d p' expected older) e'
  unfolding intent_identity
  same_intent r d p' expected older e e' h =
      ap (λ (x : Option String). intent_identity host w r x) h

  known_replay :
      (stamp : Stamp) (r : Request G X) (p : Projection X) (t : Transition) (item : HistoryItem X)
      → previous_fingerprint item ≡ (intent_identity host w r p.entity_id).intent_fingerprint
      → decide_known host w stamp r p t (some item) ≡ ok (record item.result { replayed = true })
  unfolding decide_known
  known_replay stamp r p t item e = rw (e, eq_refl)

  entity_of :
      (stamp : Stamp) (r : Request G X) (d : Decision X) (a : IsAccepted host w stamp r d)
      → d.next_projection.entity_id ≡ a.projection.entity_id
  unfolding accepted
  entity_of stamp r d a = ap (λ (d : Decision X). d.next_projection.entity_id) (sym a.result)

  fingerprint_of :
      (stamp : Stamp) (r : Request G X) (d : Decision X) (a : IsAccepted host w stamp r d)
      → previous_fingerprint (kept r d)
        ≡ (intent_identity host w r a.projection.entity_id).intent_fingerprint
  unfolding accepted previous_fingerprint
  fingerprint_of stamp r d a = ap (λ (d : Decision X). d.intent_fingerprint) (sym a.result)

  -- A request with an idempotency key that was accepted once and is sent again for the same entity,
  -- whatever the entity's revision and state are by then and whatever revision the caller expects,
  -- gets its first result, marked as a replay.
  pub decide-again :
      (stamp later : Stamp) (r : Request G X) (d : Decision X) (p : Projection X)
      (expected : Option ℕ) (older : List (HistoryItem X))
      → decide host w stamp r ≡ ok d
      → d.replayed ≡ false
      → truthy r.idempotency_key ≡ true
      → p.entity_id ≡ d.next_projection.entity_id
      → decide host w later (again r d p expected older) ≡ ok (record d { replayed = true })
  decide-again stamp later r d p expected older h new key same_entity =
      let a = decide-IsAccepted host w stamp r d h new in
      let entity : p.entity_id ≡ a.projection.entity_id = same_entity ∙ entity_of stamp r d a in
      decide_of_known later (again r d p expected older) p a.transition
        (again-IsWellFormed r a.projection p a.transition d expected older a.well_formed)
      ∙ ap (decide_known host w later (again r d p expected older) p a.transition)
          (previous_item_first (kept r d) older r.idempotency_key key refl)
      ∙ known_replay later (again r d p expected older) p a.transition (kept r d) (
          fingerprint_of stamp r d a
          ∙ ap (λ (i : Identity). i.intent_fingerprint)
              (same_intent r d p expected older a.projection.entity_id p.entity_id (sym entity)))
