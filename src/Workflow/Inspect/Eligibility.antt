-- ===== src/Workflow/Inspect/Eligibility.antt =====
-- What `inspectTransition` of src/workflow/engine.mjs demands, stated without its list of reasons.
use ai_core.Base.{
  String, true, Option, some, List, [], ◌∷◌, ◌++◌, ◌≡◌, ◌∙◌, refl, ◌↔◌, inl, inr, arith, In, All,
  includes_iff, is_empty, is_empty-append, Option-cases, same_text_iff,
}
use mathlib.Core.Bool.{and-eq-true_iff}
use ai_core.Base.Result.{Result, ok, >>=-eq-ok}
use ai_core.Base.Table
use ai_core.Base.Table.{Table, index_by}
use ai_core.Workflow.Spec.{
  Guard, EvidenceRequirement, Transition, Axis, Workflow, Projection, Evidence, Context,
}
use ai_core.Workflow.Inspect.{
  Reason, Thrown, Inspection, Host, evidence_map, current_state, from_state_reasons,
  permission_reasons, evidence_item_reasons, evidence_reasons, approval_reasons, guard_holds,
  guard_item_reasons, guard_reasons, inspect_on, inspect_transition,
}
use ai_core.Workflow.Inspect.Approvals.{approval_ok, approval_lem}

-- The workflow's requirement with this id is met by the evidence that was submitted under the id.
abbrev pub EvidenceMet : Table EvidenceRequirement → Table Evidence → String → Type 0
EvidenceMet requirements supplied id =
    (q : EvidenceRequirement) × (e : Evidence) × (Table.get id requirements ≡ some q)
    × (Table.get id supplied ≡ some e)
    × (e.verification ≡ some q.verification)

abbrev pub requirements_of : Workflow → Table EvidenceRequirement
requirements_of w = index_by (λ (e : EvidenceRequirement). e.evidence_id) w.evidence_requirements

abbrev pub axis_of : Workflow → Transition → Option Axis
axis_of w t = Table.get t.axis_id (index_by (λ (a : Axis). a.axis_id) w.state_axes)

module _ {G X : Type 0} (host : Host G X) (w : Workflow) where
  -- The workflow declares the guard, and it holds.
  abbrev pub GuardMet : Option (Projection X) → Transition → Context G → String → Type 0
  GuardMet p t c id =
      (g : Guard) × (Table.get id (index_by (λ (g : Guard). g.guard_id) w.guards) ≡ some g)
      × (guard_holds host w g c p t ≡ ok true)

  -- The transition is open to the projection.
  pub record IsOpen (p : Option (Projection X)) (t : Transition) (c : Context G) : Type 0 where
    pub axis : Axis
    pub axis_known : axis_of w t ≡ some axis
    pub from_state : In (current_state p axis) t.from
    pub permitted : All (λ q. In q c.permissions) t.permissions
    pub guarded : All (GuardMet p t c) t.guards
    pub evidenced :
        All (EvidenceMet (requirements_of w) (evidence_map c.evidence)) t.required_evidence
    pub approved : approval_ok t.approval c.approvals c.actor ≡ true

  guard_item_sound :
      (c : Context G) (p : Option (Projection X)) (t : Transition) (id : String)
      → guard_item_reasons host w c p t id ≡ ok []
      → GuardMet p t c id
  unfolding guard_item_reasons
  guard_item_sound c p t id h =
      elim (Option-cases (Table.get id (index_by (λ (g : Guard). g.guard_id) w.guards))) [
        | inl missing ↦ absurd (ground arith)
        | inr (g, found) ↦ (g, found, ground arith)
      ]

  append-eq-nil :
      (xs ys : List Reason)
      → ◌≡◌ {A = Result Thrown (List Reason)} (ok (xs ++ ys)) (ok [])
      → (xs ≡ []) × (ys ≡ [])
  append-eq-nil [] ys h = (refl, ground arith)
  append-eq-nil (x ∷ xs) ys h = absurd (cc)

  guards_sound :
      (c : Context G) (p : Option (Projection X)) (t : Transition) (ids : List String)
      → guard_reasons host w c p t ids ≡ ok []
      → All (GuardMet p t c) ids
  unfolding guard_reasons
  guards_sound c p t [] h = tt
  guards_sound c p t (id ∷ ids) h =
      let (here, item, h') = >>=-eq-ok (guard_item_reasons host w c p t id) _ h in
      let (later, rest, e) = >>=-eq-ok (guard_reasons host w c p t ids) _ h' in
      let (a, b) = append-eq-nil here later e in
      (guard_item_sound c p t id (rw a at item), guards_sound c p t ids (rw b at rest))

  guard_item_complete :
      (c : Context G) (p : Option (Projection X)) (t : Transition) (id : String)
      → GuardMet p t c id
      → guard_item_reasons host w c p t id ≡ ok []
  unfolding guard_item_reasons
  guard_item_complete c p t id (g, found, holds) = ground arith

  guards_complete :
      (c : Context G) (p : Option (Projection X)) (t : Transition) (ids : List String)
      → All (GuardMet p t c) ids
      → guard_reasons host w c p t ids ≡ ok []
  unfolding guard_reasons
  guards_complete c p t [] h = refl
  guards_complete c p t (id ∷ ids) (here, later) =
      rw (guard_item_complete c p t id here, guards_complete c p t ids later)

pub permissions_iff :
    (held ps : List String)
    → (is_empty (permission_reasons held ps) ≡ true) ↔ All (λ q. In q held) ps
unfolding permission_reasons
permissions_iff held [] = (λ h. tt, λ h. refl)
permissions_iff held (p ∷ ps) = grind (arith, permissions_iff held ps, includes_iff held p)

evidence_item_iff :
    (qs : Table EvidenceRequirement) (es : Table Evidence) (id : String)
    → (is_empty (evidence_item_reasons qs es id) ≡ true) ↔ EvidenceMet qs es id
unfolding evidence_item_reasons
evidence_item_iff qs es id = (sound, complete)
  where
    sound : is_empty (evidence_item_reasons qs es id) ≡ true → EvidenceMet qs es id
    sound h = elim (Option-cases (Table.get id qs)) [
      | inl missing ↦ absurd (ground arith)
      | inr (q, known) ↦ elim (Option-cases (Table.get id es)) [
        | inl missing ↦ absurd (ground arith)
        | inr (e, supplied) ↦ (
          q,
          e,
          known,
          supplied,
          ground (arith, same_text_iff e.verification (some q.verification)),
        )
      ]
    ]

    complete : EvidenceMet qs es id → is_empty (evidence_item_reasons qs es id) ≡ true
    complete (q, e, known, supplied, same) =
        ground (arith, same_text_iff e.verification (some q.verification))

evidence_iff :
    (qs : Table EvidenceRequirement) (es : Table Evidence) (ids : List String)
    → (is_empty (evidence_reasons qs es ids) ≡ true) ↔ All (EvidenceMet qs es) ids
unfolding evidence_reasons
evidence_iff qs es [] = (λ h. tt, λ h. refl)
evidence_iff qs es (id ∷ ids) =
    let ih = evidence_iff qs es ids in
    let item = evidence_item_iff qs es id in
    (
      λ h.
          let (here, later) = (and-eq-true_iff _ _).0 (rw is_empty-append at h) in
          (item.0 here, ih.0 later),
      λ h. rw (is_empty-append, item.1 h.0) (ih.1 h.1),
    )

pub from_iff :
    (t : Transition) (s : String) → (is_empty (from_state_reasons t s) ≡ true) ↔ In s t.from
unfolding from_state_reasons
from_iff t s = ground (arith, includes_iff t.from s)

pub all_empty :
    (a b c d e : List Reason)
    → is_empty (a ++ b ++ c ++ d ++ e) ≡ true
    → (is_empty a ≡ true)
      × (is_empty b ≡ true)
      × (c ≡ [])
      × (is_empty d ≡ true)
      × (is_empty e ≡ true)
all_empty [] [] [] [] [] h = (refl, refl, refl, refl, refl)
all_empty [] [] [] [] (x ∷ e) h = absurd (cc)
all_empty [] [] [] (x ∷ d) e h = absurd (cc)
all_empty [] [] (x ∷ c) d e h = absurd (cc)
all_empty [] (x ∷ b) c d e h = absurd (cc)
all_empty (x ∷ a) b c d e h = absurd (cc)

nil_of_empty : (xs : List Reason) → is_empty xs ≡ true → xs ≡ []
nil_of_empty [] h = refl
nil_of_empty (x ∷ xs) h = absurd (cc)

all_nil :
    (a b d e : List Reason) → a ≡ [] → b ≡ [] → d ≡ [] → e ≡ [] → (a ++ b ++ [] ++ d ++ e) ≡ []
all_nil a b d e p q r s = rw (p, q, r, s)

module _ {G X : Type 0} (host : Host G X) (w : Workflow) where
  on_sound :
      (p : Option (Projection X)) (t : Transition) (c : Context G) (axis : Axis) (i : Inspection)
      → axis_of w t ≡ some axis
      → inspect_on host w p t c axis ≡ ok i
      → i.eligible ≡ true
      → IsOpen host w p t c
  unfolding inspect_on
  on_sound p t c axis i known h e =
      let (guards, ran, built) = >>=-eq-ok (guard_reasons host w c p t t.guards) _ h in
      let (a, b, g, d, f) =
        all_empty (from_state_reasons t (current_state p axis))
          (permission_reasons c.permissions t.permissions) guards
          (evidence_reasons (requirements_of w) (evidence_map c.evidence) t.required_evidence)
          (approval_reasons t.approval c.approvals c.actor) (ground arith) in
      record {
        axis = axis;
        axis_known = known;
        from_state = (from_iff t (current_state p axis)).0 a;
        permitted = (permissions_iff c.permissions t.permissions).0 b;
        guarded = guards_sound host w c p t t.guards (rw g at ran);
        evidenced =
            (evidence_iff (requirements_of w) (evidence_map c.evidence) t.required_evidence).0 d;
        approved = rw (approval_lem t.approval c.approvals c.actor) at f;
      }

  reasons_nil :
      (p : Option (Projection X)) (t : Transition) (c : Context G) (o : IsOpen host w p t c)
      → (from_state_reasons t (current_state p o.axis)
          ++ permission_reasons c.permissions t.permissions
          ++ []
          ++ evidence_reasons (requirements_of w) (evidence_map c.evidence) t.required_evidence
          ++ approval_reasons t.approval c.approvals c.actor)
        ≡ []
  reasons_nil p t c o =
      all_nil _ _ _ _ (nil_of_empty _ ((from_iff t (current_state p o.axis)).1 o.from_state))
        (nil_of_empty _ ((permissions_iff c.permissions t.permissions).1 o.permitted))
        (nil_of_empty _ (
          (evidence_iff (requirements_of w) (evidence_map c.evidence) t.required_evidence).1
            o.evidenced))
        (nil_of_empty _ (approval_lem t.approval c.approvals c.actor ∙ o.approved))

  -- An inspection that comes out eligible has found the transition open.
  pub inspect_sound :
      (p : Option (Projection X)) (t : Transition) (c : Context G) (i : Inspection)
      → inspect_transition host w p t c ≡ ok i
      → i.eligible ≡ true
      → IsOpen host w p t c
  unfolding inspect_transition
  inspect_sound p t c i h e = elim (Option-cases (axis_of w t)) [
    | inl unknown ↦ absurd (ground arith)
    | inr (axis, known) ↦ on_sound p t c axis i known (ground arith) e
  ]

  -- The inspection of an open transition, in full.
  pub inspect_complete :
      (p : Option (Projection X)) (t : Transition) (c : Context G) (o : IsOpen host w p t c)
      → inspect_transition host w p t c
        ≡ ok (record {
          eligible = true;
          reasons = [];
          from_state = some (current_state p o.axis);
          to_state = some t.to;
        })
  unfolding inspect_transition inspect_on
  inspect_complete p t c o =
      rw (o.axis_known, inspect_transition)
        (rw (guards_complete host w c p t t.guards o.guarded) (rw (reasons_nil p t c o)))

  -- Whether a transition is open is decided by the inspection.
  pub inspect_iff :
      (p : Option (Projection X)) (t : Transition) (c : Context G)
      → ((i : Inspection) × (inspect_transition host w p t c ≡ ok i) × (i.eligible ≡ true))
        ↔ IsOpen host w p t c
  inspect_iff p t c =
      (λ (i, ran, e). inspect_sound p t c i ran e, λ o. (_, inspect_complete p t c o, refl))
