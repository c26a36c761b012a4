-- ===== src/Workflow/Decide/Overrides.antt =====
-- The limits of a manual override in `decide` of src/workflow/engine.mjs.
use ai_core.Base.{
  String, Bool, true, false, Option, none, some, List, [], ◌∷◌, ◌++◌, ◌≡◌, refl, inl, inr, arith,
  In, All, keep, is_empty, Bool-cases, Option-cases,
}
use ai_core.Base.Result.{ok, >>=-eq-ok, need-eq-ok}
use ai_core.Base.Table.{Table}
use ai_core.Workflow.Spec.{Approval, ApprovalItem, Transition, Axis, Workflow, Projection, Context}
use ai_core.Workflow.Inspect.{
  Reason, Inspection, Host, current_state, evidence_map, from_state_reasons, permission_reasons,
  guard_reasons, evidence_reasons, missing_roles, role_reasons, duty_reasons, approval_reasons,
  approvals_by_role, inspect_on, inspect_transition, manual_override_not_allowed,
}
use ai_core.Workflow.Inspect.Approvals.{approval_ok, approval_lem}
use ai_core.Workflow.Inspect.Eligibility.{
  IsOpen, axis_of, requirements_of, inspect_sound, permissions_iff, from_iff, all_empty,
}
use ai_core.Workflow.Decide.{
  Decision, Request, Stamp, is_remaining, override_permissions, override_step, settle, context_of,
  decide, find_transition,
}
use ai_core.Workflow.Decide.Acceptance.{decide-IsAccepted}

keep-append : (f : Reason → Bool) (xs ys : List Reason) → keep f (xs ++ ys) ≡ keep f xs ++ keep f ys
keep-append f [] ys = refl
keep-append f (x ∷ xs) ys = ground (arith, keep-append f xs ys)

keep_parts :
    (f : Reason → Bool) (a b c d e : List Reason)
    → keep f (a ++ b ++ c ++ d ++ e) ≡ keep f a ++ keep f b ++ keep f c ++ keep f d ++ keep f e
keep_parts f a b c d e = simp keep-append

-- No list of these reasons disappears under an override: its first reason stays.
abbrev stays : List String → List Reason → Bool
stays bypass [] = true
stays bypass (x ∷ xs) = is_remaining bypass x

stays_lem :
    (bypass : List String) (xs : List Reason)
    → stays bypass xs ≡ true
    → is_empty (keep (is_remaining bypass) xs) ≡ true
    → is_empty xs ≡ true
stays_lem bypass [] s h = refl
stays_lem bypass (x ∷ xs) s h = ground arith

from_stays :
    (b : List String) (t : Transition) (s : String) → stays b (from_state_reasons t s) ≡ true
unfolding from_state_reasons is_remaining
from_stays b t s = ground arith

permissions_stay : (b held ps : List String) → stays b (permission_reasons held ps) ≡ true
unfolding permission_reasons is_remaining
permissions_stay b held [] = refl
permissions_stay b held (p ∷ ps) = ground (arith, permissions_stay b held ps)

roles_stay :
    (b : List String) (m : Table (List String)) (rs : List String)
    → stays b (missing_roles m rs) ≡ true
unfolding missing_roles is_remaining
roles_stay b m [] = refl
roles_stay b m (r ∷ rs) = ground (arith, roles_stay b m rs)

stays-append :
    (b : List String) (xs ys : List Reason)
    → stays b xs ≡ true
    → stays b ys ≡ true
    → stays b (xs ++ ys) ≡ true
stays-append b [] ys h k = k
stays-append b (x ∷ xs) ys h k = h

role_reasons_stay :
    (b : List String) (a : Approval) (m : Table (List String)) → stays b (role_reasons a m) ≡ true
unfolding role_reasons is_remaining
role_reasons_stay b a m = ground (arith, roles_stay b m a.required_roles)

duty_reasons_stay :
    (b : List String) (a : Approval) (m : Table (List String)) (actor : Option String)
    → stays b (duty_reasons a m actor) ≡ true
unfolding duty_reasons is_remaining
duty_reasons_stay b a m none = refl
duty_reasons_stay b a m (some actor) = ground arith

approvals_stay :
    (b : List String) (a : Approval) (items : List ApprovalItem) (actor : Option String)
    → stays b (approval_reasons a items actor) ≡ true
unfolding approval_reasons
approvals_stay b a items actor = ground (
  arith,
  stays-append b (role_reasons a (approvals_by_role items))
      (duty_reasons a (approvals_by_role items) actor)
      (role_reasons_stay b a (approvals_by_role items))
      (duty_reasons_stay b a (approvals_by_role items) actor),
)

-- What holds of a transition that was taken, with an override or without one.
pub record IsEnforced {G X : Type 0} (w : Workflow) (p : Option (Projection X)) (t : Transition)
    (c : Context G) : Type 0 where
  pub axis : Axis
  pub axis_known : axis_of w t ≡ some axis
  pub from_state : In (current_state p axis) t.from
  pub permitted : All (λ q. In q c.permissions) t.permissions
  pub approved : approval_ok t.approval c.approvals c.actor ≡ true

module _ {G X : Type 0} (host : Host G X) (w : Workflow) where
  -- All reasons of an inspection are lifted by the override.
  abbrev IsLifted : Transition → Inspection → Type 0
  IsLifted t i = is_empty (keep (is_remaining t.manual_override.can_bypass) i.reasons) ≡ true

  override_lifts :
      (r : Request G X) (t : Transition) (i : Inspection)
      → override_step host w r t i.reasons ≡ ok tt
      → IsLifted t i
  unfolding override_step
  override_lifts r t i h =
      let (a, h₁) = need-eq-ok t.manual_override.allowed manual_override_not_allowed _ h in
      let (u, b, h₂) =
        >>=-eq-ok (override_permissions r.permissions t.manual_override.permissions) _ h₁ in
      ground arith

  settle_lifts :
      (r : Request G X) (t : Transition) (i : Inspection)
      → settle host w r t i ≡ ok tt
      → i.eligible ≡ false
      → IsLifted t i
  unfolding settle
  settle_lifts r t i h e = elim (Bool-cases r.override) [
    | inl asked ↦ override_lifts r t i (ground arith)
    | inr plain ↦ absurd (ground arith)
  ]

  lifted_on :
      (p : Option (Projection X)) (t : Transition) (c : Context G) (axis : Axis) (i : Inspection)
      → axis_of w t ≡ some axis
      → inspect_on host w p t c axis ≡ ok i
      → IsLifted t i
      → IsEnforced w p t c
  unfolding inspect_on
  lifted_on p t c axis i known h lifted =
      let b = t.manual_override.can_bypass in
      let k = keep (is_remaining b) in
      let (guards, ran, built) = >>=-eq-ok (guard_reasons host w c p t t.guards) _ h in
      let fs = from_state_reasons t (current_state p axis) in
      let ps = permission_reasons c.permissions t.permissions in
      let es = evidence_reasons (requirements_of w) (evidence_map c.evidence) t.required_evidence in
      let as' = approval_reasons t.approval c.approvals c.actor in
      let (f, q, g, e, a) =
        all_empty (k fs) (k ps) (k guards) (k es) (k as')
          (rw (← keep_parts (is_remaining b) fs ps guards es as') (ground arith)) in
      record {
        axis = axis;
        axis_known = known;
        from_state =
            (from_iff t (current_state p axis)).0
              (stays_lem b fs (from_stays b t (current_state p axis)) f);
        permitted =
            (permissions_iff c.permissions t.permissions).0
              (stays_lem b ps (permissions_stay b c.permissions t.permissions) q);
        approved =
            rw approval_lem at
              (stays_lem b as' (approvals_stay b t.approval c.approvals c.actor) a);
      }

  lifted_sound :
      (p : Option (Projection X)) (t : Transition) (c : Context G) (i : Inspection)
      → inspect_transition host w p t c ≡ ok i
      → IsLifted t i
      → IsEnforced w p t c
  unfolding inspect_transition is_remaining
  lifted_sound p t c i h lifted = elim (Option-cases (axis_of w t)) [
    | inl unknown ↦ absurd (ground arith)
    | inr (axis, known) ↦ lifted_on p t c axis i known (ground arith) lifted
  ]

  open-IsEnforced :
      (p : Option (Projection X)) (t : Transition) (c : Context G)
      → IsOpen host w p t c
      → IsEnforced w p t c
  open-IsEnforced p t c o = record {
    axis = o.axis;
    axis_known = o.axis_known;
    from_state = o.from_state;
    permitted = o.permitted;
    approved = o.approved;
  }

  -- A fresh result, with an override or without one, means that the current state is one that the
  -- transition starts from, that every permission of the transition is held, and that its approval
  -- policy is satisfied: an override lifts guards and evidence at most.
  pub decide-IsEnforced :
      (stamp : Stamp) (r : Request G X) (d : Decision X)
      → decide host w stamp r ≡ ok d
      → d.replayed ≡ false
      → (p : Projection X) × (t : Transition) × (r.projection ≡ some p)
        × (find_transition w r.transition_id ≡ some t)
        × IsEnforced w (some p) t (context_of host w r)
  decide-IsEnforced stamp r d h new =
      let a = decide-IsAccepted host w stamp r d h new in
      (
        a.projection,
        a.transition,
        a.well_formed.projection,
        a.well_formed.transition,
        elim (Bool-cases a.inspection.eligible) [
          | inl eligible ↦ open-IsEnforced (some a.projection) a.transition (context_of host w r) (
              inspect_sound host w (some a.projection) a.transition (context_of host w r)
                a.inspection a.inspected eligible)
          | inr barred ↦
              lifted_sound (some a.projection) a.transition (context_of host w r) a.inspection
                a.inspected (settle_lifts r a.transition a.inspection a.settled barred)
        ],
      )
