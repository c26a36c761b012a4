-- ===== src/Authority/Approval/Justified.antt =====
-- What an allowed bundle of src/security/approval-policy.mjs has to show.
use ai_core.Base.{
  ℕ, ◌≤◌, Bool, true, false, Option, none, some, ◌≡◌, refl, ap, ◌∙◌, eq_iff, In-keep_iff, find-none,
  ◌⊎◌, inl, inr, ◌==◌, arith, find, length, truthy, In, Bool-cases, Option-cases,
}
use ai_core.Base.Field.{is_given}
use ai_core.Base.Result.{ok, >>=-eq-ok, need-eq-ok}
use ai_core.Authority.Approval.{
  Bundle, Policy, Emergency, Review, Subject, Verdict, alive, valid_reviews, independent_reviews,
  standard_path, emergency_path, judge_emergency, judge, ttl_valid, evaluate_approval_bundle,
  assert_subject_matches, is_allowed,
}

module _ (b : Bundle) (p : Policy) (now : ℕ) where
  -- The independent reviews and the owner's approval that the policy asks for.
  pub IsReviewed : Type 0
  IsReviewed =
      (p.independent_review_count ≤ length (independent_reviews b now))
      × ((p.human_approval_required ≡ true) → alive b.owner_expires_at now ≡ true)

  -- An emergency approval that the policy admits.
  pub IsEmergency : Emergency → Type 0
  IsEmergency e =
      (alive e.expires_at now ≡ true)
      × (p.emergency_override.allowed ≡ true)
      × (ttl_valid e.approved_at e.expires_at p.emergency_override.max_ttl_seconds ≡ true)
      × ((p.emergency_override.command_binding_required ≡ true)
          → is_given b.subject.command_digest ≡ true)
      × ((p.human_approval_required ≡ true) → truthy e.approver_id ≡ true)

  standard_path-IsReviewed : is_allowed (standard_path b p now) ≡ true → IsReviewed
  unfolding standard_path IsReviewed
  standard_path-IsReviewed h = ground arith

  emergency_path-IsEmergency :
      (e : Emergency)
      → alive e.expires_at now ≡ true
      → is_allowed (emergency_path b p e now) ≡ true
      → IsEmergency e
        × ((p.emergency_override.bypass_independent_review ≡ true)
            ⊎ (is_allowed (standard_path b p now) ≡ true))
  unfolding emergency_path IsEmergency
  emergency_path-IsEmergency e a h = ground arith

  judge_emergency-IsReviewed :
      (o : Option Emergency)
      → is_allowed (judge_emergency b p now o) ≡ true
      → IsReviewed
        ⊎ ((e : Emergency) × (o ≡ some e)
            × IsEmergency e
            × (p.emergency_override.bypass_independent_review ≡ true))
  unfolding judge_emergency
  judge_emergency-IsReviewed none h = inl (standard_path-IsReviewed h)
  judge_emergency-IsReviewed (some e) h = elim (Bool-cases (alive e.expires_at now)) [
    | inr dead ↦ inl (standard_path-IsReviewed (ground arith))
    | inl a ↦
        (let (is, way) = emergency_path-IsEmergency e a (ground arith) in
          elim way [
            | inl bypass ↦ inr (e, refl, is, bypass)
            | inr standard ↦ inl (standard_path-IsReviewed standard)
          ])
  ]

  -- No review that is alive blocks.
  pub IsUnblocked : Type 0
  IsUnblocked =
      (r : Review)
      → In r b.reviews
      → alive r.expires_at now ≡ true
      → (r.decision == "BLOCK") ≡ false

  is_block : Review → Bool
  is_block r = r.decision == "BLOCK"

  unblocked : find is_block (valid_reviews b now) ≡ none → IsUnblocked
  unfolding IsUnblocked valid_reviews is_block
  unblocked h r i a =
      find-none is_block (valid_reviews b now) h
        ((In-keep_iff (λ (r : Review). alive r.expires_at now) r b.reviews).1 (i, a))

  judge-IsReviewed :
      is_allowed (judge b p now) ≡ true
      → IsUnblocked
        × (IsReviewed
            ⊎ ((e : Emergency) × (b.emergency_approval ≡ some e)
                × IsEmergency e
                × (p.emergency_override.bypass_independent_review ≡ true)))
  unfolding judge is_block
  judge-IsReviewed h = elim (Option-cases (find is_block (valid_reviews b now))) [
    | inl e ↦ (unblocked e, judge_emergency-IsReviewed b.emergency_approval (ground arith))
    | inr (r, e) ↦ absurd (ground arith)
  ]

  -- When a bundle is allowed, it names the policy and its risk class, no review that is alive
  -- blocks, and it has either the independent reviews and the owner's approval that the policy asks
  -- for, or an emergency approval that the policy admits and lets replace the reviews.
  pub evaluate-IsReviewed :
      (expected : Subject) (v : Verdict)
      → evaluate_approval_bundle b p expected now ≡ ok v
      → is_allowed v ≡ true
      → (b.policy_id ≡ p.policy_id)
        × (b.risk_class ≡ p.risk_class)
        × IsUnblocked
        × (IsReviewed
            ⊎ ((e : Emergency) × (b.emergency_approval ≡ some e)
                × IsEmergency e
                × (p.emergency_override.bypass_independent_review ≡ true)))
  unfolding evaluate_approval_bundle
  evaluate-IsReviewed expected v h a =
      let (same_policy, h₁) = need-eq-ok (b.policy_id == p.policy_id) _ _ h in
      let (same_class, h₂) = need-eq-ok (b.risk_class == p.risk_class) _ _ h₁ in
      let (_, _, h₃) = >>=-eq-ok (assert_subject_matches b.subject expected) _ h₂ in
      let verdict : judge b p now ≡ v = ground arith in
      let (free, way) = judge-IsReviewed (ap is_allowed verdict ∙ a) in
      (
        (eq_iff b.policy_id p.policy_id).0 same_policy,
        (eq_iff b.risk_class p.risk_class).0 same_class,
        free,
        way,
      )
