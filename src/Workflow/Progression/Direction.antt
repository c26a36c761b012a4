-- ===== src/Workflow/Progression/Direction.antt =====
-- The outcomes of src/workflow/progression.mjs: which moves are planned, and what a plan carries.
use ai_core.Base.{
  ℕ, zero, suc, ◌+◌, ◌-◌, ◌≤◌, ◌<◌, String, Bool, true, not, ◌&&◌, some, List, [], ◌∷◌, ◌≡◌, refl,
  sym, subst, ◌∙◌, ◌↔◌, ◌⊎◌, inl, inr, ◌==◌, arith, ltb, take, drop, length, is_empty, Bool-cases,
  Option-cases,
}
use ai_core.Base.Table.{Table}
use ai_core.Json.{Json}
use ai_core.Workflow.Progression.{
  ProgressionSpec, planned, Plan, same, forward_skip, index_of, skipped, plan_of, plan_between,
  plan_progression, kind_of,
}

length-take : {A : Type 0} (n : ℕ) (xs : List A) → n ≤ length xs → length (take n xs) ≡ n
length-take zero xs h = refl
length-take (suc n) [] h = omega arith
length-take (suc n) (x ∷ xs) h = ground (arith, length-take n xs)

length-drop : {A : Type 0} (n : ℕ) (xs : List A) → length (drop n xs) ≡ length xs - n
length-drop zero xs = omega arith
length-drop (suc n) [] = omega arith
length-drop (suc n) (x ∷ xs) = omega (arith, length-drop n xs)

index_of_bound : (xs : List String) (s : String) (i : ℕ) → index_of xs s ≡ some i → i < length xs
unfolding index_of
index_of_bound [] s i h = absurd (cc)
index_of_bound (x ∷ xs) s i h = elim (Bool-cases (x == s)) [
  | inl e ↦ ground arith
  | inr e ↦ elim (Option-cases (index_of xs s)) [
    | inl n ↦ absurd (ground arith)
    | inr (j, f) ↦ (let b = index_of_bound xs s j f in ground arith)
  ]
]

-- The states between two positions of the ordered states are as many as lie strictly between them.
length-skipped :
    (spec : ProgressionSpec) (from to : ℕ)
    → to < length spec.ordered_states
    → length (skipped spec from to) ≡ to - (from + 1)
unfolding skipped
length-skipped spec from to h =
    length-take (to - (from + 1)) (drop (from + 1) spec.ordered_states)
      (omega (arith, length-drop (from + 1) spec.ordered_states))

is_empty_iff : {A : Type 0} (xs : List A) → (is_empty xs ≡ true) ↔ (length xs ≡ 0)
is_empty_iff [] = (λ h. refl, λ h. refl)
is_empty_iff (x ∷ xs) = (λ h. absurd (cc), λ h. absurd (omega arith))

skips :
    (spec : ProgressionSpec) (from to : ℕ)
    → to < length spec.ordered_states
    → (is_empty (skipped spec from to) ≡ true) ↔ (to ≤ from + 1)
skips spec from to b =
    ground (arith, is_empty_iff (skipped spec from to), length-skipped spec from to b)

allowed : Bool → Bool → Bool → Bool
allowed is_before has_skips may_skip = not is_before && not (has_skips && not may_skip)

-- The choice of `plan_between`, on the three tests it makes.
plan_between_choice :
    (spec : ProgressionSpec) (target : String) (facts : Table Json) (from to : ℕ)
    → allowed (ltb to from) (not (is_empty (skipped spec from to))) spec.allow_forward_skip ≡ true
    → plan_between spec target facts from to ≡ planned (plan_of spec target facts from to)
unfolding plan_between allowed
plan_between_choice spec target facts from to h = ground arith

plan_between_inversion :
    (spec : ProgressionSpec) (target : String) (facts : Table Json) (from to : ℕ) (plan : Plan)
    → plan_between spec target facts from to ≡ planned plan
    → (allowed (ltb to from) (not (is_empty (skipped spec from to))) spec.allow_forward_skip ≡ true)
      × (plan_of spec target facts from to ≡ plan)
unfolding plan_between allowed
plan_between_inversion spec target facts from to plan h = ground arith

allowed_iff :
    (spec : ProgressionSpec) (from to : ℕ)
    → to < length spec.ordered_states
    → (allowed (ltb to from) (not (is_empty (skipped spec from to))) spec.allow_forward_skip ≡ true)
      ↔ ((from ≤ to) × ((to ≤ from + 1) ⊎ (spec.allow_forward_skip ≡ true)))
unfolding allowed
allowed_iff spec from to b = ground (arith, skips spec from to b)

plan_of-skips :
    (spec : ProgressionSpec) (target : String) (facts : Table Json) (from to : ℕ)
    → to < length spec.ordered_states
    → (length (plan_of spec target facts from to).skipped_states ≡ to - (from + 1))
      × (((plan_of spec target facts from to).kind ≡ same) ↔ (from ≡ to))
      × (((plan_of spec target facts from to).kind ≡ forward_skip) ↔ (from + 1 < to))
unfolding plan_of kind_of
plan_of-skips spec target facts from to b =
    ground (arith, length-skipped spec from to b, skips spec from to b)

plan_at :
    (spec : ProgressionSpec) (current target : String) (facts : Table Json) (from to : ℕ)
    → index_of spec.ordered_states current ≡ some from
    → index_of spec.ordered_states target ≡ some to
    → plan_progression spec current target facts ≡ plan_between spec target facts from to
unfolding plan_progression
plan_at spec current target facts from to f t = rw (f, t, plan_progression) refl

module _ (spec : ProgressionSpec) (current target : String) (facts : Table Json) (from to : ℕ) where
  -- For two states of the specification, at positions `from` and `to`, a plan is made exactly when
  -- the target does not lie before the current state and either no state is skipped or the
  -- specification allows forward skips.
  pub plan_progression_iff :
      index_of spec.ordered_states current ≡ some from
      → index_of spec.ordered_states target ≡ some to
      → ((plan : Plan) × (plan_progression spec current target facts ≡ planned plan))
        ↔ ((from ≤ to) × ((to ≤ from + 1) ⊎ (spec.allow_forward_skip ≡ true)))
  plan_progression_iff f t =
      let b = index_of_bound spec.ordered_states target to t in
      let e = plan_at spec current target facts from to f t in
      (
        λ (plan, h).
            (allowed_iff spec from to b).0
              (plan_between_inversion spec target facts from to plan (sym e ∙ h)).0,
        λ h. (
          plan_of spec target facts from to,
          e ∙ plan_between_choice spec target facts from to ((allowed_iff spec from to b).1 h),
        ),
      )

  -- A plan lists as many skipped states as lie strictly between the two positions, it is of the
  -- kind that stays exactly when the positions are equal, and of the kind that skips exactly when
  -- the target lies more than one position ahead.
  pub plan_progression-skips :
      (plan : Plan)
      → index_of spec.ordered_states current ≡ some from
      → index_of spec.ordered_states target ≡ some to
      → plan_progression spec current target facts ≡ planned plan
      → (length plan.skipped_states ≡ to - (from + 1))
        × ((plan.kind ≡ same) ↔ (from ≡ to))
        × ((plan.kind ≡ forward_skip) ↔ (from + 1 < to))
  plan_progression-skips plan f t h =
      let b = index_of_bound spec.ordered_states target to t in
      let e = plan_at spec current target facts from to f t in
      let (_, p) = plan_between_inversion spec target facts from to plan (sym e ∙ h) in
      subst
        (λ (q : Plan).
          (length q.skipped_states ≡ to - (from + 1))
          × ((q.kind ≡ same) ↔ (from ≡ to))
          × ((q.kind ≡ forward_skip) ↔ (from + 1 < to)))
        p (plan_of-skips spec target facts from to b)
