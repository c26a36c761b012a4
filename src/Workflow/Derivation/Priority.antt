-- ===== src/Workflow/Derivation/Priority.antt =====
-- Which rule src/workflow/projection.mjs chooses.
use ai_core.Base.{
  ℕ, ◌≤◌, Bool, true, false, Option, none, some, List, [], ◌∷◌, ◌≡◌, subst, ap, ◌↔◌, ◌⊎◌, inl, inr,
  arith, leb, find, In, find-In, find-passes, Bool-cases, Option-cases,
}
use ai_core.Workflow.Derivation.{
  Rule, DerivationSpec, Facts, rule_matches, insert_rule, sort_rules, derive, derived_from,
}

In-insert_rule_iff :
    (r s : Rule) (rules : List Rule) → In r (insert_rule s rules) ↔ ((s ≡ r) ⊎ In r rules)
unfolding insert_rule
In-insert_rule_iff r s [] = (λ h. h, λ h. h)
In-insert_rule_iff r s (t ∷ rules) = grind (arith, In-insert_rule_iff r s rules)

In-sort_rules_iff : (r : Rule) (rules : List Rule) → In r (sort_rules rules) ↔ In r rules
unfolding sort_rules
In-sort_rules_iff r [] = (λ h. h, λ h. h)
In-sort_rules_iff r (s ∷ rules) =
    grind (arith, In-sort_rules_iff r rules, In-insert_rule_iff r s (sort_rules rules))

-- Every rule of a list has at least this priority.
Above : ℕ → List Rule → Type 0
Above n rules = (r : Rule) → In r rules → n ≤ r.priority

-- Each rule has at most the priority of every later one.
Sorted : List Rule → Type 0
Sorted [] = Unit
Sorted (r ∷ rules) = Above r.priority rules × Sorted rules

Above-insert_rule :
    (n : ℕ) (s : Rule) (rules : List Rule)
    → n ≤ s.priority
    → Above n rules
    → Above n (insert_rule s rules)
unfolding Above
Above-insert_rule n s rules h a r i = elim ((In-insert_rule_iff r s rules).0 i) [
  | inl e ↦ subst (λ (x : Rule). n ≤ x.priority) e h
  | inr j ↦ a r j
]

leb-cases : (a b : ℕ) → ((leb a b ≡ true) × (a ≤ b)) ⊎ ((leb a b ≡ false) × (b ≤ a))
leb-cases a b = ground arith

insert_rule-Sorted : (s : Rule) (rules : List Rule) → Sorted rules → Sorted (insert_rule s rules)
unfolding Sorted Above insert_rule
insert_rule-Sorted s [] h = ((λ r i. absurd i), tt)
insert_rule-Sorted s (t ∷ rules) (above, h) = elim (leb-cases s.priority t.priority) [
  | inl (e, le) ↦ rw (e) (
    (λ r. elim [
      | inl same ↦ subst (λ (x : Rule). s.priority ≤ x.priority) same le
      | inr later ↦ (let k = above r later in omega arith)
    ]),
    (above, h),
  )
  | inr (e, ge) ↦
      rw (e) (Above-insert_rule t.priority s rules ge above, insert_rule-Sorted s rules h)
]

sort_rules-Sorted : (rules : List Rule) → Sorted (sort_rules rules)
unfolding sort_rules Sorted
sort_rules-Sorted [] = tt
sort_rules-Sorted (r ∷ rules) = insert_rule-Sorted r (sort_rules rules) (sort_rules-Sorted rules)

-- The first rule of a sorted list that passes a test has the least priority of those that do.
find-least :
    (p : Rule → Bool) (rules : List Rule) (chosen r : Rule)
    → Sorted rules
    → find p rules ≡ some chosen
    → In r rules
    → p r ≡ true
    → chosen.priority ≤ r.priority
unfolding Sorted Above
find-least p [] chosen r s f i h = absurd i
find-least p (x ∷ rules) chosen r (above, s) f (inl same) h = ground arith
find-least p (x ∷ rules) chosen r (above, s) f (inr i) h = elim (Bool-cases (p x)) [
  | inl e ↦ (let k = above r i in ground arith)
  | inr e ↦ find-least p rules chosen r s (ground arith) i h
]

find-none :
    (p : Rule → Bool) (rules : List Rule) (r : Rule)
    → find p rules ≡ none
    → In r rules
    → p r ≡ false
find-none p [] r f i = absurd i
find-none p (x ∷ rules) r f i = ground (arith, find-none p rules r)

chosen_of : DerivationSpec → Facts → Option Rule
chosen_of spec c = find (rule_matches c) (sort_rules spec.rules)

-- When some rule of the specification matches, the projection is the result of a rule that matches
-- and whose priority is the least among the rules that match.
pub derive-least :
    (spec : DerivationSpec) (c : Facts) (r : Rule)
    → In r spec.rules
    → rule_matches c r ≡ true
    → (chosen : Rule) × In chosen spec.rules
      × (rule_matches c chosen ≡ true)
      × ((derive spec c).value ≡ chosen.result)
      × ((derive spec c).matched_rule_id ≡ some chosen.rule_id)
      × ((other : Rule)
          → In other spec.rules
          → rule_matches c other ≡ true
          → chosen.priority ≤ other.priority)
unfolding derive derived_from chosen_of
derive-least spec c r i h =
    let rules = sort_rules spec.rules in
    elim (Option-cases (chosen_of spec c)) [
      | inl n ↦ absurd (
          let f = find-none (rule_matches c) rules r n ((In-sort_rules_iff r spec.rules).1 i) in cc)
      | inr (chosen, e) ↦ (
        chosen,
        (In-sort_rules_iff chosen spec.rules).0 (find-In (rule_matches c) rules e),
        find-passes (rule_matches c) rules e,
        ap (λ o. (derived_from spec o).value) e,
        ap (λ o. (derived_from spec o).matched_rule_id) e,
        λ other j k.
            find-least (rule_matches c) rules chosen other (sort_rules-Sorted spec.rules) e
              ((In-sort_rules_iff other spec.rules).1 j) k,
      )
    ]

-- When no rule of the specification matches, the projection is the default result and names no rule.
pub derive_default :
    (spec : DerivationSpec) (c : Facts)
    → ((r : Rule) → In r spec.rules → rule_matches c r ≡ false)
    → ((derive spec c).value ≡ spec.default_result) × ((derive spec c).matched_rule_id ≡ none)
unfolding derive derived_from chosen_of
derive_default spec c h =
    let rules = sort_rules spec.rules in
    elim (Option-cases (chosen_of spec c)) [
      | inl n ↦ (
        ap (λ o. (derived_from spec o).value) n,
        ap (λ o. (derived_from spec o).matched_rule_id) n,
      )
      | inr (chosen, e) ↦ absurd (
          let k =
            h chosen ((In-sort_rules_iff chosen spec.rules).0 (find-In (rule_matches c) rules e)) in
          let k' = find-passes (rule_matches c) rules e in cc)
    ]
