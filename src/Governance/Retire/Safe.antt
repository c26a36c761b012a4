-- ===== src/Governance/Retire/Safe.antt =====
-- What src/development/continuity-audit.mjs selects may be retired.
use ai_core.Base.{
  ℕ, zero, suc, ◌-◌, ◌≤◌, ◌⊎◌, String, Bool, true, false, not, ◌&&◌, ◌||◌, Option, none, some, List,
  [], ◌∷◌, ◌==◌, ◌≡◌, refl, ap, subst, sym, ◌∙◌, arith, inl, inr, In, keep, map, In-keep_iff,
  map-In, In-sort_by, truthy, same_text, same_text_iff, Bool-cases, Option-cases,
}
use ai_core.Base.Table
use ai_core.Base.Table.{Table, index_by, get-from_entries}
use ai_core.Governance.Retire.{
  Branch, Retirement, is_candidate, with_age, is_retirable, is_before, age_of, is_zero, at_least,
  select_retirable_branches, is_named_before, at_commit, named, approved, approved_all,
  select_approved_retirements,
}

some_eq : {A : Type 0} {a b : A} → some a ≡ some b → a ≡ b
some_eq h = cc

none_refuted : {A : Type 0} {a : A} → ◌≡◌ {A = Option A} none (some a) → ⊥
none_refuted h = absurd (cc)

-- The age of a branch: the one given, or else the time since its last commit.
pub IsAged : (now : ℕ) → Branch → ℕ → Type 0
IsAged now b age =
    (b.age ≡ some age) ⊎ ((b.age ≡ none) × ((t : ℕ) × (b.commit_time ≡ some t) × (age ≡ now - t)))

age_of-IsAged : (now : ℕ) (b : Branch) (age : ℕ) → age_of now b ≡ some age → IsAged now b age
unfolding age_of IsAged
age_of-IsAged now b age h = elim (Option-cases b.age) [
  | inr (a, e) ↦ inl (ground (arith, e))
  | inl e ↦ elim (Option-cases b.commit_time) [
    | inr (t, f) ↦ inr (e, (t, f, some_eq (ground (arith, e, f))))
    | inl f ↦ absurd (none_refuted {a = age} (ground (arith, e, f)))
  ]
]

is_zero-some : (n : Option ℕ) → is_zero n ≡ true → n ≡ some 0
unfolding is_zero
is_zero-some none h = cc
is_zero-some (some zero) h = refl
is_zero-some (some (suc n)) h = ground (arith, h)

at_least-some :
    (threshold : ℕ) (n : Option ℕ)
    → at_least threshold n ≡ true
    → (age : ℕ) × (n ≡ some age) × (threshold ≤ age)
unfolding at_least
at_least-some threshold none h = cc
at_least-some threshold (some a) h = (a, refl, ground (arith, h))

is_retirable-old :
    (threshold now : ℕ) (b : Branch)
    → is_retirable threshold (with_age now b) ≡ true
    → (b.merged_pr_head_exact ≡ true)
      ⊎ ((b.ahead ≡ some 0) × ((age : ℕ) × IsAged now b age × (threshold ≤ age)))
unfolding is_retirable with_age
is_retirable-old threshold now b h = elim (Bool-cases b.merged_pr_head_exact) [
  | inl e ↦ inl e
  | inr e ↦
      let (age, found, old) = at_least-some threshold (age_of now b) (ground (arith, h, e)) in
      inr (is_zero-some b.ahead (ground (arith, h, e)), (age, age_of-IsAged now b age found, old))
]

module _ (name_le : String → String → Bool) where
  -- A branch of the list that may be deleted without losing work.
  pub record IsRetirable (threshold now : ℕ) (bs : List Branch) (a : Branch) : Type 0 where
    pub branch : Branch
    pub listed : In branch bs
    pub same_name : a.name ≡ branch.name
    pub not_main : branch.name == "main" ≡ false
    pub unprotected : branch.is_protected ≡ false
    pub merged_or_old :
        (branch.merged_pr_head_exact ≡ true)
        ⊎ ((branch.ahead ≡ some 0) × ((age : ℕ) × IsAged now branch age × (threshold ≤ age)))

  -- Every branch that is selected is listed under its name, is neither the trunk nor protected, and
  -- either its head is exactly that of a merged pull request or it is ahead by nothing and its age,
  -- the one given or else the time since its last commit, is at least the one asked for.
  pub select_retirable_branches-IsRetirable :
      (threshold now : ℕ) (bs : List Branch) (a : Branch)
      → In a (select_retirable_branches name_le threshold now bs)
      → IsRetirable threshold now bs a
  unfolding select_retirable_branches is_candidate with_age
  select_retirable_branches-IsRetirable threshold now bs a i =
      let aged = map (with_age now) (keep is_candidate bs) in
      let kept = In-sort_by (is_before name_le) a (keep (is_retirable threshold) aged) i in
      let (j, fits) = (In-keep_iff (is_retirable threshold) a aged).0 kept in
      let (b, k, e) = map-In (with_age now) (keep is_candidate bs) j in
      let (l, candidate) = (In-keep_iff is_candidate b bs).0 k in
      record {
        branch = b;
        listed = l;
        same_name = ap (λ (x : Branch). x.name) (sym e);
        not_main = ground (arith, candidate);
        unprotected = ground (arith, candidate);
        merged_or_old =
            is_retirable-old threshold now b
              (subst (λ x. is_retirable threshold x ≡ true) (sym e) fits);
      }

  -- The branch that its retirement names, at the commit that the retirement approves.
  pub record IsApproved (bs : List Branch) (rs : List Retirement) (x : Branch × Retirement)
      : Type 0 where
    pub listed : In x.0 bs
    pub asked : In x.1 rs
    pub not_main : x.0.name == "main" ≡ false
    pub unprotected : x.0.is_protected ≡ false
    pub named : x.1.branch ≡ some x.0.name
    pub given : truthy x.1.expected_head_sha ≡ true
    pub at_commit : x.0.sha ≡ x.1.expected_head_sha

  indexed :
      (bs : List Branch) (name : String) (b : Branch)
      → Table.get name (index_by (λ b. b.name) bs) ≡ some b
      → In b bs × (b.name ≡ name)
  unfolding index_by
  indexed bs name b h =
      let i = get-from_entries name (map (λ x. (x.name, x)) bs) h in
      let (c, j, e) = map-In (λ (x : Branch). (x.name, x)) bs i in
      let same : c ≡ b = ap (λ (y : String × Branch). y.1) e in
      (
        subst (λ x. In x bs) same j,
        ap (λ (x : Branch). x.name) (sym same) ∙ ap (λ (y : String × Branch). y.0) e,
      )

  at_commit-some :
      (r : Retirement) (c b : Branch)
      → at_commit name_le r c ≡ some b
      → (c ≡ b)
        × (c.name == "main" ≡ false)
        × (c.is_protected ≡ false)
        × (c.sha ≡ r.expected_head_sha)
  unfolding at_commit
  at_commit-some r c b h =
      let denied =
        c.name == "main" || c.is_protected || not (same_text c.sha r.expected_head_sha) in
      elim (Bool-cases denied) [
        | inl e ↦
            let made : at_commit name_le r c ≡ none = rw (e) refl in
            absurd (none_refuted (sym made ∙ h))
        | inr e ↦
            let made : at_commit name_le r c ≡ some c = rw (e) refl in
            (
              some_eq (sym made ∙ h),
              ground (arith, e),
              ground (arith, e),
              (same_text_iff c.sha r.expected_head_sha).0 (ground (arith, e)),
            )
      ]

  named-some :
      (names : Table Branch) (r : Retirement) (name : String) (b : Branch)
      → named name_le names r name ≡ some b
      → (c : Branch) × (Table.get name names ≡ some c) × (at_commit name_le r c ≡ some b)
  unfolding named
  named-some names r name b h = elim (Option-cases (Table.get name names)) [
    | inl e ↦
        let made : named name_le names r name ≡ none = rw (named, e) refl in
        absurd (none_refuted (sym made ∙ h))
    | inr (c, e) ↦
        let made : named name_le names r name ≡ at_commit name_le r c = rw (named, e) refl in
        (c, e, sym made ∙ h)
  ]

  approved-named :
      (names : Table Branch) (r : Retirement) (b : Branch)
      → approved name_le names r ≡ some b
      → (name : String) × (named name_le names r name ≡ some b)
        × (r.branch ≡ some name)
        × (truthy r.expected_head_sha ≡ true)
  unfolding approved
  approved-named names r b h = elim (Bool-cases (truthy r.branch && truthy r.expected_head_sha)) [
    | inr e ↦
        let made : approved name_le names r ≡ none = rw (e) refl in
        absurd (none_refuted (sym made ∙ h))
    | inl e ↦ elim (Option-cases r.branch) [
      | inl n ↦ absurd (ground (arith, e, n))
      | inr (name, n) ↦
          let made : approved name_le names r
              ≡ elim r.branch [ none ↦ none | some x ↦ named name_le names r x ] =
            rw (e) refl in
          (
            name,
            ap (λ o. elim o [ none ↦ none | some x ↦ named name_le names r x ]) (sym n)
                ∙ sym made
                ∙ h,
            n,
            ground (arith, e),
          )
    ]
  ]

  later :
      (bs : List Branch) (r : Retirement) (rs : List Retirement) (x : Branch × Retirement)
      → IsApproved bs rs x
      → IsApproved bs (r ∷ rs) x
  later bs r rs x a = record {
    listed = a.listed;
    asked = inr a.asked;
    not_main = a.not_main;
    unprotected = a.unprotected;
    named = a.named;
    given = a.given;
    at_commit = a.at_commit;
  }

  approved_here :
      (bs : List Branch) (r : Retirement) (rs : List Retirement) (b : Branch)
      → approved name_le (index_by (λ b. b.name) bs) r ≡ some b
      → IsApproved bs (r ∷ rs) (b, r)
  approved_here bs r rs b e =
      let names = index_by (λ b. b.name) bs in
      let (name, n, asked, given) = approved-named names r b e in
      let (c, got, h) = named-some names r name b n in
      let (same, main, free, sha) = at_commit-some r c b h in
      let (i, is_named) = indexed bs name c got in
      subst (λ d. IsApproved bs (r ∷ rs) (d, r)) same
        (record {
          listed = i;
          asked = inl refl;
          not_main = main;
          unprotected = free;
          named = asked ∙ ap some (sym is_named);
          given = given;
          at_commit = sha;
        })

  approved_all-IsApproved :
      (bs : List Branch) (rs : List Retirement) (x : Branch × Retirement)
      → In x (approved_all name_le (index_by (λ b. b.name) bs) rs)
      → IsApproved bs rs x
  unfolding approved_all
  approved_all-IsApproved bs [] x i = absurd i
  approved_all-IsApproved bs (r ∷ rs) x i =
      let names = index_by (λ b. b.name) bs in
      elim (Option-cases (approved name_le names r)) [
        | inl e ↦
            let made : approved_all name_le names (r ∷ rs) ≡ approved_all name_le names rs =
              rw (approved_all, e) refl in
            later bs r rs x (approved_all-IsApproved bs rs x (subst (In x) made i))
        | inr (b, e) ↦
            let made : approved_all name_le names (r ∷ rs)
                ≡ (b, r) ∷ approved_all name_le names rs =
              rw (approved_all, e) refl in
            elim (subst (In x) made i) [
              | inl same ↦ subst (IsApproved bs (r ∷ rs)) same (approved_here bs r rs b e)
              | inr j ↦ later bs r rs x (approved_all-IsApproved bs rs x j)
            ]
      ]

  -- Every retirement that is selected was asked for and gives a commit, and its branch is listed, is
  -- the one that the retirement names, is neither the trunk nor protected, and stands at that commit.
  pub select_approved_retirements-IsApproved :
      (bs : List Branch) (rs : List Retirement) (x : Branch × Retirement)
      → In x (select_approved_retirements name_le bs rs)
      → IsApproved bs rs x
  unfolding select_approved_retirements
  select_approved_retirements-IsApproved bs rs x i = approved_all-IsApproved bs rs x (
      In-sort_by (is_named_before name_le) x (approved_all name_le (index_by (λ b. b.name) bs) rs)
        i)
