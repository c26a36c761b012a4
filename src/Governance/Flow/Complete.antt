-- ===== src/Governance/Flow/Complete.antt =====
-- Every branch falls into exactly one bucket (src/governance/branch-flow.mjs).
use ai_core.Base.{
  ℕ, suc, ◌+◌, String, true, List, [], ◌∷◌, ◌++◌, ◌≡◌, refl, ap, sym, ◌∙◌, arith, length, eqb,
  eqb_iff, if◌then◌else◌,
}
use ai_core.Base.Result.{ok}
use ai_core.Governance.Flow.{
  Branch, Policy, Flow, exempt, flowing, violating, Verdict, classify, is_flow, active_limit,
  Buckets, push, fill, triage,
}

append_one :
    {A : Type 0} (xs : List A) (y : A) (ys : List A) → (xs ++ y ∷ []) ++ ys ≡ xs ++ (y ∷ ys)
append_one [] y ys = refl
append_one (x ∷ xs) y ys = ap (λ zs. x ∷ zs) (append_one xs y ys)

append_nil : {A : Type 0} (xs : List A) → xs ++ [] ≡ xs
append_nil [] = refl
append_nil (x ∷ xs) = ap (λ zs. x ∷ zs) (append_nil xs)

no_more :
    (t : Buckets)
    → record {
      exempted = t.exempted ++ [];
      flowing = t.flowing ++ [];
      violating = t.violating ++ [];
    }
      ≡ t
no_more t = rw (append_nil t.exempted, append_nil t.flowing, append_nil t.violating) refl

pushed :
    (f : Flow) (x : Branch × Verdict) (t : Buckets) (e w v : List (Branch × Verdict))
    → ◌≡◌ {A = Buckets}
        (record {
          exempted = (push f x t).exempted ++ e;
          flowing = (push f x t).flowing ++ w;
          violating = (push f x t).violating ++ v;
        })
        (record {
          exempted = t.exempted ++ (if is_flow f exempt then x ∷ e else e);
          flowing = t.flowing ++ (if is_flow f flowing then x ∷ w else w);
          violating = t.violating ++ (if is_flow f violating then x ∷ v else v);
        })
unfolding push is_flow
pushed exempt x t e w v = rw (append_one t.exempted x e) refl
pushed flowing x t e w v = rw (append_one t.flowing x w) refl
pushed violating x t e w v = rw (append_one t.violating x v) refl

one_more :
    (f : Flow) (e w v : List (Branch × Verdict)) (x : Branch × Verdict) (n : ℕ)
    → length e + length w + length v ≡ n
    → length (if is_flow f exempt then x ∷ e else e)
        + length (if is_flow f flowing then x ∷ w else w)
        + length (if is_flow f violating then x ∷ v else v)
      ≡ suc n
unfolding is_flow
one_more exempt e w v x n h = omega arith
one_more flowing e w v x n h = omega arith
one_more violating e w v x n h = omega arith

module _ (p : Policy) (now : ℕ) (today : String) where
  -- The branches of one kind with their verdicts, in the order of the list.
  unfoldable pub judged : Flow → List Branch → List (Branch × Verdict)
  judged f [] = []
  judged f (b ∷ bs) =
      let rest = judged f bs in
      if is_flow (classify p now today b).flow f then (b, classify p now today b) ∷ rest else rest

  unfoldable pub all_judged : List Branch → Buckets
  unfolding judged
  all_judged bs = record {
    exempted = judged exempt bs;
    flowing = judged flowing bs;
    violating = judged violating bs;
  }

  joined : Buckets → List Branch → Buckets
  unfolding judged
  joined t bs = record {
    exempted = t.exempted ++ judged exempt bs;
    flowing = t.flowing ++ judged flowing bs;
    violating = t.violating ++ judged violating bs;
  }

  fill-joined : (t : Buckets) (bs : List Branch) → fill p now today t bs ≡ joined t bs
  unfolding fill joined judged
  fill-joined t [] = sym (no_more t)
  fill-joined t (b ∷ bs) =
      let v = classify p now today b in
      fill-joined (push v.flow (b, v) t) bs
      ∙ pushed v.flow (b, v) t (judged exempt bs) (judged flowing bs) (judged violating bs)

  judged-length :
      (bs : List Branch)
      → length (judged exempt bs) + length (judged flowing bs) + length (judged violating bs)
        ≡ length bs
  unfolding judged is_flow
  judged-length [] = refl
  judged-length (b ∷ bs) =
      let ih = judged-length bs in
      one_more (classify p now today b).flow (judged exempt bs) (judged flowing bs)
        (judged violating bs) (b, classify p now today b) (length bs) ih

  -- The triage never fails: its buckets are, for each kind, the branches of that kind with their
  -- verdicts, in their order, so that no branch is lost and none stands in two buckets.
  pub triage-all_judged :
      (bs : List Branch) → triage p now today bs ≡ ok (all_judged bs, active_limit p now today bs)
  unfolding triage all_judged joined
  triage-all_judged bs =
      let filled = fill-joined (record { exempted = []; flowing = []; violating = [] }) bs in
      let sums : eqb
            (length (judged exempt bs) + length (judged flowing bs) + length (judged violating bs))
            (length bs)
          ≡ true =
        (eqb_iff _ _).1 (judged-length bs) in
      rw (filled, sums) refl
