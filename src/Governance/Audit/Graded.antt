-- ===== src/Governance/Audit/Graded.antt =====
-- The status of an audit of src/development/continuity-audit.mjs.
use ai_core.Base.{
  ℕ, String, Bool, true, false, some, List, [], ◌∷◌, ◌≡◌, refl, ap, sym, ◌∙◌, any, is_empty, ◌||◌,
  Option-cases, inl, inr, if◌then◌else◌,
}
use ai_core.Base.Result.{Result, ok, err, ok-subst}
use ai_core.Base.Table
use ai_core.Governance.Retire.{Branch}
use ai_core.Governance.Audit.{
  Policy, Profile, audited, AuditError, continuity_profile_unknown, Severity, warn, critical,
  Finding, Status, pass, raised, higher, status_from, Audit, analyze_branch_inventory, findings_of,
  normalized,
}

refuted :
    {a : Audit} → ◌≡◌ {A = Result AuditError Audit} (err continuity_profile_unknown) (ok a) → ⊥
refuted h = absurd (cc)

is_grave : Severity → Bool
is_grave critical = true
is_grave warn = false

-- The gravest of the findings.
unfoldable pub gravest : List Finding → Status
unfolding is_grave
gravest fs =
    if any (λ f. is_grave f.severity) fs
    then raised critical
    else if is_empty fs
    then pass
    else raised warn

higher_critical : (s : Severity) → higher (raised critical) s ≡ raised critical
unfolding higher
higher_critical critical = refl
higher_critical warn = refl

from_critical : (fs : List Finding) → status_from (raised critical) fs ≡ raised critical
unfolding status_from
from_critical [] = refl
from_critical (f ∷ fs) = ap (λ s. status_from s fs) (higher_critical f.severity) ∙ from_critical fs

-- The status once a finding has been seen.
graver : Bool → Status
graver true = raised critical
graver false = raised warn

after_one :
    (s : Severity) (fs : List Finding) (grave : Bool)
    → status_from (raised warn) fs ≡ graver grave
    → status_from (higher (raised warn) s) fs ≡ graver (is_grave s || grave)
unfolding higher is_grave graver
after_one critical fs grave h = from_critical fs
after_one warn fs grave h = h

from_warn :
    (fs : List Finding) → status_from (raised warn) fs ≡ graver (any (λ f. is_grave f.severity) fs)
unfolding status_from graver
from_warn [] = refl
from_warn (f ∷ fs) = after_one f.severity fs (any (λ g. is_grave g.severity) fs) (from_warn fs)

higher_pass : (s : Severity) → higher pass s ≡ higher (raised warn) s
unfolding higher
higher_pass critical = refl
higher_pass warn = refl

graver_if : (b : Bool) → graver b ≡ (if b then raised critical else raised warn)
unfolding graver
graver_if true = refl
graver_if false = refl

status_from-gravest : (fs : List Finding) → status_from pass fs ≡ gravest fs
unfolding status_from gravest
status_from-gravest [] = refl
status_from-gravest (f ∷ fs) =
    let grave = any (λ g. is_grave g.severity) fs in
    ap (λ s. status_from s fs) (higher_pass f.severity)
    ∙ after_one f.severity fs grave (from_warn fs)
    ∙ graver_if (is_grave f.severity || grave)

-- Of a known profile the audit reports the findings of the branches with their ages, and its status is
-- the gravest of them: critical with a critical finding, passed without any.
pub analyze_branch_inventory-gravest :
    (policy : Policy) (profile : String) (now : ℕ) (bs : List Branch) (a : Audit)
    → analyze_branch_inventory policy profile now bs ≡ ok a
    → (p : Profile) × (Table.get profile policy.profiles ≡ some p)
      × (a.findings ≡ findings_of policy p (normalized now bs))
      × (a.status ≡ gravest a.findings)
unfolding analyze_branch_inventory audited
analyze_branch_inventory-gravest policy profile now bs a h =
    elim (Option-cases (Table.get profile policy.profiles)) [
      | inl e ↦
          let made : analyze_branch_inventory policy profile now bs
              ≡ err continuity_profile_unknown =
            rw (analyze_branch_inventory, e) refl in
          absurd (refuted (sym made ∙ h))
      | inr (p, e) ↦
          let audit = audited policy p now bs in
          let made : analyze_branch_inventory policy profile now bs ≡ ok audit =
            rw (analyze_branch_inventory, e) refl in
          (
            p,
            e,
            ok-subst (λ (x : Audit). x.findings ≡ findings_of policy p (normalized now bs))
                (sym made ∙ h) refl,
            ok-subst (λ (x : Audit). x.status ≡ gravest x.findings) (sym made ∙ h)
                (status_from-gravest (findings_of policy p (normalized now bs))),
          )
    ]
