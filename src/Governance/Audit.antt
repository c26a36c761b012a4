-- ===== src/Governance/Audit.antt =====
-- `analyzeBranchInventory` of src/development/continuity-audit.mjs: what it counts and finds. Ages are
-- milliseconds; the percentiles of the ages and the samples of names are not kept.
pub mod Graded
use ai_core.Base.{
  ℕ, ◌*◌, String, Bool, true, false, not, ◌&&◌, ◌||◌, Option, none, some, List, [], ◌∷◌, ◌++◌, ◌==◌,
  any, eqb, leb, ltb, keep, map, length, starts_with, if◌then◌else◌,
}
use ai_core.Base.Result.{Result, ok, err, ◌>>=◌}
use ai_core.Base.Table
use ai_core.Base.Table.{Table}
use ai_core.Governance.Retire.{Branch, with_age}

actor_prefixes : List String
actor_prefixes =
    "gpt/" ∷ "claude/" ∷ "codex/" ∷ "cursor/" ∷ "gemini/" ∷ "work/gpt/" ∷ "work/claude/"
    ∷ "work/codex/" ∷ "work/cursor/" ∷ "work/gemini/" ∷ []

pub record Profile : Type 0 where
  pub target_active_work_branches : ℕ
  pub hard_max_active_work_branches : ℕ

-- Missing hours are `none`.
pub record Policy : Type 0 where
  pub profiles : Table Profile
  pub target_hours : Option ℕ
  pub warn_hours : Option ℕ
  pub critical_hours : Option ℕ
  pub recent_unique_branch_proxy_hours : Option ℕ

pub data AuditError : Type 0 where
  continuity_profile_unknown : AuditError

pub data Severity : Type 0 where
  warn critical : Severity

pub data Code : Type 0 where
  active_branch_budget_exceeded active_branch_target_exceeded stale_unique_branches : Code
  merged_branch_cleanup_debt actor_owned_unique_branches branch_lifetime_warning : Code

pub record Finding : Type 0 where
  pub severity : Severity
  pub code : Code

pub data Status : Type 0 where
  pass : Status
  raised : Severity → Status

or_hours : ℕ → Option ℕ → ℕ
or_hours n none = n * 3600000
or_hours n (some h) = h * 3600000

-- `normalized`
unfoldable pub normalized : (now : ℕ) → List Branch → List Branch
unfolding with_age
normalized now bs = map (with_age now) (keep (λ b. not (b.name == "") && not (b.name == "main")) bs)

-- `b.unique === true`
unfoldable pub is_unique : Branch → Bool
is_unique b = elim b.ahead [ none ↦ false | some n ↦ ltb 0 n && not b.merged_pr_head_exact ]

is_equivalent : Branch → Bool
is_equivalent b = (elim b.ahead [ none ↦ false | some n ↦ eqb n 0 ]) || b.merged_pr_head_exact

at_most : ℕ → Option ℕ → Bool
at_most n none = false
at_most n (some a) = leb a n

above : ℕ → Option ℕ → Bool
above n none = false
above n (some a) = ltb n a

is_actor_prefixed : Branch → Bool
unfolding actor_prefixes
is_actor_prefixed b = any (λ prefix. starts_with prefix b.name) actor_prefixes

-- `if (test) findings.push({ severity, code })`
found : Bool → Severity → Code → List Finding
found true s c = record { severity = s; code = c } ∷ []
found false s c = []

graded : (limit count : ℕ) → Severity
graded limit count = if leb limit count then critical else warn

unfoldable pub budget_findings : Profile → (recent : ℕ) → List Finding
unfolding found
budget_findings p recent =
    if ltb p.hard_max_active_work_branches recent
    then found true critical active_branch_budget_exceeded
    else found (ltb p.target_active_work_branches recent) warn active_branch_target_exceeded

unfoldable pub findings_of : Policy → Profile → List Branch → List Finding
unfolding is_unique is_equivalent at_most above is_actor_prefixed budget_findings found graded
    or_hours
findings_of policy p bs =
    let critical_age = or_hours 72 policy.critical_hours in
    let warn_age = or_hours 48 policy.warn_hours in
    let recent_age : ℕ = elim policy.recent_unique_branch_proxy_hours [
      | none ↦ critical_age
      | some h ↦ h * 3600000
    ] in
    let known = keep is_unique bs in
    let recent = length (keep (λ b. at_most recent_age b.age) known) in
    let stale = length (keep (λ b. above critical_age b.age) known) in
    let merged = length (keep is_equivalent bs) in
    let by_actor = length (keep is_actor_prefixed known) in
    budget_findings p recent
    ++ found (ltb 0 stale) (graded 3 stale) stale_unique_branches
    ++ found (ltb 0 merged) (graded 10 merged) merged_branch_cleanup_debt
    ++ found (ltb 0 by_actor) warn actor_owned_unique_branches
    ++ found (any (λ b. above warn_age b.age && at_most critical_age b.age) known) warn
        branch_lifetime_warning

-- The higher rank of the two.
higher : Status → Severity → Status
higher s critical = raised critical
higher pass warn = raised warn
higher (raised s) warn = raised s

-- The loop over the findings, where a status is replaced by a higher one.
unfoldable pub status_from : Status → List Finding → Status
unfolding higher
status_from s [] = s
status_from s (f ∷ fs) = status_from (higher s f.severity) fs

pub record Audit : Type 0 where
  pub status : Status
  pub observed : ℕ
  pub unique : ℕ
  pub findings : List Finding

-- The audit at a profile that is known.
unfoldable pub audited : Policy → Profile → (now : ℕ) → List Branch → Audit
unfolding normalized is_unique findings_of status_from
audited policy p now bs =
    let ns = normalized now bs in
    let findings = findings_of policy p ns in
    record {
      status = status_from pass findings;
      observed = length ns;
      unique = length (keep is_unique ns);
      findings = findings;
    }

-- `profilePolicy` and `analyzeBranchInventory`
unfoldable pub analyze_branch_inventory :
    Policy → (profile : String) → (now : ℕ) → List Branch → Result AuditError Audit
unfolding audited
analyze_branch_inventory policy profile now bs = elim (Table.get profile policy.profiles) [
  | none ↦ err continuity_profile_unknown
  | some p ↦ ok (audited policy p now bs)
]
