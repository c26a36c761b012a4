-- ===== src/Governance/Examples.antt =====
-- Concrete branches (src/governance/branch-flow.mjs, src/development/continuity-audit.mjs).
use ai_core.Base.{String, Bool, true, false, none, some, List, [], ◌∷◌, ◌≡◌, refl, inl}
use ai_core.Base.Result.{ok}
use ai_core.Base.Table
use ai_core.Governance.Flow
use ai_core.Governance.Flow.{active_limit, triage}
use ai_core.Governance.Flow.Complete.{all_judged, triage-all_judged}
use ai_core.Governance.Retire.{
  Branch, Retirement, select_retirable_branches, select_approved_retirements,
}
use ai_core.Governance.Retire.Safe.{
  IsRetirable, select_retirable_branches-IsRetirable, IsApproved,
  select_approved_retirements-IsApproved,
}
use ai_core.Governance.Audit
use ai_core.Governance.Audit.{Profile, audited, analyze_branch_inventory, findings_of, normalized}
use ai_core.Governance.Audit.Graded.{gravest, analyze_branch_inventory-gravest}

abbrev flow_policy : Flow.Policy
flow_policy = record {
  exempt_refs = "main" ∷ [];
  exempt_prefixes = "archive/" ∷ [];
  expiring_exceptions =
      record { branch = "hotfix"; expires = some "2026-01-01"; remedy = none } ∷ [];
  forbidden_actor_prefixes = "claude/" ∷ [];
  younger_than_hours = 72;
  hard_max_active_work_branches = 3;
}

abbrev flow_branch : String → Flow.Branch
flow_branch ref = record { ref = ref; open_pr = none; last_commit = 0; commits_ahead = 1 }

abbrev refs : List Flow.Branch
refs = flow_branch "main" ∷ flow_branch "hotfix" ∷ flow_branch "work/x" ∷ []

triage-all_judged_example :
    triage flow_policy 1000 "2026-02-01" refs
    ≡ ok (
      all_judged flow_policy 1000 "2026-02-01" refs,
      active_limit flow_policy 1000 "2026-02-01" refs,
    )
triage-all_judged_example = triage-all_judged flow_policy 1000 "2026-02-01" refs

abbrev old : Branch
old = record {
  name = "work/x";
  is_protected = false;
  sha = some "c1";
  age = some 90000000;
  commit_time = none;
  ahead = some 0;
  behind = none;
  merged_pr_head_exact = false;
}

abbrev trunk : Branch
trunk = record old { name = "main" }

abbrev name_le : String → String → Bool
name_le a b = true

old_selected : select_retirable_branches name_le 86400000 0 (trunk ∷ old ∷ []) ≡ old ∷ []
unfolding select_retirable_branches
old_selected = refl

select_retirable_branches-IsRetirable_example :
    IsRetirable name_le 86400000 0 (trunk ∷ old ∷ []) old
unfolding select_retirable_branches
select_retirable_branches-IsRetirable_example =
    select_retirable_branches-IsRetirable name_le 86400000 0 (trunk ∷ old ∷ []) old (inl refl)

abbrev retirement : Retirement
retirement = record { branch = some "work/x"; expected_head_sha = some "c1" }

select_approved_retirements-IsApproved_example :
    IsApproved name_le (trunk ∷ old ∷ []) (retirement ∷ []) (old, retirement)
unfolding select_approved_retirements Table.get
select_approved_retirements-IsApproved_example =
    select_approved_retirements-IsApproved name_le (trunk ∷ old ∷ []) (retirement ∷ [])
      (old, retirement) (inl refl)

abbrev profile : Profile
profile = record { target_active_work_branches = 1; hard_max_active_work_branches = 3 }

abbrev policy : Audit.Policy
policy = record {
  profiles = ("STANDARD", profile) ∷ [];
  target_hours = none;
  warn_hours = none;
  critical_hours = none;
  recent_unique_branch_proxy_hours = none;
}

abbrev inventory : List Branch
inventory =
    trunk ∷ old ∷ record old { name = "claude/y"; ahead = some 2; age = some 300000000 } ∷ []

inventory-audited :
    analyze_branch_inventory policy "STANDARD" 0 inventory ≡ ok (audited policy profile 0 inventory)
unfolding analyze_branch_inventory Table.get
inventory-audited = refl

analyze_branch_inventory-gravest_example :
    (p : Profile) × (Table.get "STANDARD" policy.profiles ≡ some p)
    × ((audited policy profile 0 inventory).findings
        ≡ findings_of policy p (normalized 0 inventory))
    × ((audited policy profile 0 inventory).status
        ≡ gravest (audited policy profile 0 inventory).findings)
analyze_branch_inventory-gravest_example =
    analyze_branch_inventory-gravest policy "STANDARD" 0 inventory
      (audited policy profile 0 inventory) inventory-audited
