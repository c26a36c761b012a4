-- ===== src/Governance/Retire.antt =====
-- `selectRetirableBranches` and `selectApprovedRetirements` of src/development/continuity-audit.mjs.
-- Ages are milliseconds, where the program has hours. `name_le` stands for `localeCompare`.
pub mod Safe
use ai_core.Base.{
  ℕ, ◌-◌, ◌*◌, String, Bool, true, false, not, ◌&&◌, ◌||◌, Option, none, some, List, [], ◌∷◌, ◌==◌,
  eqb, leb, ltb, keep, map, sort_by, truthy, same_text, if◌then◌else◌,
}
use ai_core.Base.Table
use ai_core.Base.Table.{Table, index_by}

-- A branch of the inventory; the optional numbers are `none` where they are missing or no number.
pub record Branch : Type 0 where
  pub name : String
  pub is_protected : Bool
  pub sha : Option String
  pub age : Option ℕ
  pub commit_time : Option ℕ
  pub ahead : Option ℕ
  pub behind : Option ℕ
  pub merged_pr_head_exact : Bool

pub record Retirement : Type 0 where
  pub branch : Option String
  pub expected_head_sha : Option String

-- `b && b.name && b.name !== 'main' && b.protected !== true`
unfoldable pub is_candidate : Branch → Bool
is_candidate b = not (b.name == "") && not (b.name == "main") && not b.is_protected

-- The age that is given, or the time since the last commit.
unfoldable pub age_of : (now : ℕ) → Branch → Option ℕ
age_of now b = elim b.age [
  | some a ↦ some a
  | none ↦ elim b.commit_time [ some t ↦ some (now - t) | none ↦ none ]
]

unfoldable pub with_age : (now : ℕ) → Branch → Branch
unfolding age_of
with_age now b = record b { age = age_of now b }

is_zero : Option ℕ → Bool
is_zero none = false
is_zero (some n) = eqb n 0

at_least : ℕ → Option ℕ → Bool
at_least threshold none = false
at_least threshold (some a) = leb threshold a

unfoldable pub is_retirable : (threshold : ℕ) → Branch → Bool
unfolding is_zero at_least
is_retirable threshold b = b.merged_pr_head_exact || (is_zero b.ahead && at_least threshold b.age)

-- `null` counts as 0 in `b.age_hours - a.age_hours`.
age_number : Option ℕ → ℕ
age_number none = 0
age_number (some a) = a

module _ (name_le : String → String → Bool) where
  is_before : Branch → Branch → Bool
  unfolding age_number
  is_before a b =
      ltb (age_number b.age) (age_number a.age)
      || (eqb (age_number a.age) (age_number b.age) && name_le a.name b.name)

  -- `selectRetirableBranches`; `threshold` is `minAgeHours`, which is not negative.
  unfoldable pub select_retirable_branches : (threshold now : ℕ) → List Branch → List Branch
  unfolding is_candidate with_age is_retirable is_before
  select_retirable_branches threshold now bs =
      sort_by is_before (keep (is_retirable threshold) (map (with_age now) (keep is_candidate bs)))

  is_named_before : Branch × Retirement → Branch × Retirement → Bool
  is_named_before x y = name_le x.0.name y.0.name

  at_commit : Retirement → Branch → Option Branch
  at_commit r b =
      if b.name == "main" || b.is_protected || not (same_text b.sha r.expected_head_sha)
      then none
      else some b

  named : Table Branch → Retirement → String → Option Branch
  unfolding at_commit
  named names r name = elim (Table.get name names) [ none ↦ none | some b ↦ at_commit r b ]

  -- The branch that a retirement names, where it is there, may go, and is at the approved commit.
  unfoldable pub approved : Table Branch → Retirement → Option Branch
  unfolding named
  approved names r =
      if not (truthy r.branch && truthy r.expected_head_sha)
      then none
      else elim r.branch [ none ↦ none | some name ↦ named names r name ]

  unfoldable pub approved_all : Table Branch → List Retirement → List (Branch × Retirement)
  unfolding approved
  approved_all names [] = []
  approved_all names (r ∷ rs) =
      let rest = approved_all names rs in
      elim (approved names r) [ none ↦ rest | some b ↦ (b, r) ∷ rest ]

  -- `selectApprovedRetirements`; each branch with its retirement
  unfoldable pub select_approved_retirements :
      List Branch → List Retirement → List (Branch × Retirement)
  unfolding approved_all is_named_before index_by
  select_approved_retirements bs rs =
      sort_by is_named_before (approved_all (index_by (λ b. b.name) bs) rs)
