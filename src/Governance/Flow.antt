-- ===== src/Governance/Flow.antt =====
-- src/governance/branch-flow.mjs. Its names are Korean: `classify` is 흐르나, `active_limit` 활성한도,
-- `local_only` 로컬전용, `triage` 전수판정. Times are milliseconds, and `today` is the date of `now`
-- as a text. The texts that explain a verdict are kept as constructors.
pub mod Complete
use ai_core.Base.{
  ℕ, ◌+◌, ◌-◌, ◌*◌, String, Bool, true, false, not, ◌&&◌, Option, none, some, List, [], ◌∷◌, ◌++◌,
  ◌==◌, any, find, keep, map, length, eqb, leb, includes, truthy, starts_with, if◌then◌else◌,
}
use ai_core.Base.Result.{Result, ok, err}
use ai_core.Json.{key_le}

pub record Branch : Type 0 where
  pub ref : String
  pub open_pr : Option String  -- 열린PR
  pub last_commit : ℕ  -- 마지막커밋
  pub commits_ahead : ℕ  -- 앞선커밋

pub record Exception : Type 0 where
  pub branch : String
  pub expires : Option String
  pub remedy : Option String  -- then

pub record Policy : Type 0 where
  pub exempt_refs : List String
  pub exempt_prefixes : List String
  pub expiring_exceptions : List Exception
  pub forbidden_actor_prefixes : List String
  pub younger_than_hours : ℕ
  pub hard_max_active_work_branches : ℕ  -- of the profile of ai-core

pub data Cause : Type 0 where
  exempted_by_policy archived : Cause
  exception_until : (expires : String) → Cause
  exception_without_expiry : Cause
  exception_expired : (expires : String) → Cause
  actor_prefix : (prefix : String) → Cause
  open_pull_request young stalled : Cause

pub data Flow : Type 0 where
  exempt flowing violating : Flow

pub record Verdict : Type 0 where
  pub flow : Flow
  pub cause : Cause

of_exception : (today : String) → Exception → Verdict
of_exception today x = elim x.expires [
  | none ↦ record { flow = violating; cause = exception_without_expiry }
  | some expires ↦
      if expires == ""
      then record { flow = violating; cause = exception_without_expiry }
      else if key_le today expires
      then record { flow = exempt; cause = exception_until expires }
      else record { flow = violating; cause = exception_expired expires }
]

by_age : Policy → (now : ℕ) → Branch → Verdict
by_age p now b =
    if truthy b.open_pr
    then record { flow = flowing; cause = open_pull_request }
    else if leb (now - b.last_commit) (p.younger_than_hours * 3600000)
    then record { flow = flowing; cause = young }
    else record { flow = violating; cause = stalled }

-- `classify` for a branch that no exemption and no exception names
by_name : Policy → (now : ℕ) → Branch → Verdict
unfolding by_age
by_name p now b = elim (find (λ prefix. starts_with prefix b.ref) p.forbidden_actor_prefixes) [
  | some prefix ↦ record { flow = violating; cause = actor_prefix prefix }
  | none ↦ by_age p now b
]

unfoldable pub classify : Policy → (now : ℕ) → (today : String) → Branch → Verdict
unfolding of_exception by_name
classify p now today b =
    if includes p.exempt_refs b.ref
    then record { flow = exempt; cause = exempted_by_policy }
    else if any (λ prefix. starts_with prefix b.ref) p.exempt_prefixes
    then record { flow = exempt; cause = archived }
    else elim (find (λ x. x.branch == b.ref) p.expiring_exceptions) [
      | some x ↦ of_exception today x
      | none ↦ by_name p now b
    ]

unfoldable pub is_flow : Flow → Flow → Bool
is_flow exempt exempt = true
is_flow flowing flowing = true
is_flow violating violating = true
is_flow _ _ = false

pub record Limit : Type 0 where
  pub limit : ℕ
  pub active : ℕ
  pub over : ℕ
  pub refs : List String

unfoldable pub active_limit : Policy → (now : ℕ) → (today : String) → List Branch → Limit
unfolding classify is_flow
active_limit p now today bs =
    let active = keep (λ b. is_flow (classify p now today b).flow flowing) bs in
    record {
      limit = p.hard_max_active_work_branches;
      active = length active;
      over = length active - p.hard_max_active_work_branches;
      refs = map (λ b. b.ref) active;
    }

-- The branches of each kind, with their verdicts.
pub record Buckets : Type 0 where
  pub exempted : List (Branch × Verdict)
  pub flowing : List (Branch × Verdict)
  pub violating : List (Branch × Verdict)

-- `통[판.흐름].push({ ...b, ...판 })`
push : Flow → Branch × Verdict → Buckets → Buckets
push exempt x t = record t { exempted = t.exempted ++ x ∷ [] }
push flowing x t = record t { flowing = t.flowing ++ x ∷ [] }
push violating x t = record t { violating = t.violating ++ x ∷ [] }

unfoldable pub fill : Policy → (now : ℕ) → (today : String) → Buckets → List Branch → Buckets
unfolding push classify
fill p now today t [] = t
fill p now today t (b ∷ bs) =
    let v = classify p now today b in fill p now today (push v.flow (b, v) t) bs

-- `BRANCH_FLOW_BUCKETS_INCOMPLETE`
pub data FlowError : Type 0 where
  buckets_incomplete : FlowError

unfoldable pub triage :
    Policy → (now : ℕ) → (today : String) → List Branch → Result FlowError (Buckets × Limit)
unfolding fill active_limit
triage p now today bs =
    let t = fill p now today (record { exempted = []; flowing = []; violating = [] }) bs in
    if eqb (length t.exempted + length t.flowing + length t.violating) (length bs)
    then ok (t, active_limit p now today bs)
    else err buckets_incomplete

pub record Local : Type 0 where
  pub on_main : List Branch
  pub preserved : List Branch
  pub nowhere : List Branch

-- `local_only` with the names of the remote branches and the test that something preserves a branch
unfoldable pub local_only :
    (remote : List String) → (is_preserved : Branch → Bool) → List Branch → Local
local_only remote is_preserved [] = record { on_main = []; preserved = []; nowhere = [] }
local_only remote is_preserved (b ∷ bs) =
    let rest = local_only remote is_preserved bs in
    if includes remote b.ref
    then rest
    else if eqb b.commits_ahead 0
    then record rest { on_main = b ∷ rest.on_main }
    else if is_preserved b
    then record rest { preserved = b ∷ rest.preserved }
    else record rest { nowhere = b ∷ rest.nowhere }
