-- ===== src/Orders/Input.antt =====
-- The input checks of src/orders/store.mjs: `need`, `text`, `lines`, `actor` and `routing`.
use Prim.Native.Nat.{◌+◌, ◌^◌, ◌-◌}
use Prim.Native.Char.{code}
use Prim.Native.String
use ai_core.Base.{
  ℕ, String, Bool, true, false, not, ◌&&◌, ◌||◌, Option, none, some, List, [], ◌∷◌, ◌==◌, leb, ltb,
  eqb, every, includes, length, is_content, if◌then◌else◌,
}
use ai_core.Base.Result.{Result, ok, err, need, ◌>>=◌, ◌>>◌}
use ai_core.Base.Text.{is_space}
use ai_core.Ledger.Names.{is_revision_text}
use ai_core.Orders.Spec.{Routing}

-- The codes of `OrderError`; `workflow_failed` is a `TypeError` of the workflow engine.
pub data OrderError : Type 0 where
  invalid_input invalid_actor invalid_routing invalid_kind not_found : OrderError
  idempotency_conflict stale_version terminal_order task_not_found stale_lease : OrderError
  already_reported active_lease wrong_actor dependency_pending stale_evidence : OrderError
  task_workflow_rejected routing_requires_idle_order : OrderError
  routing_requires_unbound_requirement routing_requirement_stale evidence_required : OrderError
  confirmation_required criteria_coverage_required unknown_action : OrderError
  async_requirement_hook_denied requirement_hook_failed workflow_failed : OrderError

trim_end : String → String
trim_end String.[] = ""
trim_end (String.◌∷◌ c s) =
    let rest = trim_end s in if is_space (code c) && rest == "" then "" else String.◌∷◌ c rest

-- `s.trim()`
unfoldable pub trim : String → String
unfolding trim_end is_space
trim String.[] = ""
trim (String.◌∷◌ c s) = if is_space (code c) then trim s else trim_end (String.◌∷◌ c s)

-- `value.length`, in UTF-16 units
units : String → ℕ
units String.[] = 0
units (String.◌∷◌ c s) = (if ltb (code c) 65536 then 1 else 2) + units s

-- `typeof value === 'string' && value.trim().length > 0 && value.length <= max`
unfoldable pub is_text : Option String → ℕ → Bool
unfolding units
is_text none max = false
is_text (some s) max = is_content (some s) && leb (units s) max

unfoldable pub text : Option String → ℕ → Result OrderError String
unfolding trim is_text
text none max = err invalid_input
text (some s) max = do need (is_text (some s) max) invalid_input; ok (trim s)

texts : List String → Result OrderError (List String)
unfolding text
texts [] = ok []
texts (v ∷ vs) = do here ← text (some v) 2000; rest ← texts vs; ok (here ∷ rest)

unfoldable pub lines : Option (List String) → Result OrderError (List String)
unfolding texts
lines none = err invalid_input
lines (some vs) = do need (ltb 0 (length vs) && leb (length vs) 30) invalid_input; texts vs

-- The `id`s of `actors`.
abbrev pub actor_ids : List String
actor_ids = "claude" ∷ "codex" ∷ "gemini" ∷ []

unfoldable pub actor : Option String → Result OrderError String
actor none = err invalid_actor
actor (some id) = do need (includes actor_ids id) invalid_actor; ok id

abbrev allowed_keys : List String
allowed_keys =
    "status" ∷ "work_type_id" ∷ "capability_id" ∷ "target_project_id" ∷ "target_revision"
    ∷ "project_status" ∷ "capability_status" ∷ "capability_mode" ∷ "matched_alias" ∷ "blockers"
    ∷ "requirement_revision" ∷ []

is_lower : ℕ → Bool
is_lower c = leb b'a' c && leb c b'z'

is_digit : ℕ → Bool
is_digit c = leb b'0' c && leb c b'9'

all_chars : (ℕ → Bool) → String → Bool
all_chars p String.[] = true
all_chars p (String.◌∷◌ c s) = p (code c) && all_chars p s

-- `/^[a-z][<p>]{lo,hi}$/.test(s)`
is_name : (ℕ → Bool) → ℕ → ℕ → Option String → Bool
unfolding is_lower all_chars
is_name p lo hi none = false
is_name p lo hi (some String.[]) = false
is_name p lo hi (some (String.◌∷◌ c s)) =
    is_lower (code c) && all_chars p s && leb lo (String.count s) && leb (String.count s) hi

is_filled : Option String → Bool
is_filled none = false
is_filled (some s) = not (s == "")

is_same : Option String → String → Bool
is_same none t = false
is_same (some s) t = s == t

is_revision : Option String → Bool
unfolding is_revision_text
is_revision none = false
is_revision (some s) = is_revision_text s

-- `Number.isSafeInteger(n) && n > 0`
is_positive : Option ℕ → Bool
is_positive none = false
is_positive (some n) = ltb 0 n && leb n (2 ^ 53 - 1)

are_blockers : Option (List String) → Bool
are_blockers none = false
are_blockers (some bs) = every (λ b. is_content (some b)) bs

unfoldable pub valid_routing : Routing → String → Bool
unfolding is_name is_digit is_filled is_same is_revision is_positive are_blockers
valid_routing r project =
    every (includes allowed_keys) r.keys
    && is_filled r.status
    && is_name (λ c. is_lower c || is_digit c || eqb c b'-') 1 62 r.work_type_id
    && is_name (λ c. is_lower c || is_digit c || eqb c b'.' || eqb c b'-') 2 80 r.capability_id
    && is_same r.target_project_id project
    && is_revision r.target_revision
    && is_positive r.requirement_revision
    && are_blockers r.blockers

-- `routing(value, project)`; every failed check has the code `INVALID_ROUTING`.
unfoldable pub routing : Option Routing → String → Result OrderError (Option Routing)
unfolding valid_routing
routing none project = ok none
routing (some r) project = do need (valid_routing r project) invalid_routing; ok (some r)
