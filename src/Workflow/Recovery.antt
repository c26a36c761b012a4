-- ===== src/Workflow/Recovery.antt =====
-- The rest of src/workflow/engine.mjs: `resolveFailure` with `computeDelay`, `availableActions` and
-- `dueAutomations`. A delay is a natural number; the source's is a double, exact below 2 ^ 53.
pub mod Retries
use ai_core.Base.{
  ℕ, ◌+◌, ◌-◌, ◌*◌, ◌^◌, String, Bool, true, false, not, ◌&&◌, ◌||◌, Option, none, some, List, [],
  ◌∷◌, ltb, leb, includes, is_empty, is_content, truthy, or_else, if◌then◌else◌,
}
use ai_core.Base.Result.{Result, ok, need, ◌>>=◌, ◌>>◌}
use ai_core.Workflow.Spec.{
  RetryStrategy, no_retry, fixed, exponential, manual, Retry, Transition, Workflow, Projection,
  Context,
}
use ai_core.Workflow.Inspect.{
  Reason, Thrown, transition_unknown, attempt_invalid, Inspection, Host, inspect_transition,
}
use ai_core.Workflow.Decide.{required, find_transition}

-- `computeDelay`
unfoldable pub compute_delay : Retry → ℕ → ℕ
compute_delay retry attempt = elim retry.strategy [
  | fixed ↦ retry.base_delay_ms
  | exponential ↦ retry.base_delay_ms * 2 ^ (attempt - 1)
  | _ ↦ 0
]

pub data Action : Type 0 where
  retry wait_manual_retry : Action
  on_exhausted : String → Action

pub record Resolution : Type 0 where
  pub action : Action
  pub attempt : ℕ
  pub next_attempt : Option ℕ
  pub retry_after_ms : Option ℕ
  pub error_code : Option String
  pub failure_state : Option String
  pub compensation_transition_id : Option String
  pub escalation_event_type : Option String
  pub occurred_at : String

is_none_strategy : RetryStrategy → Bool
is_none_strategy no_retry = true
is_none_strategy _ = false

retry_action : RetryStrategy → Action
retry_action manual = wait_manual_retry
retry_action _ = retry

included : List String → Option String → Bool
included codes none = false
included codes (some c) = includes codes c

-- `retryable`: a blank error code is never retried.
unfoldable pub is_retryable : Retry → Option String → Bool
unfolding included
is_retryable r error_code =
    is_content error_code
    && (is_empty r.retryable_error_codes || included r.retryable_error_codes error_code)

unfoldable pub should_retry : Retry → ℕ → Option String → Bool
unfolding is_none_strategy is_retryable
should_retry r attempt error_code =
    not (is_none_strategy r.strategy) && is_retryable r error_code && ltb attempt r.max_attempts

unfoldable pub resolve_on : Transition → ℕ → Option String → String → Resolution
unfolding should_retry retry_action compute_delay
resolve_on t attempt error_code occurred_at =
    if should_retry t.retry attempt error_code
    then record {
      action = retry_action t.retry.strategy;
      attempt = attempt;
      next_attempt = some (attempt + 1);
      retry_after_ms = some (compute_delay t.retry attempt);
      error_code = error_code;
      failure_state = none;
      compensation_transition_id = none;
      escalation_event_type = none;
      occurred_at = occurred_at;
    }
    else record {
      action = on_exhausted t.failure.on_exhausted;
      attempt = attempt;
      next_attempt = none;
      retry_after_ms = none;
      error_code = error_code;
      failure_state = t.failure.failure_state;
      compensation_transition_id =
          or_else t.failure.compensation_transition_id t.compensation_transition_id;
      escalation_event_type = t.failure.escalation_event_type;
      occurred_at = occurred_at;
    }

-- `resolveFailure`
unfoldable pub resolve_failure :
    Workflow → String → ℕ → Option String → String → Result Thrown Resolution
unfolding resolve_on find_transition
resolve_failure workflow transition_id attempt error_code occurred_at = do
  t ← required (find_transition workflow transition_id) transition_unknown
  need (leb 1 attempt) attempt_invalid
  ok (resolve_on t attempt error_code occurred_at)

pub record AvailableAction : Type 0 where
  pub transition_id : String
  pub command_id : String
  pub purpose : String
  pub axis_id : String
  pub from_state : Option String
  pub to_state : String
  pub eligible : Bool
  pub reasons : List Reason

pub record DueAutomation : Type 0 where
  pub transition_id : String
  pub command_id : String
  pub inspection : Inspection

module _ {G X : Type 0} (host : Host G X) (workflow : Workflow) where
  abbrev action_of : Transition → Inspection → AvailableAction
  action_of t i = record {
    transition_id = t.transition_id;
    command_id = t.command_id;
    purpose = t.purpose;
    axis_id = t.axis_id;
    from_state = i.from_state;
    to_state = t.to;
    eligible = i.eligible;
    reasons = i.reasons;
  }

  -- The loop of `availableActions`.
  unfoldable pub available_from :
      Option (Projection X) → Context G → List Transition → Result Thrown (List AvailableAction)
  unfolding included
  available_from p c [] = ok []
  available_from p c (t ∷ ts) = do
    i ← inspect_transition host workflow p t c
    rest ← available_from p c ts
    ok (if included t.from i.from_state then action_of t i ∷ rest else rest)

  -- `availableActions`
  unfoldable pub available_actions :
      Option (Projection X) → Context G → Result Thrown (List AvailableAction)
  unfolding available_from
  available_actions p c = available_from p c workflow.transitions

  unfoldable pub is_due : Option String → Transition → Bool
  unfolding included
  is_due event_type t =
      not t.automation.is_manual
      && (not (truthy event_type) || included t.automation.trigger_event_types event_type)

  due_from :
      Option (Projection X)
      → Option String
      → Context G
      → List Transition
      → Result Thrown (List DueAutomation)
  unfolding is_due
  due_from p event_type c [] = ok []
  due_from p event_type c (t ∷ ts) =
      let rest = due_from p event_type c ts in
      if is_due event_type t
      then (do
        i ← inspect_transition host workflow p t c
        later ← rest
        ok (
            record { transition_id = t.transition_id; command_id = t.command_id; inspection = i }
            ∷ later))
      else rest

  -- `dueAutomations`
  unfoldable pub due_automations :
      Option (Projection X) → Option String → Context G → Result Thrown (List DueAutomation)
  unfolding due_from
  due_automations p event_type c = due_from p event_type c workflow.transitions
