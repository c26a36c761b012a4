-- ===== src/Chain/DryRun.antt =====
-- `inspectLedgerEventWithWorkflow` and `decideLedgerAppend` of scripts/work-ledger.mjs: what is said
-- of an event without writing it.
use ai_core.Base.{ℕ, String, Bool, Option, some, List, if◌then◌else◌}
use ai_core.Base.Result.{Result, ok, ◌>>=◌}
use ai_core.Json.{Json, Fields}
use ai_core.Workflow.Spec.{Workflow}
use ai_core.Workflow.Registry.{Graph}
use ai_core.Workflow.Decide.{Stamp}
use ai_core.Ledger.{inspect}
use ai_core.Ledger.Events.{LedgerInspection}
use ai_core.Chain.Verify.{verify, is_valid}
use ai_core.Chain.Checks.{Code}
use ai_core.Chain.Append.{
  LedgerError, crash, engine_thrown, AppendDecision, adapt, admitted_projection, event_of,
  decide_against,
}

-- The answer where the ledger itself is valid, and the errors of a ledger that is not.
pub data Answer (A : Type 0) : Type 0 where
  workflow_ledger_invalid : (ledger_errors : List (Code × ℕ)) → Answer A
  answered : A → Answer A

module _ (sha256_json : Json → String) (valid_event : Fields → Bool) (g : Graph)
    (workflow : Workflow) where
  -- `inspectLedgerEventWithWorkflow`
  unfoldable pub inspect_with_workflow :
      List (Option Fields) → Fields → Result LedgerError (Answer LedgerInspection)
  unfolding admitted_projection event_of
  inspect_with_workflow ls e = do
    current ← adapt crash (verify sha256_json valid_event g ls)
    if is_valid current
        then (do
          i ← adapt engine_thrown (
              inspect sha256_json workflow (admitted_projection g ls current e) (some (event_of e)))
          ok (answered i))
        else ok (workflow_ledger_invalid current.errors)

  -- `decideLedgerAppend`
  unfoldable pub decide_append :
      Stamp → List (Option Fields) → Fields → Result LedgerError (Answer AppendDecision)
  unfolding decide_against
  decide_append stamp ls e = do
    current ← adapt crash (verify sha256_json valid_event g ls)
    if is_valid current
        then (do
          d ← decide_against sha256_json valid_event g workflow stamp ls current e
          ok (answered d))
        else ok (workflow_ledger_invalid current.errors)
