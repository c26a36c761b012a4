-- ===== src/Chain/Append.antt =====
-- `currentWorkProjection`, `decideLedgerAppendAgainstCurrent` and `decideLedgerAppend` of
-- scripts/work-ledger.mjs. The text of a candidate is the lines of the ledger and the new record's:
-- `JSON.parse` returns what `JSON.stringify` wrote.
use ai_core.Base.{
  ℕ, ◌+◌, ◌-◌, String, Bool, true, false, not, ◌&&◌, Option, none, some, List, [], ◌∷◌, ◌++◌, ◌==◌,
  if◌then◌else◌,
}
use ai_core.Base.Field.{Field, null_value, value, same_field, field_text, is_text}
use ai_core.Base.Result.{Result, ok, err, ◌>>=◌}
use ai_core.Base.Table
use ai_core.Json.{Json, null, str, arr, Items, nil, cons, Fields, lookup, with_field, field_at}
use ai_core.Workflow.Spec.{Workflow}
use ai_core.Workflow.Registry.{Graph}
use ai_core.Workflow.Inspect.{Thrown}
use ai_core.Workflow.Decide.{Stamp}
use ai_core.Ledger.{adjudicate}
use ai_core.Ledger.Events.{
  EventType, created, transitioned, blocked, resumed, cancelled, reobserved, other, LedgerEvent,
  WorkProjection, Adjudication,
}
use ai_core.Chain.Verify.{Verification, event_hash, verify, is_valid, parsed}
use ai_core.Chain.Checks.{Code, Crash, WorkState, work_of, to_of, subject_of, included}

-- The public code of a rejected event.
pub data Rejection : Type 0 where
  revision_change_requires_reobserved event_invalid workflow_decision_mismatch : Rejection
  by_verifier : Code → Rejection

pub data LedgerError : Type 0 where
  crash : Crash → LedgerError
  engine_thrown : Thrown → LedgerError
  ledger_locked ledger_invalid ledger_head_changed : LedgerError
  rejected : Rejection → LedgerError

event_type : Field → EventType
event_type (value s) =
    if s == "CREATED"
    then created
    else if s == "TRANSITIONED"
    then transitioned
    else if s == "BLOCKED"
    then blocked
    else if s == "RESUMED"
    then resumed
    else if s == "CANCELLED"
    then cancelled
    else if s == "REOBSERVED"
    then reobserved
    else other s
event_type _ = other ""

texts_of : Items → List String
texts_of nil = []
texts_of (cons v xs) = let rest = texts_of xs in elim v [ str s ↦ s ∷ rest | _ ↦ rest ]

evidence_of : Option Json → Option (List String)
unfolding texts_of
evidence_of none = none
evidence_of (some (arr xs)) = some (texts_of xs)
evidence_of (some _) = none

-- The event as the workflow admission reads it.
unfoldable pub event_of : Fields → LedgerEvent
unfolding event_type evidence_of
event_of e = record {
  type = event_type (field_at "type" e);
  event_id = field_text (field_at "event_id" e);
  work_id = work_of e;
  project_id = field_at "project_id" e;
  from_state = field_at "from_state" e;
  to_state = to_of e;
  subject_revision = subject_of e;
  evidence_refs = evidence_of (lookup "evidence_refs" e);
  actor = field_text (field_at "actor" e);
  reason = field_text (field_at "reason" e);
}

-- What the loop of `currentWorkProjection` counts for one work.
pub record Tally : Type 0 where
  pub captured : Bool
  pub revision : Field
  pub count : ℕ

count_event : Graph → Tally → Fields → Tally
unfolding included
count_event g t e =
    if is_text (to_of e) "VERIFYING"
    then record { captured = true; revision = subject_of e; count = t.count + 1 }
    else if included g.reobservable (to_of e)
    then record { captured = false; revision = null_value; count = t.count + 1 }
    else record t { count = t.count + 1 }

unfoldable pub tally : Graph → String → Tally → List Fields → Tally
unfolding count_event
tally g work t [] = t
tally g work t (e ∷ es) = tally g work (if work_of e == work then count_event g t e else t) es

state_text : Field → String
state_text f = elim (field_text f) [ none ↦ "" | some s ↦ s ]

projected : String → WorkState → Tally → WorkProjection
unfolding state_text
projected work prior t = record {
  entity_id = some work;
  revision = t.count - 1;
  states = ("lifecycle", state_text prior.state) ∷ [];
  updated_at = none;
  extra = record {
    project_id = prior.project_id;
    subject_revision = prior.subject_revision;
    verification_captured = t.captured;
    verified_revision = t.revision;
    revisions = prior.revisions;
    event_count = t.count;
  };
}

-- `currentWorkProjection`, of a ledger that has been verified
unfoldable pub current_projection :
    Graph → List (Option Fields) → Verification → Fields → Option WorkProjection
unfolding tally projected parsed
current_projection g ls current e = elim (Table.get (work_of e) current.work) [
  | none ↦ none
  | some prior ↦ some (
      projected (work_of e) prior (
        tally g (work_of e) (record { captured = false; revision = null_value; count = 0 })
          (parsed ls)))
]

-- `event?.type === 'CREATED' ? null : currentWorkProjection(…)`
unfoldable pub admitted_projection :
    Graph → List (Option Fields) → Verification → Fields → Option WorkProjection
unfolding current_projection
admitted_projection g ls current e =
    if is_text (field_at "type" e) "CREATED" then none else current_projection g ls current e

pub record AppendDecision : Type 0 where
  pub rejection : Option Rejection  -- rejection_code; the event is accepted where there is none
  pub adjudication : Adjudication
  pub candidate : Verification
  pub entry : Fields  -- record

first_code : List (Code × ℕ) → Rejection
first_code [] = event_invalid
first_code ((c, n) ∷ rest) = by_verifier c

-- The revision differs from the recorded one, though the event is no re-observation.
revision_moves : Option WorkState → Fields → Bool
revision_moves none e = false
revision_moves (some prior) e =
    not (is_text (field_at "type" e) "REOBSERVED")
    && not (is_text (field_at "type" e) "CREATED")
    && not (same_field (subject_of e) prior.subject_revision)

-- `rejectionCode`
unfoldable pub rejection_of : Bool → Option WorkState → Fields → Verification → Option Rejection
unfolding first_code revision_moves
rejection_of eligible prior e candidate =
    if not eligible
    then (if revision_moves prior e
        then some revision_change_requires_reobserved
        else if not (is_valid candidate)
        then some (first_code candidate.errors)
        else some workflow_decision_mismatch)
    else if not (is_valid candidate)
    then some (first_code candidate.errors)
    else none

field_json : Field → Json
field_json (value s) = str s
field_json _ = null

abbrev pub adapt : {E A : Type 0} → (E → LedgerError) → Result E A → Result LedgerError A
adapt f (ok a) = ok a
adapt f (err e) = err (f e)

module _ (sha256_json : Json → String) where
  -- The event with the hash of the head and its own.
  unfoldable pub record_of : Field → Fields → Fields
  unfolding field_json
  record_of head e =
      let linked = with_field "previous_hash" (field_json head) e in
      with_field "event_hash" (str (event_hash sha256_json linked)) linked

  module _ (valid_event : Fields → Bool) (g : Graph) (workflow : Workflow) where
    -- `decideLedgerAppendAgainstCurrent`
    unfoldable pub decide_against :
        Stamp → List (Option Fields) → Verification → Fields → Result LedgerError AppendDecision
    unfolding admitted_projection event_of record_of rejection_of
    decide_against stamp ls current e = do
      a ←
          adapt engine_thrown (
            adjudicate sha256_json workflow stamp (admitted_projection g ls current e) (event_of e))
      candidate ←
          adapt crash
            (verify sha256_json valid_event g (ls ++ some (record_of current.head e) ∷ []))
      ok (record {
        rejection =
            rejection_of a.inspection.eligible (Table.get (work_of e) current.work) e candidate;
        adjudication = a;
        candidate = candidate;
        entry = record_of current.head e;
      })
