-- ===== src/Chain/Checks.antt =====
-- The checks that `verifyLedgerText` of scripts/work-ledger.mjs makes of one event.
use ai_core.Base.{
  ℕ, String, Bool, true, false, not, ◌&&◌, ◌||◌, Option, none, some, List, [], ◌∷◌, ◌++◌, includes,
  if◌then◌else◌,
}
use ai_core.Base.Field.{
  Field, missing, null_value, value, same_field, field_text, is_given, is_text,
}
use ai_core.Base.Result.{Result, ok, err}
use ai_core.Base.Table
use ai_core.Base.Table.{Table}
use ai_core.Workflow.Registry.{Graph}
use ai_core.Json.{arr, Items, nil, Fields, lookup, field_at}

pub data Code : Type 0 where
  ledger_json_invalid event_schema_invalid event_id_duplicate : Code
  ledger_chain_broken event_hash_invalid create_state_invalid from_state_mismatch : Code
  reobserve_state_not_allowed reobserve_revision_unchanged reobserve_evidence_required : Code
  project_changed transition_not_allowed revision_changed_after_verification : Code
  verification_skipped closure_evidence_required : Code

-- `event.evidence_refs.length` of an event that has no such list throws a `TypeError`.
pub data Crash : Type 0 where
  type_error : Crash

pub record WorkState : Type 0 where
  pub state : Field
  pub project_id : Field
  pub subject_revision : Field
  pub revisions : List Field

-- What the loop keeps; `line` is the number of the next line.
pub record Scan : Type 0 where
  pub line : ℕ
  pub states : Table WorkState  -- workStates
  pub verified_at : Table Field
  pub event_ids : List String
  pub head : Field
  pub errors : List (Code × ℕ)

text_of : Field → String
text_of f = elim (field_text f) [ none ↦ "" | some s ↦ s ]

unfoldable pub work_of : Fields → String
unfolding text_of
work_of e = text_of (field_at "work_id" e)

unfoldable pub id_of : Fields → String
unfolding text_of
id_of e = text_of (field_at "event_id" e)

unfoldable pub to_of : Fields → Field
to_of e = field_at "to_state" e

unfoldable pub subject_of : Fields → Field
subject_of e = field_at "subject_revision" e

unfoldable pub previous_of : Fields → Field
previous_of e = field_at "previous_hash" e

unfoldable pub stored_of : Fields → Field
stored_of e = field_at "event_hash" e

unfoldable pub has_type : Fields → String → Bool
has_type e t = is_text (field_at "type" e) t

is_null : Field → Bool
is_null null_value = true
is_null _ = false

-- `list.includes(field)`
unfoldable pub included : List String → Field → Bool
included list (value s) = includes list s
included list _ = false

items_empty : Items → Bool
items_empty nil = true
items_empty _ = false

-- `event.evidence_refs?.length`, as a truth value; `none` is a list that is not there
unfoldable pub evidence_given : Fields → Option Bool
unfolding items_empty
evidence_given e = elim (lookup "evidence_refs" e) [
  | none ↦ none
  | some v ↦ elim v [ arr xs ↦ some (not (items_empty xs)) | _ ↦ none ]
]

-- `if (test) errors.push({ code, line })`
unfoldable pub note : Bool → Code → List Code
note true code = code ∷ []
note false code = []

state_of : Option WorkState → Field
state_of none = missing
state_of (some w) = w.state

project_of : Option WorkState → Field
project_of none = missing
project_of (some w) = w.project_id

revision_of : Option WorkState → Field
revision_of none = missing
revision_of (some w) = w.subject_revision

revisions_of : Option WorkState → List Field
revisions_of none = []
revisions_of (some w) = w.revisions

has_prior : Option WorkState → Bool
has_prior none = false
has_prior (some w) = true

-- The checks of a `CREATED` event.
created_errors : Option WorkState → Fields → List Code
unfolding has_prior is_null note
created_errors prior e =
    note
      (has_prior prior
        || not (is_null (field_at "from_state" e))
        || not (is_text (to_of e) "RECEIVED"))
      create_state_invalid

-- The checks of a `REOBSERVED` event.
reobserved_errors : Graph → Option WorkState → Fields → List Code
unfolding has_prior included note evidence_given state_of revision_of project_of
reobserved_errors g prior e =
    note
      (not (has_prior prior)
        || not (same_field (field_at "from_state" e) (state_of prior))
        || not (same_field (to_of e) (state_of prior)))
      from_state_mismatch
    ++ note (not (included g.reobservable (state_of prior))) reobserve_state_not_allowed
    ++ note (not (is_given (subject_of e)) || same_field (subject_of e) (revision_of prior))
        reobserve_revision_unchanged
    ++ note (elim (evidence_given e) [ none ↦ true | some b ↦ not b ]) reobserve_evidence_required
    ++ note (not (same_field (project_of prior) (field_at "project_id" e))) project_changed

-- `transitions.get(event.from_state)?.includes(event.to_state)`
unfoldable pub is_edge : Graph → Field → Field → Bool
unfolding included
is_edge g (value from) to = elim (Table.get from g.transitions) [
  | none ↦ false
  | some ts ↦ included ts to
]
is_edge g _ to = false

-- The state is neither `VERIFYING` nor one that may be observed again.
unfoldable pub is_after_verification : Graph → Field → Bool
unfolding included
is_after_verification g to = not (is_text to "VERIFYING") && not (included g.reobservable to)

-- The checks against the revision that was verified.
unfoldable pub verification_errors : Graph → Option Field → Fields → List Code
unfolding note included is_after_verification
verification_errors g verified e =
    if is_after_verification g (to_of e)
    then elim verified [
      | some r ↦ note (not (same_field (subject_of e) r)) revision_changed_after_verification
      | none ↦ note (included g.verified_path (to_of e)) verification_skipped
    ]
    else []

-- The checks of every other event.
unfoldable pub moved_errors : Graph → Option WorkState → Option Field → Fields → List Code
unfolding has_prior note is_edge state_of project_of verification_errors
moved_errors g prior verified e =
    note (not (has_prior prior) || not (same_field (field_at "from_state" e) (state_of prior)))
      from_state_mismatch
    ++ note (not (is_edge g (field_at "from_state" e) (to_of e))) transition_not_allowed
    ++ note (not (same_field (project_of prior) (field_at "project_id" e))) project_changed
    ++ verification_errors g verified e

unfoldable pub state_errors : Graph → Option WorkState → Option Field → Fields → List Code
unfolding created_errors reobserved_errors moved_errors
state_errors g prior verified e =
    if has_type e "CREATED"
    then created_errors prior e
    else if has_type e "REOBSERVED"
    then reobserved_errors g prior e
    else moved_errors g prior verified e

-- The check of an event that closes the work.
unfoldable pub closure_errors : Fields → Result Crash (List Code)
unfolding note evidence_given
closure_errors e =
    if is_text (to_of e) "CLOSED"
    then (if is_given (subject_of e)
        then elim (evidence_given e) [
          | none ↦ err type_error
          | some b ↦ ok (note (not b) closure_evidence_required)
        ]
        else ok (closure_evidence_required ∷ []))
    else ok []

-- The revision that stands verified for the event's work after the event.
unfoldable pub next_verified : Graph → Fields → Table Field → Table Field
unfolding included
next_verified g e m =
    if is_text (to_of e) "VERIFYING"
    then Table.put (work_of e) (subject_of e) m
    else if included g.reobservable (to_of e)
    then Table.remove (work_of e) m
    else m

last_differs : List Field → Field → Bool
last_differs [] f = not (same_field missing f)
last_differs (x ∷ []) f = not (same_field x f)
last_differs (x ∷ y ∷ xs) f = last_differs (y ∷ xs) f

unfoldable pub next_work_state : Option WorkState → Fields → WorkState
unfolding last_differs revisions_of
next_work_state prior e = record {
  state = to_of e;
  project_id = field_at "project_id" e;
  subject_revision = subject_of e;
  revisions =
      if (has_type e "CREATED" || has_type e "REOBSERVED")
        && is_given (subject_of e)
        && last_differs (revisions_of prior) (subject_of e)
      then revisions_of prior ++ subject_of e ∷ []
      else revisions_of prior;
}

unfoldable pub at_line : ℕ → List Code → List (Code × ℕ)
at_line n [] = []
at_line n (c ∷ cs) = (c, n) ∷ at_line n cs
