-- ===== src/Ledger/Events.antt =====
-- The events, the projections and the inspections of src/workflow/work-ledger-shadow.mjs.
use ai_core.Base.{
  ℕ, String, Bool, true, false, not, Option, none, some, List, [], ◌∷◌, is_empty, if◌then◌else◌,
}
use ai_core.Base.Field.{Field, missing, value, same_field, field_text}
use ai_core.Workflow.Spec.{Projection}
use ai_core.Workflow.Inspect.{Reason, Thrown}
use ai_core.Workflow.Decide.{Decision}
use ai_core.Ledger.Names.{reobserve_id, move_id, is_revision_text}

pub data EventType : Type 0 where
  created transitioned blocked resumed cancelled reobserved : EventType
  other : String → EventType

pub record LedgerEvent : Type 0 where
  pub type : EventType
  pub event_id : Option String
  pub work_id : String
  pub project_id : Field
  pub from_state : Field
  pub to_state : Field
  pub subject_revision : Field
  pub evidence_refs : Option (List String)
  pub actor : Option String
  pub reason : Option String

-- What the projection of a work item holds beside the fields of the engine.
pub record WorkData : Type 0 where
  pub project_id : Field
  pub subject_revision : Field
  pub verification_captured : Bool
  pub verified_revision : Field
  pub revisions : List Field
  pub event_count : ℕ

abbrev pub WorkProjection : Type 0
WorkProjection = Projection WorkData

pub data LedgerReason : Type 0 where
  ledger_event_required ledger_event_type_invalid work_already_created : LedgerReason
  create_from_state_invalid create_to_state_invalid work_not_created : LedgerReason
  work_id_mismatch transition_not_allowed : LedgerReason
  engine_decision_rejected : Thrown → LedgerReason
  inspection_reason : Reason → LedgerReason

pub record LedgerInspection : Type 0 where
  pub eligible : Bool
  pub reasons : List LedgerReason
  pub transition_id : Option String

pub record Adjudication : Type 0 where
  pub accepted : Bool
  pub inspection : LedgerInspection
  pub decision : Option (Decision WorkData)

pub record Applied : Type 0 where
  pub accepted : Bool
  pub inspection : LedgerInspection
  pub projection : Option WorkProjection

abbrev pub reject : LedgerReason → LedgerInspection
reject r = record { eligible = false; reasons = r ∷ []; transition_id = none }

is_raw_type : EventType → Bool
is_raw_type (other _) = false
is_raw_type _ = true

abbrev pub is_reobserved : EventType → Bool
is_reobserved reobserved = true
is_reobserved _ = false

-- `validRevision`
unfoldable pub valid_revision : Field → Bool
unfolding is_revision_text
valid_revision (value s) = is_revision_text s
valid_revision _ = false

-- `transitionIdFor`
unfoldable pub transition_id_for : LedgerEvent → Option String
unfolding reobserve_id move_id
transition_id_for e =
    if is_reobserved e.type
    then (if same_field e.from_state e.to_state
        then some (reobserve_id (field_text e.from_state))
        else none)
    else some (move_id (field_text e.from_state) (field_text e.to_state))

unfoldable pub has_evidence : Option (List String) → Bool
has_evidence none = false
has_evidence (some refs) = not (is_empty refs)

abbrev pub project_of : Option WorkProjection → Field
project_of none = missing
project_of (some p) = p.extra.project_id

abbrev pub subject_of : Option WorkProjection → Field
subject_of none = missing
subject_of (some p) = p.extra.subject_revision

abbrev pub verified_of : Option WorkProjection → Field
verified_of none = missing
verified_of (some p) = p.extra.verified_revision

abbrev pub captured : Option WorkProjection → Bool
captured none = false
captured (some p) = p.extra.verification_captured
