-- ===== src/Workflow/Spec.antt =====
-- The workflow document that the engine is built on (contracts/workflow.schema.json), as far as
-- src/workflow reads it, the projection of an entity, and what callers submit.
use ai_core.Base.{ℕ, String, Bool, Option, List}
use ai_core.Base.Table.{Table}
use ai_core.Json.{Json}

pub data GuardKind : Type 0 where
  fact_present : (fact_id : String) → GuardKind
  fact_equals : (fact_id : String) (expected : Json) → GuardKind
  custom : (kind : String) → GuardKind

pub record Guard : Type 0 where
  pub guard_id : String
  pub kind : GuardKind

pub record EvidenceRequirement : Type 0 where
  pub evidence_id : String
  pub verification : String

pub record Command : Type 0 where
  pub command_id : String
  pub idempotency_required : Bool

pub data ApprovalPolicy : Type 0 where
  no_approval any_one all_roles : ApprovalPolicy

pub record Approval : Type 0 where
  pub policy : ApprovalPolicy
  pub required_roles : List String
  pub separation_of_duties : Bool

pub record ManualOverride : Type 0 where
  pub allowed : Bool
  pub permissions : List String
  pub can_bypass : List String
  pub requires_reason : Bool

pub data RetryStrategy : Type 0 where
  no_retry fixed exponential manual : RetryStrategy

pub record Retry : Type 0 where
  pub strategy : RetryStrategy
  pub max_attempts : ℕ
  pub base_delay_ms : ℕ
  pub retryable_error_codes : List String

pub record FailurePolicy : Type 0 where
  pub on_exhausted : String
  pub failure_state : Option String
  pub compensation_transition_id : Option String
  pub escalation_event_type : Option String

pub record Automation : Type 0 where
  pub is_manual : Bool  -- mode === 'MANUAL'
  pub trigger_event_types : List String

pub record Transition : Type 0 where
  pub transition_id : String
  pub purpose : String
  pub axis_id : String
  pub from : List String
  pub to : String
  pub command_id : String
  pub event_type : String
  pub guards : List String
  pub permissions : List String
  pub required_evidence : List String
  pub approval : Approval
  pub effects : List Json
  pub failure : FailurePolicy
  pub retry : Retry
  pub automation : Automation
  pub manual_override : ManualOverride
  pub reversible : Bool
  pub compensation_transition_id : Option String
  pub reason_required : Bool  -- audit.reason_required
  pub timeout : Option Json
  pub sla : Option Json

pub record Axis : Type 0 where
  pub axis_id : String
  pub initial_state : String
  pub states : List String

pub record Workflow : Type 0 where
  pub workflow_id : String
  pub version : String
  pub state_axes : List Axis
  pub guards : List Guard
  pub evidence_requirements : List EvidenceRequirement
  pub commands : List Command
  pub transitions : List Transition

-- The state of one entity. `extra` holds the fields that the engine copies and does not read.
pub record Projection (X : Type 0) : Type 0 where
  pub entity_id : Option String
  pub revision : ℕ
  pub states : Table String
  pub updated_at : Option String
  pub extra : X

pub record Evidence : Type 0 where
  pub evidence_id : String
  pub verification : Option String
  pub ref : Option String

-- Evidence comes as an array of items or as an object from evidence id to item.
pub data EvidenceInput : Type 0 where
  absent : EvidenceInput
  items : List Evidence → EvidenceInput
  keyed : List (String × Evidence) → EvidenceInput

pub record ApprovalItem : Type 0 where
  pub role : Option String
  pub actor_id : Option String

-- What a transition is inspected against. `guard_context` is for the caller's own guards.
pub record Context (G : Type 0) : Type 0 where
  pub permissions : List String
  pub facts : Table Json
  pub evidence : EvidenceInput
  pub approvals : List ApprovalItem
  pub actor : Option String
  pub guard_context : G
