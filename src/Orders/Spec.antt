-- ===== src/Orders/Spec.antt =====
-- The documents of src/orders/store.mjs. A time is a number of milliseconds; the source writes it as
-- an ISO text and reads it back by `Date.parse`.
use ai_core.Base.{ℕ, String, Bool, Option, List}
use ai_core.Json.{Json}

pub record Lease : Type 0 where
  pub token : String
  pub expires_at : ℕ
  pub revision : ℕ

pub record Report : Type 0 where
  pub summary : String
  pub evidence : List String
  pub revision : ℕ
  pub actor : String
  pub at : ℕ

pub record Task : Type 0 where
  pub id : String
  pub role : String
  pub title : String
  pub assigned : String
  pub status : String
  pub attempt : ℕ
  pub lease : Option Lease
  pub report : Option Report
  pub blocked_reason : Option String

pub record Routing : Type 0 where
  pub keys : List String  -- Object.keys(value)
  pub status : Option String
  pub work_type_id : Option String
  pub capability_id : Option String
  pub target_project_id : Option String
  pub target_revision : Option String
  pub requirement_revision : Option ℕ
  pub blockers : Option (List String)

pub record ClosureCheck : Type 0 where
  pub criterion : ℕ
  pub text : String
  pub task_id : String
  pub evidence_index : ℕ
  pub evidence : String

pub record Closure : Type 0 where
  pub at : ℕ
  pub note : String
  pub revision : ℕ
  pub checks : List ClosureCheck

pub record Order : Type 0 where
  pub id : String
  pub title : String
  pub intent : String
  pub project : String
  pub kind : String
  pub criteria : List String
  pub source : String
  pub routing : Option Routing
  pub revision : ℕ
  pub version : ℕ
  pub status : String
  pub created_at : ℕ
  pub updated_at : ℕ
  pub tasks : List Task
  pub closure : Option Closure

pub data Action : Type 0 where
  assign claim heartbeat report block revise reroute note close cancel : Action
  unknown : String → Action

-- A link from a criterion to a piece of evidence, as the caller wrote it.
pub record Check : Type 0 where
  pub criterion : Option ℕ
  pub task_id : Option String
  pub evidence_index : Option ℕ

-- `document` is the whole command as JSON, of which digests are taken.
pub record Command : Type 0 where
  pub request_id : Option String
  pub version : Option ℕ
  pub action : Action
  pub task_id : Option String
  pub actor : Option String
  pub token : Option String
  pub reason : Option String
  pub revision : Option ℕ
  pub summary : Option String
  pub evidence : Option (List String)
  pub intent : Option String
  pub criteria : Option (List String)
  pub note : Option String
  pub routing : Option Routing
  pub confirmed : Bool
  pub checks : Option (List Check)
  pub document : Json
