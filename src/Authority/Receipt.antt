-- ===== src/Authority/Receipt.antt =====
-- src/engine/control-tower-authority.mjs. The reader of the context, the ledger verifier and the
-- control tower are functions that the caller passes; each may throw. A time is what `Date.parse`
-- makes of a text, in milliseconds.
pub mod Currency
use ai_core.Base.{
  ℕ, String, Bool, true, false, not, ◌&&◌, ◌||◌, Option, none, some, List, [], ◌∷◌, ◌==◌, every,
  find, keep, includes, is_empty, leb, truthy, same_text, eqb, if◌then◌else◌,
}
use ai_core.Base.Result.{Result, ok, err, need, ◌>>=◌, ◌>>◌}

pub record Plan : Type 0 where
  pub order_id : Option String
  pub work_id : Option String
  pub project_id : Option String
  pub subject_revision : Option String

pub record Capability : Type 0 where
  pub id : String
  pub required_scopes : List String

pub record Mapping : Type 0 where
  pub order_id : Option String
  pub requirement_revision : Option ℕ
  pub work_id : Option String
  pub project_id : Option String
  pub subject_revision : Option String

pub record Authorization : Type 0 where
  pub required : Bool
  pub status : String
  pub revision : Option String
  pub scope : Option (List String)
  pub expires_at : Option ℕ
  pub authorized_by : Option String
  pub action : Option String
  pub target : Option String

pub record ControlItem : Type 0 where
  pub id : Option String
  pub project_id : Option String
  pub subject_revision : Option String
  pub authorization : Option Authorization

pub record Context : Type 0 where
  pub order_revision : Option ℕ
  pub mappings : List Mapping
  pub items : List ControlItem  -- snapshot.items
  pub ledger_text : String

pub record LedgerState : Type 0 where
  pub status : String
  pub head : Option String

pub record Controlled : Type 0 where
  pub id : Option String
  pub enabled : Bool
  pub reasons : List String

pub record Control : Type 0 where
  pub ledger_head : Option String
  pub items : List Controlled

-- The functions that `createControlTowerAuthorityBridge` takes; an error is the message thrown.
pub record Tower : Type 0 where
  pub read_context : Option String → Result String Context
  pub verify_ledger_text : String → Result String LedgerState
  pub run_control_tower : Context → Result String Control

pub record Located : Type 0 where
  pub context : Context
  pub ledger : LedgerState
  pub item : ControlItem

pub record Inspected : Type 0 where
  pub head : Option String
  pub authorization : Authorization
  pub scope : List String

-- The receipt of `issue`.
pub record Authority : Type 0 where
  pub schema : String
  pub status : String
  pub order_id : Option String
  pub work_id : Option String
  pub project_id : Option String
  pub capability_id : String
  pub subject_revision : Option String
  pub ledger_head : Option String
  pub scopes : Option (List String)
  pub authorized_by : Option String
  pub authorization_action : Option String
  pub authorization_target : Option String
  pub authorization_expires_at : Option ℕ

pub data Issued : Type 0 where
  granted : Authority → Issued
  hold : (reason : String) → Issued

same_number : Option ℕ → Option ℕ → Bool
same_number none none = true
same_number (some a) (some b) = eqb a b
same_number _ _ = false

abbrev pub needed : {A : Type 0} → Option A → String → Result String A
needed none e = err e
needed (some a) e = ok a

mapping_matches : Plan → Context → Mapping → Bool
unfolding same_number
mapping_matches plan context m =
    same_text m.order_id plan.order_id
    && same_number m.requirement_revision context.order_revision
    && same_text m.work_id plan.work_id

-- `canonicalAuth.expires_at && Date.parse(canonicalAuth.expires_at) <= now`
unfoldable pub is_expired : Option ℕ → ℕ → Bool
is_expired none now = false
is_expired (some t) now = leb t now

first_reason : List String → String
first_reason [] = "CONTROL_EXECUTION_BLOCKED"
first_reason (r ∷ rs) = r

unfoldable pub check_authorization :
    Option Authorization → Plan → Capability → ℕ → Result String (Authorization × List String)
unfolding is_expired
check_authorization authorization plan capability now = do
  auth ← needed authorization "CANONICAL_AUTHORITY_NOT_GRANTED"
  need (auth.required && auth.status == "GRANTED") "CANONICAL_AUTHORITY_NOT_GRANTED"
  need (same_text auth.revision plan.subject_revision) "CANONICAL_AUTHORITY_STALE"
  scope ← needed auth.scope "CANONICAL_AUTHORITY_SCOPE_MISSING"
  need (every (includes scope) capability.required_scopes) "CANONICAL_AUTHORITY_SCOPE_MISSING"
  need (not (is_expired auth.expires_at now)) "AUTHORIZATION_EXPIRED"
  ok (auth, scope)

unfoldable pub check_control : Control → LedgerState → Plan → Result String (Unit {0})
unfolding first_reason
check_control control ledger plan = do
  need (same_text control.ledger_head ledger.head) "CONTROL_LEDGER_HEAD_MISMATCH"
  row ←
      needed (find (λ (c : Controlled). same_text c.id plan.work_id) control.items)
        "CONTROL_EXECUTION_BLOCKED"
  need (row.enabled && is_empty row.reasons) (first_reason row.reasons)

module _ (tower : Tower) where
  -- The first half of `inspectCanonicalAuthority`: the context, the ledger and the work item that
  -- the plan speaks of.
  unfoldable pub locate : Plan → Result String Located
  unfolding mapping_matches
  locate plan = do
    need
        (truthy plan.order_id
          && truthy plan.work_id
          && truthy plan.project_id
          && truthy plan.subject_revision)
        "EXECUTION_CONTEXT_REQUIRED"
    context ← tower.read_context plan.order_id
    ledger ← tower.verify_ledger_text context.ledger_text
    need (ledger.status == "VALID" && truthy ledger.head) "LEDGER_INVALID"
    mapping ←
        needed (find (mapping_matches plan context) context.mappings) "ORDER_WORK_MAPPING_MISSING"
    need
        (same_text mapping.project_id plan.project_id
          && same_text mapping.subject_revision plan.subject_revision)
        "ORDER_WORK_MAPPING_STALE"
    item ←
        needed (find (λ (i : ControlItem). same_text i.id plan.work_id) context.items)
          "CONTROL_ITEM_STALE"
    need
        (same_text item.project_id plan.project_id
          && same_text item.subject_revision plan.subject_revision)
        "CONTROL_ITEM_STALE"
    ok (record { context = context; ledger = ledger; item = item })

  -- `inspectCanonicalAuthority`; a reason to hold and a thrown message are both errors here, and
  -- both callers treat them alike.
  unfoldable pub inspect_authority : Plan → Capability → ℕ → Result String Inspected
  unfolding locate check_authorization check_control
  inspect_authority plan capability now = do
    l ← locate plan
    found ← check_authorization l.item.authorization plan capability now
    control ← tower.run_control_tower l.context
    check_control control l.ledger plan
    ok (record { head = l.ledger.head; authorization = found.0; scope = found.1 })

  unfoldable pub receipt_of : Plan → Capability → Inspected → Authority
  receipt_of plan capability i = record {
    schema = "ai-core-authority-receipt/v1";
    status = "GRANTED";
    order_id = plan.order_id;
    work_id = plan.work_id;
    project_id = plan.project_id;
    capability_id = capability.id;
    subject_revision = plan.subject_revision;
    ledger_head = i.head;
    scopes = some (keep (includes i.scope) capability.required_scopes);
    authorized_by = i.authorization.authorized_by;
    authorization_action = i.authorization.action;
    authorization_target = i.authorization.target;
    authorization_expires_at = i.authorization.expires_at;
  }

  -- `issue`; `error?.message || 'AUTHORITY_ISSUE_FAILED'` for an empty message
  unfoldable pub issue : Plan → Capability → ℕ → Issued
  unfolding inspect_authority receipt_of
  issue plan capability now = elim (inspect_authority plan capability now) [
    | err reason ↦ hold (if reason == "" then "AUTHORITY_ISSUE_FAILED" else reason)
    | ok i ↦ granted (receipt_of plan capability i)
  ]

  scopes_cover : Option (List String) → List String → Bool
  scopes_cover none required = false
  scopes_cover (some scopes) required = every (includes scopes) required

  scopes_within : Option (List String) → List String → Bool
  scopes_within none scope = false
  scopes_within (some scopes) scope = every (includes scope) scopes

  -- The tests of `verify` on the receipt itself.
  unfoldable pub receipt_fits : Authority → Plan → Capability → Bool
  unfolding scopes_cover
  receipt_fits a plan capability =
      a.schema == "ai-core-authority-receipt/v1"
      && a.status == "GRANTED"
      && same_text a.order_id plan.order_id
      && same_text a.work_id plan.work_id
      && same_text a.project_id plan.project_id
      && a.capability_id == capability.id
      && same_text a.subject_revision plan.subject_revision
      && scopes_cover a.scopes capability.required_scopes

  -- The tests of `verify` against what the canonical sources say now.
  unfoldable pub receipt_current : Authority → Inspected → Bool
  unfolding scopes_within same_number
  receipt_current a i =
      same_text a.ledger_head i.head
      && scopes_within a.scopes i.scope
      && same_text a.authorized_by i.authorization.authorized_by
      && same_text a.authorization_action i.authorization.action
      && same_text a.authorization_target i.authorization.target
      && same_number a.authorization_expires_at i.authorization.expires_at

  verified_against : Authority → Result String Inspected → Bool
  unfolding receipt_current
  verified_against a (err reason) = false
  verified_against a (ok i) = receipt_current a i

  -- `verify`; `none` is a receipt that is missing.
  unfoldable pub verify : Option Authority → Plan → Capability → ℕ → Bool
  unfolding receipt_fits verified_against inspect_authority
  verify none plan capability now = false
  verify (some a) plan capability now =
      if receipt_fits a plan capability
      then verified_against a (inspect_authority plan capability now)
      else false
