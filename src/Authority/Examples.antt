-- ===== src/Authority/Examples.antt =====
-- Concrete approvals and receipts of src/security/approval-policy.mjs and
-- src/engine/control-tower-authority.mjs.
use ai_core.Base.{String, true, false, none, some, List, [], ◌∷◌, ◌≡◌, refl, ◌⊎◌, every, includes}
use ai_core.Base.Field.{Field, null_value, value}
use ai_core.Base.Result.{ok}
use ai_core.Authority.Approval.{
  Bundle, Policy, Emergency, Subject, evaluate_approval_bundle, allowed_by_standard,
}
use ai_core.Authority.Approval.Justified.{IsReviewed, IsEmergency, IsUnblocked, evaluate-IsReviewed}
use ai_core.Authority.Receipt.{
  Plan, Capability, Authorization, Context, Tower, Inspected, granted, issue, verify,
  inspect_authority, receipt_of, is_expired,
}
use ai_core.Authority.Receipt.Currency.{verify_sound, verify-issue}

abbrev some_digest : Field
some_digest = value "sha256:0123456789abcdef0123456789abcdef0123456789abcdef0123456789abcdef"

abbrev subject : Subject
subject = record {
  plan_digest = some_digest;
  target_digest = some_digest;
  artifact_digest = null_value;
  command_digest = null_value;
  subject_revision = value "r1";
  target_count = some 1;
}

abbrev policy : Policy
policy = record {
  policy_id = "deploy";
  risk_class = "HIGH";
  independent_review_count = 1;
  human_approval_required = true;
  emergency_override = record {
    allowed = false;
    max_ttl_seconds = 0;
    command_binding_required = true;
    bypass_independent_review = false;
  };
}

abbrev bundle : Bundle
bundle = record {
  policy_id = "deploy";
  risk_class = "HIGH";
  subject = subject;
  executor_id = some "codex";
  reviews =
      record { reviewer_id = some "claude"; decision = "APPROVE"; expires_at = some 200 } ∷ [];
  emergency_approval = none;
  owner_expires_at = some 150;
}

bundle_allowed : evaluate_approval_bundle bundle policy subject 100 ≡ ok allowed_by_standard
unfolding evaluate_approval_bundle
bundle_allowed = refl

evaluate-IsReviewed_example :
    (bundle.policy_id ≡ policy.policy_id)
    × (bundle.risk_class ≡ policy.risk_class)
    × IsUnblocked bundle policy 100
    × (IsReviewed bundle policy 100
        ⊎ ((e : Emergency) × (bundle.emergency_approval ≡ some e)
            × IsEmergency bundle policy 100 e
            × (policy.emergency_override.bypass_independent_review ≡ true)))
evaluate-IsReviewed_example =
    evaluate-IsReviewed bundle policy 100 subject allowed_by_standard bundle_allowed refl

abbrev plan : Plan
plan = record {
  order_id = some "O1";
  work_id = some "W1";
  project_id = some "P1";
  subject_revision = some "r1";
}

abbrev capability : Capability
capability = record { id = "deploy"; required_scopes = "write" ∷ [] }

abbrev authorization : Authorization
authorization = record {
  required = true;
  status = "GRANTED";
  revision = some "r1";
  scope = some ("read" ∷ "write" ∷ []);
  expires_at = some 500;
  authorized_by = some "owner";
  action = some "deploy";
  target = some "server";
}

abbrev context : Context
context = record {
  order_revision = some 1;
  mappings =
      record {
        order_id = some "O1";
        requirement_revision = some 1;
        work_id = some "W1";
        project_id = some "P1";
        subject_revision = some "r1";
      }
      ∷ [];
  items =
      record {
        id = some "W1";
        project_id = some "P1";
        subject_revision = some "r1";
        authorization = some authorization;
      }
      ∷ [];
  ledger_text = "";
}

abbrev tower : Tower
tower = record {
  read_context = λ _. ok context;
  verify_ledger_text = λ _. ok (record { status = "VALID"; head = some "h1" });
  run_control_tower = λ _. ok (record {
    ledger_head = some "h1";
    items = record { id = some "W1"; enabled = true; reasons = [] } ∷ [];
  });
}

abbrev inspected : Inspected
inspected = record {
  head = some "h1";
  authorization = authorization;
  scope = "read" ∷ "write" ∷ [];
}

inspected_at_100 : inspect_authority tower plan capability 100 ≡ ok inspected
unfolding inspect_authority
inspected_at_100 = refl

inspected_at_400 : inspect_authority tower plan capability 400 ≡ ok inspected
unfolding inspect_authority
inspected_at_400 = refl

issued : issue tower plan capability 100 ≡ granted (receipt_of tower plan capability inspected)
unfolding issue
issued = refl

verify-issue_example :
    verify tower (some (receipt_of tower plan capability inspected)) plan capability 400 ≡ true
verify-issue_example =
    verify-issue tower plan capability 100 400 (receipt_of tower plan capability inspected)
      inspected issued inspected_at_100 inspected_at_400

accepted :
    verify tower (some (receipt_of tower plan capability inspected)) plan capability 400 ≡ true
unfolding verify receipt_of
accepted = refl

verify_sound_example :
    (i : Inspected) × (scopes : List String) × (inspect_authority tower plan capability 400 ≡ ok i)
    × ((receipt_of tower plan capability inspected).scopes ≡ some scopes)
    × (every (includes scopes) ("write" ∷ []) ≡ true)
    × (every (includes i.scope) scopes ≡ true)
    × ((receipt_of tower plan capability inspected).ledger_head ≡ i.head)
    × (is_expired i.authorization.expires_at 400 ≡ false)
verify_sound_example =
    verify_sound tower plan capability 400 (receipt_of tower plan capability inspected) accepted
