-- ===== src/Authority/Approval.antt =====
-- src/security/approval-policy.mjs. A time is what `Date.parse` makes of a text, in milliseconds;
-- `none` is `NaN`. `bundle` and `policy` are objects (the first two checks are their types).
pub mod Justified
use Prim.Native.Char.{code}
use Prim.Native.String
use ai_core.Base.{
  ℕ, suc, ◌*◌, ◌-◌, String, Bool, true, false, not, ◌&&◌, ◌||◌, Option, none, some, List, [], ◌∷◌,
  ◌==◌, find, keep, length, ltb, leb, eqb, is_some, truthy, same_text, if◌then◌else◌,
}
use ai_core.Base.Field.{Field, missing, null_value, value, same_field, is_given}
use ai_core.Base.Result.{Result, ok, err, need, ◌>>=◌, ◌>>◌}
use text.Mathlib.Text.{starts_with}

pub data ApprovalError : Type 0 where
  policy_mismatch risk_class_mismatch subject_revision_mismatch target_count_mismatch :
      ApprovalError
  digest_invalid digest_mismatch : (key : String) → ApprovalError

pub record Subject : Type 0 where
  pub plan_digest : Field
  pub target_digest : Field
  pub artifact_digest : Field
  pub command_digest : Field
  pub subject_revision : Field
  pub target_count : Option ℕ

pub record Review : Type 0 where
  pub reviewer_id : Option String
  pub decision : String
  pub expires_at : Option ℕ

pub record Emergency : Type 0 where
  pub approver_id : Option String
  pub approved_at : Option ℕ
  pub expires_at : Option ℕ

pub record EmergencyPolicy : Type 0 where
  pub allowed : Bool
  pub max_ttl_seconds : ℕ
  pub command_binding_required : Bool
  pub bypass_independent_review : Bool

pub record Policy : Type 0 where
  pub policy_id : String
  pub risk_class : String
  pub independent_review_count : ℕ
  pub human_approval_required : Bool
  pub emergency_override : EmergencyPolicy

pub record Bundle : Type 0 where
  pub policy_id : String
  pub risk_class : String
  pub subject : Subject
  pub executor_id : Option String
  pub reviews : List Review
  pub emergency_approval : Option Emergency
  pub owner_expires_at : Option ℕ  -- owner_approval.expires_at

pub data Verdict : Type 0 where
  review_blocked : (reviewer_id : Option String) → Verdict
  emergency_override_forbidden emergency_ttl_invalid : Verdict
  emergency_command_binding_required human_approval_required : Verdict
  independent_review_required : (required actual : ℕ) → Verdict
  owner_approval_required : Verdict
  allowed_by_emergency allowed_by_standard : Verdict

hex_length : String → Option ℕ
hex_length String.[] = some 0
hex_length (String.◌∷◌ c s) = elim (hex_length s) [
  | none ↦ none
  | some n ↦
      if (leb b'0' (code c) && leb (code c) b'9') || (leb b'a' (code c) && leb (code c) b'f')
      then some (suc n)
      else none
]

tail_of : ℕ → String → String
tail_of n String.[] = ""
tail_of ℕ.zero s = s
tail_of (suc n) (String.◌∷◌ c s) = tail_of n s

-- `/^sha256:[0-9a-f]{64}$/.test(value)`
is_digest_text : String → Bool
unfolding hex_length tail_of
is_digest_text s =
    starts_with s "sha256:"
    && (elim (hex_length (tail_of 7 s)) [ none ↦ false | some n ↦ eqb n 64 ])

-- `digest`
unfoldable pub is_digest : Field → Bool
unfolding is_digest_text
is_digest (value s) = is_digest_text s
is_digest _ = false

is_null : Field → Bool
is_null null_value = true
is_null _ = false

is_missing : Field → Bool
is_missing missing = true
is_missing _ = false

-- `expected[key] === undefined || actual[key] === expected[key]`
unfoldable pub as_expected : Field → Field → Bool
unfolding is_missing
as_expected actual expected = is_missing expected || same_field actual expected

check_required : String → Field → Field → Result ApprovalError (Unit {0})
unfolding is_digest as_expected
check_required key actual expected = do
  need (is_digest actual) (digest_invalid key)
  need (as_expected actual expected) (digest_mismatch key)

check_optional : String → Field → Field → Result ApprovalError (Unit {0})
unfolding is_digest as_expected is_null
check_optional key actual expected = do
  need (is_null actual || is_digest actual) (digest_invalid key)
  need (as_expected actual expected) (digest_mismatch key)

same_count : Option ℕ → ℕ → Bool
same_count none n = false
same_count (some m) n = eqb m n

count_as_expected : Option ℕ → Option ℕ → Bool
unfolding same_count
count_as_expected actual none = true
count_as_expected actual (some n) = same_count actual n

-- `assertApprovalSubjectMatches`
unfoldable pub assert_subject_matches : Subject → Subject → Result ApprovalError (Unit {0})
unfolding check_required check_optional as_expected count_as_expected
assert_subject_matches actual expected = do
  check_required "plan_digest" actual.plan_digest expected.plan_digest
  check_required "target_digest" actual.target_digest expected.target_digest
  check_optional "artifact_digest" actual.artifact_digest expected.artifact_digest
  check_optional "command_digest" actual.command_digest expected.command_digest
  need (as_expected actual.subject_revision expected.subject_revision) subject_revision_mismatch
  need (count_as_expected actual.target_count expected.target_count) target_count_mismatch

-- `alive`, of the time at which a record expires
unfoldable pub alive : Option ℕ → ℕ → Bool
alive none now = false
alive (some t) now = ltb now t

-- `validReviews`
unfoldable pub valid_reviews : Bundle → ℕ → List Review
unfolding alive
valid_reviews b now = keep (λ (r : Review). alive r.expires_at now) b.reviews

-- The reviews that count as independent approvals.
unfoldable pub independent_reviews : Bundle → ℕ → List Review
unfolding valid_reviews
independent_reviews b now =
    keep (λ (r : Review). r.decision == "APPROVE" && not (same_text r.reviewer_id b.executor_id))
      (valid_reviews b now)

-- `Number.isFinite(ttl) && ttl >= 0 && ttl <= max_ttl_seconds`
ttl_valid : Option ℕ → Option ℕ → ℕ → Bool
ttl_valid none expires max = false
ttl_valid (some approved) none max = false
ttl_valid (some approved) (some expires) max =
    leb approved expires && leb (expires - approved) (max * 1000)

-- The part of `evaluateApprovalBundle` from the count of independent reviews on.
unfoldable pub standard_path : Bundle → Policy → ℕ → Verdict
unfolding independent_reviews alive
standard_path b p now =
    if ltb (length (independent_reviews b now)) p.independent_review_count
    then independent_review_required p.independent_review_count (length (independent_reviews b now))
    else if p.human_approval_required && not (alive b.owner_expires_at now)
    then owner_approval_required
    else allowed_by_standard

-- The branch for an emergency approval that is alive.
unfoldable pub emergency_path : Bundle → Policy → Emergency → ℕ → Verdict
unfolding ttl_valid standard_path
emergency_path b p e now =
    if not p.emergency_override.allowed
    then emergency_override_forbidden
    else if not (ttl_valid e.approved_at e.expires_at p.emergency_override.max_ttl_seconds)
    then emergency_ttl_invalid
    else if p.emergency_override.command_binding_required && not (is_given b.subject.command_digest)
    then emergency_command_binding_required
    else if p.human_approval_required && not (truthy e.approver_id)
    then human_approval_required
    else if p.emergency_override.bypass_independent_review
    then allowed_by_emergency
    else standard_path b p now

unfoldable pub judge_emergency : Bundle → Policy → ℕ → Option Emergency → Verdict
unfolding emergency_path alive standard_path
judge_emergency b p now none = standard_path b p now
judge_emergency b p now (some e) =
    if alive e.expires_at now then emergency_path b p e now else standard_path b p now

unfoldable pub judge : Bundle → Policy → ℕ → Verdict
unfolding judge_emergency valid_reviews
judge b p now = elim (find (λ (r : Review). r.decision == "BLOCK") (valid_reviews b now)) [
  | some blocker ↦ review_blocked blocker.reviewer_id
  | none ↦ judge_emergency b p now b.emergency_approval
]

-- `evaluateApprovalBundle`
unfoldable pub evaluate_approval_bundle :
    Bundle → Policy → Subject → ℕ → Result ApprovalError Verdict
unfolding assert_subject_matches judge
evaluate_approval_bundle b p expected now = do
  need (b.policy_id == p.policy_id) policy_mismatch
  need (b.risk_class == p.risk_class) risk_class_mismatch
  assert_subject_matches b.subject expected
  ok (judge b p now)

abbrev pub is_allowed : Verdict → Bool
is_allowed allowed_by_emergency = true
is_allowed allowed_by_standard = true
is_allowed _ = false
