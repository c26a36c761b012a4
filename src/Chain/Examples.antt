-- ===== src/Chain/Examples.antt =====
-- Concrete ledgers of scripts/work-ledger.mjs.
use ai_core.Json.{with_field}
use ai_core.Ledger.{adjudicate}
use ai_core.Chain.Checks.{subject_of}
use ai_core.Chain.Checks.{work_of}
use ai_core.Chain.Checks.{id_of}
use ai_core.Chain.Checks.{has_type}
use ai_core.Chain.Checks.{previous_of}
use ai_core.Chain.Checks.{to_of}
use ai_core.Base.{
  String, Bool, true, false, Option, none, some, List, [], ◌∷◌, map, ◌≡◌, refl, subst, inl, inr,
}
use ai_core.Base.Field.{null_value}
use ai_core.Base.Result.{ok, err}
use ai_core.Base.Table
use ai_core.Json.{
  Json, null, str, arr, nil, Fields, end, field, canonical, lookup, without, field_at,
}
use ai_core.Workflow.Spec.{Workflow}
use ai_core.Workflow.Registry.{Graph}
use ai_core.Workflow.Decide.{Stamp}
use ai_core.Chain.Verify.{Verification, verify, is_valid, parsed, content_of}
use ai_core.Chain.Checks.{stored_of}
use ai_core.Chain.Verify.Links.{IsChained, IsFresh, verify-IsChained}
use ai_core.Chain.Verify.Tamper.{NoCollision, verify_unique}
use ai_core.Chain.Verify.Captured.{IsCaptured, verify-IsCaptured}
use ai_core.Chain.Append.{ledger_head_changed, record_of}
use ai_core.Chain.File.{Disk, append, lines_of}
use ai_core.Chain.Append.{AppendDecision}
use ai_core.Chain.DryRun.{answered, decide_append}
use ai_core.Chain.File.Agreement.{append-decide_append}
use ai_core.Chain.File.Appends.{IsAppend, append-IsAppend}
use ai_core.Chain.File.Once.{
  IsSettled, Later, now, then_append, append_once, missing_file, by_append, Reachable-IsSettled,
}

abbrev sha : Json → String
sha v = "hash"

abbrev any_event : Fields → Bool
any_event e = true

abbrev work : Workflow
work = record {
  workflow_id = "ai-core.work-lifecycle";
  version = "1";
  state_axes =
      record {
        axis_id = "lifecycle";
        initial_state = "RECEIVED";
        states = "RECEIVED" ∷ "VERIFYING" ∷ "CLOSED" ∷ [];
      }
      ∷ [];
  guards = [];
  evidence_requirements = [];
  commands = [];
  transitions = [];
}

abbrev graph : Graph
graph = record {
  workflow = work;
  axis = record {
    axis_id = "lifecycle";
    initial_state = "RECEIVED";
    states = "RECEIVED" ∷ "VERIFYING" ∷ "VERIFIED" ∷ [];
  };
  transitions = ("RECEIVED", "VERIFYING" ∷ []) ∷ ("VERIFYING", "VERIFIED" ∷ []) ∷ [];
  reobservable = "RECEIVED" ∷ [];
  verified_path = "VERIFIED" ∷ [];
}

abbrev event : (id type : String) → (from : Json) → (to : String) → Fields
event id type from to = field "event_id" (str id) (
    field "work_id" (str "W1") (
      field "project_id" (str "P1") (
        field "type" (str type) (
          field "from_state" from (
            field "to_state" (str to)
              (field "subject_revision" (str "r1") (field "evidence_refs" (arr nil) end)))))))

abbrev linked : Json → Fields → Fields
linked previous e = field "previous_hash" previous (field "event_hash" (str "sha256:hash") e)

abbrev creation : Fields
creation = linked null (event "E1" "CREATED" null "RECEIVED")

abbrev three_events : List (Option Fields)
three_events =
    some creation
    ∷ some (linked (str "sha256:hash") (event "E2" "TRANSITIONED" (str "RECEIVED") "VERIFYING"))
    ∷ some (linked (str "sha256:hash") (event "E3" "TRANSITIONED" (str "VERIFYING") "VERIFIED"))
    ∷ []

verification : List (Option Fields) → Verification
unfolding verify
verification ls = elim (verify sha any_event graph ls) [
  | ok v ↦ v
  | err e ↦ record { head = null_value; event_count = 0; work = []; errors = [] }
]

three_verified : verify sha any_event graph three_events ≡ ok (verification three_events)
unfolding verify verification to_of field_at
three_verified = refl

three_valid : is_valid (verification three_events) ≡ true
unfolding verify verification is_valid to_of field_at previous_of stored_of has_type Table.get id_of
    Table.put work_of Table.remove subject_of
three_valid = refl

verify-IsChained_example :
    IsChained sha null_value (parsed three_events) (verification three_events).head
    × IsFresh [] (parsed three_events)
verify-IsChained_example =
    verify-IsChained sha any_event graph three_events (verification three_events) three_verified
      three_valid

verify-IsCaptured_example : IsCaptured graph [] (parsed three_events)
verify-IsCaptured_example =
    verify-IsCaptured sha any_event graph three_events (verification three_events) three_verified
      three_valid

-- The first event with its hashes at the end of the line.
abbrev reordered : Fields
reordered = field "event_id" (str "E1") (
    field "work_id" (str "W1") (
      field "project_id" (str "P1") (
        field "type" (str "CREATED") (
          field "from_state" null (
            field "to_state" (str "RECEIVED") (
              field "subject_revision" (str "r1") (
                field "evidence_refs" (arr nil)
                  (field "event_hash" (str "sha256:hash") (field "previous_hash" null end)))))))))

abbrev one : List (Option Fields)
one = some creation ∷ []

abbrev other_one : List (Option Fields)
other_one = some reordered ∷ []

one_verified : verify sha any_event graph one ≡ ok (verification one)
unfolding verify verification to_of field_at
one_verified = refl

other_verified : verify sha any_event graph other_one ≡ ok (verification other_one)
unfolding verify verification to_of field_at
other_verified = refl

one_valid : is_valid (verification one) ≡ true
unfolding verify verification is_valid to_of field_at previous_of stored_of has_type Table.get
one_valid = refl

other_valid : is_valid (verification other_one) ≡ true
unfolding verify verification is_valid to_of field_at previous_of stored_of has_type Table.get
other_valid = refl

same_head : (verification one).head ≡ (verification other_one).head
unfolding verify verification to_of subject_of lookup work_of field_at has_type id_of stored_of
    previous_of
same_head = refl

same_content : content_of sha creation ≡ content_of sha reordered
unfolding content_of canonical without
same_content = refl

no_collision : NoCollision sha (parsed one) (parsed other_one)
unfolding NoCollision parsed
no_collision d e (inl p) (inl q) h =
    subst (λ x. content_of sha x ≡ content_of sha e) p
      (subst (λ y. content_of sha creation ≡ content_of sha y) q same_content)
no_collision d e (inr i) j h = absurd i
no_collision d e (inl p) (inr j) h = absurd j

verify_unique_example : map (content_of sha) (parsed one) ≡ map (content_of sha) (parsed other_one)
verify_unique_example =
    verify_unique sha any_event any_event graph graph one other_one (verification one)
      (verification other_one) one_verified other_verified one_valid other_valid no_collision
      same_head

abbrev stamp : Stamp
stamp = record { now = "2026-01-01"; event_id = "E1"; audit_id = "A1" }

abbrev missing_disk : Disk
missing_disk = record { locked = false; lines = none; ended = true }

entry : Fields
unfolding record_of
entry = record_of sha null_value (event "E1" "CREATED" null "RECEIVED")

abbrev created_disk : Disk
created_disk = record { locked = false; lines = some (some entry ∷ []); ended = true }

creation_appended :
    append sha any_event graph work stamp missing_disk
      (event "E1" "CREATED" null "RECEIVED")
      null_value
    ≡ (created_disk, ok entry)
unfolding append entry record_of verify is_valid adjudicate field_at to_of with_field previous_of
    stored_of has_type
creation_appended = refl

append-IsAppend_example :
    IsAppend sha any_event graph work missing_disk null_value created_disk entry
append-IsAppend_example =
    append-IsAppend sha any_event graph work stamp missing_disk created_disk
      (event "E1" "CREATED" null "RECEIVED") entry null_value refl creation_appended

-- A further append, which throws, leaves the file.
created-Later : Later sha any_event graph work created_disk created_disk
unfolding append verify is_valid adjudicate field_at to_of with_field previous_of stored_of has_type
    entry
created-Later = then_append stamp created_disk (event "E2" "CREATED" null "RECEIVED") null_value now

append_once_example :
    append sha any_event graph work stamp created_disk
      (event "E2" "CREATED" null "RECEIVED")
      null_value
    ≡ (created_disk, err ledger_head_changed)
unfolding NoCollision parsed lines_of
append_once_example =
    append_once sha any_event graph work stamp stamp missing_disk created_disk created_disk
      (event "E1" "CREATED" null "RECEIVED") entry (event "E2" "CREATED" null "RECEIVED") null_value
      refl creation_appended created-Later (λ d e i j h. absurd i)

Reachable-IsSettled_example : IsSettled sha any_event graph work created_disk
unfolding append verify is_valid adjudicate field_at to_of with_field previous_of stored_of has_type
    entry
Reachable-IsSettled_example =
    Reachable-IsSettled sha any_event graph work created_disk
      (by_append stamp missing_disk (event "E1" "CREATED" null "RECEIVED") null_value missing_file)

abbrev creation_decision : AppendDecision
creation_decision = record {
  rejection = none;
  adjudication = record {
    accepted = true;
    inspection = record { eligible = true; reasons = []; transition_id = none };
    decision = none;
  };
  candidate = verification (some entry ∷ []);
  entry = entry;
}

no_lines_verified : verify sha any_event graph [] ≡ ok (verification [])
unfolding verify verification
no_lines_verified = refl

creation_decided :
    decide_append sha any_event graph work stamp [] (event "E1" "CREATED" null "RECEIVED")
    ≡ ok (answered creation_decision)
unfolding decide_append entry verification is_valid adjudicate field_at to_of with_field previous_of
    stored_of has_type
creation_decided = refl

append-decide_append_example :
    append sha any_event graph work stamp missing_disk
      (event "E1" "CREATED" null "RECEIVED")
      null_value
    ≡ (created_disk, ok entry)
unfolding lines_of verification
append-decide_append_example =
    append-decide_append sha any_event graph work stamp missing_disk
      (event "E1" "CREATED" null "RECEIVED") (verification []) creation_decision refl refl
      no_lines_verified creation_decided refl
