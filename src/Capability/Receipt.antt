-- ===== src/Capability/Receipt.antt =====
-- `safeReceipt` and `digest` of src/engine/capability-execution-coordinator.mjs. Texts of a result
-- are taken as texts already (the source's `String(…)`), and `cut` stands for `slice` on texts.
use Prim.Native.String
use ai_core.Base.{
  ℕ, String, Bool, false, not, ◌&&◌, Option, none, some, List, [], ◌∷◌, map, ◌==◌, same_text,
  if◌then◌else◌,
}
use ai_core.Json.{Json, null, bool, str, arr, obj, Items, nil, cons, Fields, end, field, canonical}
use ai_core.Workflow.Execution.{CheckItem, Execution, WorkResult}

-- `value.trim() === value`, `text.length`, `text.slice(0, n)`, the SHA-256 of `JSON.stringify(value)` in hexadecimal.
pub record Runtime : Type 0 where
  pub is_trimmed : String → Bool
  pub units : String → ℕ
  pub cut : ℕ → String → String
  pub sha256_json : Json → String

-- `text`, of a value that may be missing
unfoldable pub is_text : Runtime → Option String → Bool
is_text o none = false
is_text o (some s) = o.is_trimmed s && not (s == "")

-- `digest`
unfoldable pub digest : Runtime → Json → String
unfolding canonical
digest o v = String.◌++◌ "sha256:" (o.sha256_json (canonical v))

or_nil : {A : Type 0} → Option (List A) → List A
or_nil none = []
or_nil (some xs) = xs

-- `?? ''`
or_blank : Option String → String
or_blank none = ""
or_blank (some s) = s

cut_check : Runtime → CheckItem → CheckItem
unfolding or_blank
cut_check o c = record {
  name = some (or_blank c.name);
  status = some (or_blank c.status);
  detail = elim c.detail [ none ↦ none | some d ↦ some (o.cut 2000 d) ];
}

-- The object that `safeReceipt` returns.
unfoldable pub receipt_of : Runtime → WorkResult → WorkResult
unfolding or_nil or_blank cut_check
receipt_of o r = record {
  schema = r.schema;
  order_id = r.order_id;
  work_id = r.work_id;
  project_id = r.project_id;
  capability_id = r.capability_id;
  subject_revision = r.subject_revision;
  mode = r.mode;
  status = r.status;
  summary = some (o.cut 4000 (or_blank r.summary));
  artifact_refs = some (or_nil r.artifact_refs);
  evidence_refs = some (or_nil r.evidence_refs);
  checks = some (map (cut_check o) (or_nil r.checks));
  execution = r.execution;
  observed = r.observed;
  blockers = some (or_nil r.blockers);
  next_action = elim r.next_action [ none ↦ none | some s ↦ some (o.cut 4000 s) ];
  walls = some (or_nil r.walls);
}

-- `safeReceipt`; `none` is `WORK_RESULT_SCHEMA_INVALID`
unfoldable pub safe_receipt : Runtime → Option WorkResult → Option WorkResult
unfolding receipt_of
safe_receipt o none = none
safe_receipt o (some r) =
    if same_text r.schema (some "ai-core-work-result/v1") then some (receipt_of o r) else none

text_json : Option String → Json
text_json none = null
text_json (some s) = str s

text_items : List String → Items
text_items [] = nil
text_items (s ∷ ss) = cons (str s) (text_items ss)

texts_json : Option (List String) → Json
unfolding text_items or_nil
texts_json ss = arr (text_items (or_nil ss))

check_json : CheckItem → Json
unfolding text_json
check_json c = obj (
    field "name" (text_json c.name)
      (field "status" (text_json c.status) (field "detail" (text_json c.detail) end)))

check_items : List CheckItem → Items
unfolding check_json
check_items [] = nil
check_items (c ∷ cs) = cons (check_json c) (check_items cs)

execution_json : Execution → Json
unfolding text_json
execution_json e = obj (
    field "performed" (bool e.performed) (
      field "external_effect" (bool e.external_effect) (
        field "started_at" (text_json e.started_at) (
          field "ended_at" (text_json e.ended_at)
            (field "authorization_source" (text_json e.authorization_source) end)))))

-- A receipt as the JSON value that is digested and stored.
unfoldable pub receipt_json : WorkResult → Json
unfolding text_json texts_json check_items execution_json or_nil
receipt_json r =
    let rest = field "execution" (execution_json r.execution) (
      field "outcome" (obj (field "observed" (bool r.observed) end)) (
        field "blockers" (texts_json r.blockers) (
          field "next_action" (text_json r.next_action)
            (field "walls" (texts_json r.walls) end)))) in
    let lists = field "summary" (text_json r.summary) (
      field "artifact_refs" (texts_json r.artifact_refs) (
        field "evidence_refs" (texts_json r.evidence_refs)
          (field "checks" (arr (check_items (or_nil r.checks))) rest))) in
    let with_status : Fields = elim r.status [
      | none ↦ lists
      | some s ↦ field "status" (str s) lists
    ] in
    obj (
      field "schema" (text_json r.schema) (
        field "order_id" (text_json r.order_id) (
          field "work_id" (text_json r.work_id) (
            field "project_id" (text_json r.project_id) (
              field "capability_id" (text_json r.capability_id) (
                field "subject_revision" (text_json r.subject_revision)
                  (field "mode" (text_json r.mode) with_status)))))))
