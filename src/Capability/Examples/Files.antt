-- ===== src/Capability/Examples/Files.antt =====
-- Terminal receipts in a concrete directory (src/engine/execution-receipt.mjs).
use ai_core.Capability.Store.{with_result}
use ai_core.Workflow.Inspect.{inspect_transition}
use ai_core.Workflow.Decide.{decide}
use ai_core.Json.{lookup}
use ai_core.Base.Table.{get}
use ai_core.Base.Table.{from_entries}
use ai_core.Json.{field_at}
use ai_core.Base.{if◌then◌else◌, ℕ, true, false, none, some, [], ◌∷◌, ◌==◌, ◌≡◌, refl, keep}
use ai_core.Base.Field.{value}
use ai_core.Base.Result.{ok}
use ai_core.Base.Table.{Table}
use ai_core.Json.{Fields, end, field, str, arr, obj, nil, cons}
use ai_core.Workflow.Execution.{WorkResult}
use ai_core.Capability.Recovery.{Snapshot, column_of}
use ai_core.Capability.Store.{Request, Db, request_row}
use ai_core.Capability.Reserve.{Observation}
use ai_core.Capability.Reconcile.{result, terminal_result, reconcile}
use ai_core.Capability.Terminal.{
  FileSystem, names, Config, Observed, is_changed, latest_first, directory_of, take_snapshot,
  reconcile_receipts,
}
use ai_core.Capability.Terminal.Unique.{IsOnly, reconcile_receipts-IsOnly}
use ai_core.Capability.Reader.{config_of, terminal_reader, IsAnswered, reconcile-IsAnswered}
use ai_core.Capability.Examples.{
  runtime, projects, host, workflow, stamp, paths, row, stored, reserved,
}

abbrev files : FileSystem
files = record {
  resolve = λ _ name. name;
  relative = λ _ path. path;
  is_absolute = λ _. false;
  list_directory = λ _. names ("run-1.json" ∷ "run-2.json" ∷ "notes" ∷ []);
  mtime = λ path. if path == "run-1.json" then some 5 else some 7;
  read_json = λ path.
      if path == "run-1.json"
      then some (
          obj (
            field "schema" (str "v1")
              (field "request" (str "K1") (field "state" (str "done") end))))
      else some (
          obj (
            field "schema" (str "v1")
              (field "request" (str "K2") (field "state" (str "done") end))));
}

abbrev receipt_fields : Fields
receipt_fields = field "kind" (str "NEW_JSON_TERMINAL_RECEIPT") (
    field "directory" (str "d") (
      field "prefix" (str "run") (
        field "suffix" (str ".json") (
          field "schema_field" (str "schema") (
            field "schema_value" (str "v1") (
              field "state_field" (str "state") (
                field "identity_field" (str "request") (
                  field "success_states" (arr (cons (str "done") nil))
                    (field "hold_states" (arr nil) (field "failure_states" (arr nil) end))))))))))

abbrev found_receipt : Observed
found_receipt = record {
  status = "SUCCEEDED";
  reason = none;
  path = some "run-1.json";
  state = value "done";
  identity_verified = some true;
}

config : Config
unfolding config_of
config = config_of receipt_fields

after : Table ℕ
after = ("run-1.json", 5) ∷ ("run-2.json", 7) ∷ []

found : reconcile_receipts files "/p" config [] (some "K1") ≡ ok found_receipt
unfolding reconcile_receipts config field_at from_entries get
found = refl

reconcile_receipts-IsOnly_example :
    (m : Table ℕ) × (take_snapshot files "/p" config ≡ ok m)
    × IsOnly files config
        (directory_of files config "/p")
        "K1"
        (latest_first (keep (is_changed []) m))
        found_receipt
reconcile_receipts-IsOnly_example =
    reconcile_receipts-IsOnly files "/p" "K1" config [] found_receipt found refl

abbrev stored_files : Snapshot
stored_files = record stored { receipt = receipt_fields }

abbrev file_row : Request
file_row = record row { before_receipts = column_of (some stored_files) }

abbrev file_db : Db
file_db = record reserved { requests = file_row ∷ [] }

abbrev file_observation : Observation
file_observation = record {
  status = some "SUCCEEDED";
  reason = none;
  state = some "done";
  path = some "run-1.json";
  identity_verified = true;
}

abbrev file_result : WorkResult
file_result =
    terminal_result file_row stored_files file_observation (some "run-1.json") "2026-01-01"

settled : Db
unfolding reconcile
settled =
    (reconcile runtime projects (terminal_reader files) paths host workflow file_db file_db stamp
      "K1").0

settles :
    reconcile runtime projects
      (terminal_reader files)
      paths
      host
      workflow
      file_db
      file_db
      stamp
      "K1"
    ≡ (settled, ok (result (some file_result)))
unfolding reconcile settled terminal_result column_of lookup field_at get terminal_reader
    from_entries decide inspect_transition with_result
settles = refl

file_row_found : request_row "K1" file_db.requests ≡ some file_row
unfolding request_row
file_row_found = refl

reconcile-IsAnswered_example :
    IsAnswered runtime projects files paths host workflow file_db settled stamp file_row
      (some file_result)
reconcile-IsAnswered_example =
    reconcile-IsAnswered runtime projects files paths host workflow file_db file_db settled stamp
      "K1" file_row (some file_result) file_row_found refl settles
