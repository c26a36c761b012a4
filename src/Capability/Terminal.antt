-- ===== src/Capability/Terminal.antt =====
-- src/engine/execution-receipt.mjs: the reader of terminal receipts. The file system and the paths of
-- node:path are parameters; two reads of a file in one call give the same. A receipt is read at the
-- fields that the configuration names, where a value that is no text counts as missing.
pub mod Unique
use Prim.Native.String
use ai_core.Base.{
  ℕ, String, Bool, true, false, not, ◌&&◌, ◌||◌, Option, none, some, List, [], ◌∷◌, ◌++◌, ◌==◌, eqb,
  leb, ltb, keep, includes, is_empty, is_some, same_text, truthy, starts_with, if◌then◌else◌,
}
use ai_core.Base.Field.{Field, missing, null_value, value, is_text}
use ai_core.Base.Result.{Result, ok, err, need, ◌>>=◌, ◌>>◌}
use ai_core.Base.Table
use ai_core.Base.Table.{Table, from_entries}
use ai_core.Json.{Json, obj, field_at}

pub data Listing : Type 0 where
  no_directory : Listing  -- ENOENT
  unreadable : Listing
  names : List String → Listing

pub record FileSystem : Type 0 where
  pub resolve : String → String → String
  pub relative : String → String → String
  pub is_absolute : String → Bool
  pub list_directory : String → Listing
  pub mtime : String → Option ℕ  -- Number(info.mtimeMs) || 0; `none` throws
  pub read_json : String → Option Json  -- JSON.parse(await readText(path)); `none` throws

-- A list that is `none` is no array, a text that is `none` no text.
pub record Config : Type 0 where
  pub kind : Option String
  pub directory : Option String
  pub prefix : Option String
  pub suffix : Option String
  pub schema_field : Option String
  pub schema_value : Option String
  pub state_field : Option String
  pub identity_field : Option String
  pub success_states : Option (List String)
  pub hold_states : Option (List String)
  pub failure_states : Option (List String)

pub data ReceiptError : Type 0 where
  receipt_path_escape receipt_config_invalid receipt_states_invalid : ReceiptError
  directory_unreadable stat_failed : ReceiptError

-- What `reconcile` returns; `identity_verified` is `none` where it is not set.
pub record Observed : Type 0 where
  pub status : String
  pub reason : Option String
  pub path : Option String
  pub state : Field
  pub identity_verified : Option Bool

blank_or : Option String → String
blank_or none = ""
blank_or (some s) = s

states_of : Option (List String) → List String
states_of none = []
states_of (some ss) = ss

ends_with : (suffix s : String) → Bool
ends_with suffix String.[] = suffix == ""
ends_with suffix (String.◌∷◌ c s) = suffix == String.◌∷◌ c s || ends_with suffix s

-- `new Set(all).size === all.length`
distinct : List String → Bool
distinct [] = true
distinct (s ∷ ss) = not (includes ss s) && distinct ss

-- `validateConfig`
unfoldable pub validate_config : Config → Result ReceiptError (Unit {0})
unfolding states_of distinct
validate_config c = do
  need (same_text c.kind (some "NEW_JSON_TERMINAL_RECEIPT")) receipt_config_invalid
  need
      (truthy c.directory
        && truthy c.prefix
        && truthy c.suffix
        && truthy c.schema_field
        && truthy c.schema_value
        && truthy c.state_field)
      receipt_config_invalid
  need (elim c.identity_field [ none ↦ true | some s ↦ not (s == "") ]) receipt_config_invalid
  need (is_some c.success_states && is_some c.hold_states && is_some c.failure_states)
      receipt_config_invalid
  let all = states_of c.success_states ++ states_of c.hold_states ++ states_of c.failure_states
  need (not (is_empty all) && distinct all) receipt_states_invalid

unfoldable pub hold : String → Option String → Option Bool → Observed
hold reason path verified = record {
  status = "HOLD";
  reason = some reason;
  path = path;
  state = missing;
  identity_verified = verified;
}

-- `receipt?.[key]`
unfoldable pub property : Json → String → Field
property (obj fs) k = field_at k fs
property _ k = missing

-- `states.includes(state)`
listed : Option (List String) → Field → Bool
unfolding states_of
listed states (value s) = includes (states_of states) s
listed states _ = false

-- The receipt has the schema and names the request.
unfoldable pub fits : Config → (identity : String) → Json → Bool
unfolding property blank_or
fits c identity receipt =
    is_text (property receipt (blank_or c.schema_field)) (blank_or c.schema_value)
    && is_text (property receipt (blank_or c.identity_field)) identity

unfoldable pub terminal : Config → (path : String) → Field → Bool → Observed
unfolding listed
terminal c path state verified =
    let observed : String → Option String → Observed = λ status reason. record {
      status = status;
      reason = reason;
      path = some path;
      state = state;
      identity_verified = some verified;
    } in
    if listed c.success_states state
    then observed "SUCCEEDED" none
    else if listed c.hold_states state
    then observed "HOLD" (some "EXECUTION_RECEIPT_HOLD")
    else if listed c.failure_states state
    then observed "FAILED" (some "EXECUTION_RECEIPT_FAILED")
    else observed "HOLD" (some "EXECUTION_RECEIPT_NON_TERMINAL")

-- What `reconcile` makes of a receipt that it has read.
unfoldable pub judge_receipt :
    Config → (expected : Option String) → (path : String) → Json → Observed
unfolding hold property terminal blank_or
judge_receipt c expected path receipt =
    if not (is_text (property receipt (blank_or c.schema_field)) (blank_or c.schema_value))
    then hold "EXECUTION_RECEIPT_SCHEMA_MISMATCH" (some path) none
    else elim expected [
      | none ↦ terminal c path (property receipt (blank_or c.state_field)) true
      | some identity ↦
          if not (truthy c.identity_field)
          then hold "EXECUTION_RECEIPT_IDENTITY_UNBOUND" (some path) (some false)
          else if not (is_text (property receipt (blank_or c.identity_field)) identity)
          then hold "EXECUTION_RECEIPT_IDENTITY_MISMATCH" (some path) (some false)
          else terminal c path (property receipt (blank_or c.state_field)) true
    ]

-- `changed`: the files that are new or have another time.
unfoldable pub is_changed : Table ℕ → String × ℕ → Bool
is_changed before (name, time) = elim (Table.get name before) [
  | none ↦ true
  | some t ↦ not (eqb t time)
]

insert_latest : String × ℕ → List (String × ℕ) → List (String × ℕ)
insert_latest x [] = x ∷ []
insert_latest x (y ∷ ys) = if ltb x.1 y.1 then y ∷ insert_latest x ys else x ∷ y ∷ ys

-- `.sort((a, b) => b[1] - a[1])`
unfoldable pub latest_first : List (String × ℕ) → List (String × ℕ)
unfolding insert_latest
latest_first [] = []
latest_first (x ∷ xs) = insert_latest x (latest_first xs)

module _ (fs : FileSystem) where
  -- The condition of `safeUnder`.
  is_under : (root path : String) → Bool
  unfolding starts_with
  is_under root path =
      let rel = fs.relative root path in
      rel == "" || (not (starts_with ".." rel) && not (fs.is_absolute rel))

  unfoldable pub directory_of : Config → (root : String) → String
  unfolding blank_or
  directory_of c root = fs.resolve root (blank_or c.directory)

  entries_of : (dir : String) → List String → Result ReceiptError (Table ℕ)
  unfolding is_under
  entries_of dir [] = ok []
  entries_of dir (name ∷ rest) =
      let more = entries_of dir rest in
      if not (is_under dir (fs.resolve dir name))
      then err receipt_path_escape
      else elim (fs.mtime (fs.resolve dir name)) [
        | none ↦ err stat_failed
        | some t ↦ more >>= λ m. ok ((name, t) ∷ m)
      ]

  is_selected : Config → String → Bool
  unfolding starts_with ends_with blank_or
  is_selected c name = starts_with (blank_or c.prefix) name && ends_with (blank_or c.suffix) name

  -- `snapshot`; `resolve(root, '')` is `resolve(root)`
  unfoldable pub take_snapshot : (root : String) → Config → Result ReceiptError (Table ℕ)
  unfolding validate_config directory_of is_under entries_of is_selected
  take_snapshot root c = do
    validate_config c
    need (is_under (fs.resolve root "") (directory_of c root)) receipt_path_escape
    elim (fs.list_directory (directory_of c root)) [
      | no_directory ↦ ok []
      | unreadable ↦ err directory_unreadable
      | names ns ↦
          entries_of (directory_of c root) (keep (is_selected c) ns) >>= λ es. ok (from_entries es)
    ]

  -- The receipt of a changed file, where it fits.
  unfoldable pub fitting : Config → (dir identity : String) → String × ℕ → Option Json
  unfolding fits
  fitting c dir identity (name, t) = elim (fs.read_json (fs.resolve dir name)) [
    | none ↦ none
    | some receipt ↦ if fits c identity receipt then some receipt else none
  ]

  -- The loop that collects `exact`.
  unfoldable pub exact_matches :
      Config
      → (dir identity : String) → List (String × ℕ)
      → Result ReceiptError (List ((String × ℕ) × Json))
  unfolding is_under fitting
  exact_matches c dir identity [] = ok []
  exact_matches c dir identity (x ∷ xs) =
      let rest = exact_matches c dir identity xs in
      if not (is_under dir (fs.resolve dir x.0))
      then err receipt_path_escape
      else elim (fitting c dir identity x) [
        | none ↦ rest
        | some receipt ↦ rest >>= λ m. ok ((x, receipt) ∷ m)
      ]

  read_first : Config → (expected : Option String) → (path : String) → Observed
  unfolding judge_receipt hold
  read_first c expected path = elim (fs.read_json path) [
    | none ↦ hold "EXECUTION_RECEIPT_UNREADABLE" (some path) none
    | some receipt ↦ judge_receipt c expected path receipt
  ]

  of_exact :
      Config → (dir identity : String) → (first : String) → List ((String × ℕ) × Json) → Observed
  unfolding judge_receipt hold read_first
  of_exact c dir identity first [] = read_first c (some identity) (fs.resolve dir first)
  of_exact c dir identity first ((x, receipt) ∷ []) =
      judge_receipt c (some identity) (fs.resolve dir x.0) receipt
  of_exact c dir identity first (x ∷ y ∷ more) = hold "EXECUTION_RECEIPT_AMBIGUOUS" none none

  same_time : String × ℕ → List (String × ℕ) → Bool
  same_time x [] = false
  same_time x (y ∷ ys) = eqb x.1 y.1

  -- `reconcile` over the changed files; `identityBound` is an expected identity with a field for it.
  unfoldable pub judge_changed :
      Config
      → (dir : String) → (expected : Option String) → List (String × ℕ)
      → Result ReceiptError Observed
  unfolding hold same_time is_under exact_matches of_exact read_first
  judge_changed c dir expected [] = ok (hold "EXECUTION_RECEIPT_MISSING" none none)
  judge_changed c dir none (x ∷ xs) =
      if same_time x xs
      then ok (hold "EXECUTION_RECEIPT_AMBIGUOUS" none none)
      else if not (is_under dir (fs.resolve dir x.0))
      then err receipt_path_escape
      else ok (read_first c none (fs.resolve dir x.0))
  judge_changed c dir (some identity) (x ∷ xs) =
      if not (truthy c.identity_field) && same_time x xs
      then ok (hold "EXECUTION_RECEIPT_AMBIGUOUS" none none)
      else if not (is_under dir (fs.resolve dir x.0))
      then err receipt_path_escape
      else if truthy c.identity_field && not (is_empty xs)
      then (exact_matches c dir identity (x ∷ xs) >>= λ exact.
          ok (of_exact c dir identity x.0 exact))
      else ok (read_first c (some identity) (fs.resolve dir x.0))

  -- `reconcile`
  unfoldable pub reconcile_receipts :
      (root : String)
      → Config
      → (before : Table ℕ) → (expected : Option String) → Result ReceiptError Observed
  unfolding validate_config take_snapshot is_changed latest_first judge_changed directory_of
  reconcile_receipts root c before expected = do
    validate_config c
    after ← take_snapshot root c
    judge_changed c (directory_of c root) expected (latest_first (keep (is_changed before) after))
