-- ===== src/Capability/Recovery.antt =====
-- The recovery snapshot of src/engine/capability-execution-coordinator.mjs: what a request stores so
-- that a lost answer can be told later from a terminal receipt. The entries of `before` are pairs
-- and the walls are a list of texts, as `recoverySnapshot` writes them.
pub mod Stored
use ai_core.Base.{
  ℕ, String, Bool, true, false, not, ◌&&◌, ◌||◌, Option, none, some, List, [], ◌∷◌, eqb, is_some,
  if◌then◌else◌,
}
use ai_core.Base.Field.{Field, value, field_text}
use ai_core.Json.{
  Json, null, bool, num, str, arr, obj, Items, nil, cons, Fields, end, field, canonical,
  canonical_fields, lookup, field_at,
}
use ai_core.Capability.Receipt.{Runtime, is_text}

pub record Project : Type 0 where
  pub project_id : Option String
  pub repository : Option String
  pub local_path : Option String

-- An entry of the capability registry.
pub record Capability : Type 0 where
  pub id : String
  pub status : String
  pub projects : List String
  pub receipt : Option Fields
  pub mode : Option String
  pub walls : List String

-- What a snapshot holds once it is read again.
pub record Snapshot : Type 0 where
  pub before : Items
  pub receipt : Fields
  pub project_binding : Fields
  pub mode : Option String
  pub walls : List String

-- The column `before_receipts_json`: NULL, a text that is no JSON, or a value.
pub data Column : Type 0 where
  no_text unreadable : Column
  json : Json → Column

pub data Parsed : Type 0 where
  invalid missing : Parsed
  snapshot : Snapshot → Parsed

text_json : Option String → Json
text_json none = null
text_json (some s) = str s

text_items : List String → Items
text_items [] = nil
text_items (s ∷ ss) = cons (str s) (text_items ss)

items_text : Items → List String
items_text nil = []
items_text (cons v xs) = let rest = items_text xs in elim v [ str s ↦ s ∷ rest | _ ↦ rest ]

-- `projectRecoveryBinding`
unfoldable pub recovery_binding : Runtime → Option Project → Option Fields
unfolding is_text text_json canonical_fields
recovery_binding o none = none
recovery_binding o (some p) =
    if is_text o p.project_id && is_text o p.repository && is_text o p.local_path
    then some (
        canonical_fields (
          field "project_id" (text_json p.project_id) (
            field "repository" (text_json p.repository)
              (field "local_path" (text_json p.local_path) end))))
    else none

unfoldable pub snapshot_json : Snapshot → Json
unfolding text_json text_items
snapshot_json s = obj (
    field "version" (num 2) (
      field "before" (arr s.before) (
        field "receipt" (obj s.receipt) (
          field "project_binding" (obj s.project_binding)
            (field "mode" (text_json s.mode) (field "walls" (arr (text_items s.walls)) end))))))

pub data Taken : Type 0 where
  no_snapshot : Taken
  project_recovery_binding_required : Taken
  taken : Snapshot → Taken

snapshot_with : Capability → Items → Fields → Option Fields → Taken
unfolding canonical_fields
snapshot_with c before receipt none = project_recovery_binding_required
snapshot_with c before receipt (some binding) = taken (record {
  before = before;
  receipt = canonical_fields receipt;
  project_binding = binding;
  mode = c.mode;
  walls = c.walls;
})

-- `recoverySnapshot`
unfoldable pub recovery_snapshot :
    Runtime → Capability → (before : Option Items) → Option Project → Taken
unfolding recovery_binding snapshot_with
recovery_snapshot o c none p = no_snapshot
recovery_snapshot o c (some before) p = elim c.receipt [
  | none ↦ no_snapshot
  | some receipt ↦ snapshot_with c before receipt (recovery_binding o p)
]

-- `recovery === null ? null : JSON.stringify(recovery)`, of a snapshot that could be taken
unfoldable pub column_of : Option Snapshot → Column
unfolding snapshot_json
column_of none = no_text
column_of (some s) = json (snapshot_json s)

is_version : Option Json → Bool
is_version none = false
is_version (some v) = elim v [ num n ↦ eqb n 2 | _ ↦ false ]

array_at : Option Json → Option Items
array_at none = none
array_at (some v) = elim v [ arr xs ↦ some xs | _ ↦ none ]

object_at : Option Json → Option Fields
object_at none = none
object_at (some v) = elim v [ obj fs ↦ some fs | _ ↦ none ]

unfoldable pub has_text : Runtime → String → Fields → Bool
unfolding is_text
has_text o k fs = is_text o (field_text (field_at k fs))

read_snapshot : Runtime → Fields → Option Items → Option Fields → Option Fields → Parsed
unfolding has_text items_text canonical_fields array_at
read_snapshot o raw (some before) (some receipt) (some binding) =
    if has_text o "project_id" binding
      && has_text o "repository" binding
      && has_text o "local_path" binding
    then snapshot (record {
      before = before;
      receipt = receipt;
      project_binding = canonical_fields binding;
      mode = field_text (field_at "mode" raw);
      walls = elim (array_at (lookup "walls" raw)) [ none ↦ [] | some xs ↦ items_text xs ];
    })
    else invalid
read_snapshot o raw _ _ _ = invalid

-- `parseRecoverySnapshot`
unfoldable pub parse_snapshot : Runtime → Column → Parsed
unfolding is_version array_at object_at read_snapshot
parse_snapshot o no_text = missing
parse_snapshot o unreadable = invalid
parse_snapshot o (json v) = elim v [
  | null ↦ missing
  | obj raw ↦
      if is_version (lookup "version" raw)
      then read_snapshot o raw (array_at (lookup "before" raw)) (object_at (lookup "receipt" raw))
          (object_at (lookup "project_binding" raw))
      else invalid
  | _ ↦ invalid
]
