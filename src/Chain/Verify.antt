-- ===== src/Chain/Verify.antt =====
-- `verifyLedgerText` and `eventHash` of scripts/work-ledger.mjs.
pub mod Links
pub mod Tamper
pub mod Captured
use Prim.Native.String
use ai_core.Base.{
  ℕ, ◌+◌, String, Bool, true, false, not, ◌&&◌, ◌||◌, Option, none, some, List, [], ◌∷◌, ◌++◌,
  is_empty, includes, length, if◌then◌else◌,
}
use ai_core.Base.Field.{
  Field, missing, null_value, value, same_field, field_text, is_given, is_text,
}
use ai_core.Base.Result.{Result, ok, err, ◌>>=◌}
use ai_core.Base.Table
use ai_core.Base.Table.{Table}
use ai_core.Workflow.Registry.{Graph}
use ai_core.Json.{Json, arr, obj, Items, nil, Fields, canonical, lookup, without, field_at}
use ai_core.Chain.Checks.{
  Code, Crash, Scan, WorkState, at_line, closure_errors, event_hash_invalid, event_id_duplicate,
  event_schema_invalid, id_of, ledger_chain_broken, ledger_json_invalid, next_verified,
  next_work_state, note, previous_of, state_errors, stored_of, work_of,
}

unfoldable pub start : Scan
start = record {
  line = 1;
  states = [];
  verified_at = [];
  event_ids = [];
  head = null_value;
  errors = [];
}

pub record Verification : Type 0 where
  pub head : Field
  pub event_count : ℕ
  pub work : Table WorkState
  pub errors : List (Code × ℕ)

-- `status === 'VALID'`
unfoldable pub is_valid : Verification → Bool
is_valid v = is_empty v.errors

-- The objects among the lines, and the errors of the lines that do not parse.
unfoldable pub parsed : List (Option Fields) → List Fields
parsed [] = []
parsed (none ∷ ls) = parsed ls
parsed (some e ∷ ls) = e ∷ parsed ls

parse_errors : ℕ → List (Option Fields) → List (Code × ℕ)
parse_errors n [] = []
parse_errors n (none ∷ ls) = (ledger_json_invalid, n) ∷ parse_errors (n + 1) ls
parse_errors n (some e ∷ ls) = parse_errors (n + 1) ls

module _ (sha256_json : Json → String) where
  -- What the hash of an event is taken of.
  unfoldable pub content_of : Fields → Json
  content_of e = canonical (obj (without "event_hash" e))

  -- `eventHash`
  unfoldable pub event_hash : Fields → String
  unfolding content_of
  event_hash e = String.◌++◌ "sha256:" (sha256_json (content_of e))

  module _ (valid_event : Fields → Bool) (g : Graph) where
    -- The checks on the event as a line of the chain.
    unfoldable pub chain_errors : Scan → Fields → List Code
    unfolding note event_hash
    chain_errors s e =
        note (not (valid_event (without "previous_hash" (without "event_hash" e))))
          event_schema_invalid
        ++ note (includes s.event_ids (id_of e)) event_id_duplicate
        ++ note (not (same_field (previous_of e) s.head)) ledger_chain_broken
        ++ note (not (same_field (stored_of e) (value (event_hash e)))) event_hash_invalid

    -- What one turn of the loop leaves, when the check of a closing event has found `closing`.
    unfoldable pub next_scan : Scan → Fields → List Code → Scan
    unfolding chain_errors state_errors next_verified next_work_state at_line
    next_scan s e closing =
        let prior = Table.get (work_of e) s.states in
        let found =
          chain_errors s e
          ++ state_errors g prior (Table.get (work_of e) s.verified_at) e
          ++ closing in
        record {
          line = s.line + 1;
          states = Table.put (work_of e) (next_work_state prior e) s.states;
          verified_at = next_verified g e s.verified_at;
          event_ids = id_of e ∷ s.event_ids;
          head = stored_of e;
          errors = s.errors ++ at_line s.line found;
        }

    -- One turn of the loop.
    unfoldable pub step : Scan → Fields → Result Crash Scan
    unfolding next_scan closure_errors
    step s e = do closing ← closure_errors e; ok (next_scan s e closing)

    unfoldable pub scan : Scan → List Fields → Result Crash Scan
    unfolding step
    scan s [] = ok s
    scan s (e ∷ es) = do next ← step s e; scan next es

    unfoldable pub verification_of : List (Option Fields) → Scan → Verification
    unfolding parse_errors
    verification_of ls s = record {
      head = s.head;
      event_count = length (parsed ls);
      work = s.states;
      errors = parse_errors 1 ls ++ s.errors;
    }

    -- `verifyLedgerText`
    unfoldable pub verify : List (Option Fields) → Result Crash Verification
    unfolding scan start parsed verification_of
    verify ls = do s ← scan start (parsed ls); ok (verification_of ls s)
