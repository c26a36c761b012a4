-- ===== src/Chain/File.antt =====
-- `appendLedgerEvent` of scripts/work-ledger.mjs: the ledger file with its lock file. The result of
-- reading, writing and syncing is that of a file system that does not fail.
pub mod Appends
pub mod Once
pub mod Agreement
use ai_core.Base.{
  String, Bool, true, false, not, ◌&&◌, Option, none, some, List, [], ◌∷◌, ◌++◌, if◌then◌else◌,
}
use ai_core.Base.Field.{Field, same_field}
use ai_core.Base.Result.{Result, ok, err, need, ◌>>=◌, ◌>>◌}
use ai_core.Json.{Json, Fields}
use ai_core.Workflow.Spec.{Workflow}
use ai_core.Workflow.Registry.{Graph}
use ai_core.Workflow.Decide.{Stamp}
use ai_core.Chain.Verify.{Verification, verify, is_valid}
use ai_core.Chain.Checks.{Crash, stored_of}
use ai_core.Chain.Append.{
  LedgerError, crash, ledger_locked, ledger_invalid, ledger_head_changed, rejected, Rejection,
  AppendDecision, adapt, decide_against,
}

-- The lock file is there; the lines of the ledger up to the last that is not blank, where `none` is a
-- file that is missing; and whether a line break stands after the last of them.
pub record Disk : Type 0 where
  pub locked : Bool
  pub lines : Option (List (Option Fields))
  pub ended : Bool

-- `if (error.code !== 'ENOENT') throw error`
unfoldable pub lines_of : Disk → List (Option Fields)
lines_of d = elim d.lines [ none ↦ [] | some ls ↦ ls ]

-- A line that is written after the last one with no line break between: the two become one line,
-- which is not JSON.
glued : List (Option Fields) → Fields → List (Option Fields)
glued [] entry = some entry ∷ []
glued (l ∷ []) entry = none ∷ []
glued (l ∷ m ∷ ls) entry = l ∷ glued (m ∷ ls) entry

-- `writer.writeFile(…)` at the end of the file
write_line : Disk → Fields → Disk
unfolding lines_of glued
write_line d entry = record d {
  lines = some (if d.ended then lines_of d ++ some entry ∷ [] else glued (lines_of d) entry);
  ended = true;
}

-- `open(lockPath, 'wx')`
take_lock : Disk → Result LedgerError Disk
take_lock d = if d.locked then err ledger_locked else ok (record d { locked = true })

-- `unlink(lockPath)`
release_lock : Disk → Disk
release_lock d = record d { locked = false }

accepted_entry : AppendDecision → Result LedgerError Fields
accepted_entry d = elim d.rejection [ none ↦ ok d.entry | some r ↦ err (rejected r) ]

module _ (sha256_json : Json → String) (valid_event : Fields → Bool) (g : Graph)
    (workflow : Workflow) where
  -- The record that is written, or the error that is thrown under the lock.
  unfoldable pub admit :
      Stamp → List (Option Fields) → Fields → (expected_head : Field) → Result LedgerError Fields
  unfolding accepted_entry decide_against
  admit stamp ls e expected_head = do
    current ← adapt crash (verify sha256_json valid_event g ls)
    need (is_valid current) ledger_invalid
    need (same_field current.head expected_head) ledger_head_changed
    d ← decide_against sha256_json valid_event g workflow stamp ls current e
    accepted_entry d

  pub written : Disk → Result LedgerError Fields → Disk × Result LedgerError Fields
  unfolding write_line
  written d (ok entry) = (write_line d entry, ok entry)
  written d (err e) = (d, err e)

  -- What `finally` leaves.
  pub released : Disk × Result LedgerError Fields → Disk × Result LedgerError Fields
  unfolding release_lock
  released (d, r) = (release_lock d, r)

  -- `appendLedgerEvent`
  unfoldable pub append :
      Stamp → Disk → Fields → (expected_head : Field) → Disk × Result LedgerError Fields
  unfolding admit written lines_of take_lock released
  append stamp d e expected_head = elim (take_lock d) [
    | err x ↦ (d, err x)
    | ok taken ↦ released (written taken (admit stamp (lines_of taken) e expected_head))
  ]
