-- ===== src/Chain/File/Agreement.antt =====
-- The dry run of scripts/work-ledger.mjs and the append agree.
use ai_core.Base.{
  String, Bool, true, false, Option, none, some, List, [], ◌∷◌, ◌++◌, ◌≡◌, refl, arith, subst, ap,
  inl, inr, Bool-cases, if◌then◌else◌,
}
use ai_core.Base.Field.{Field, missing, null_value, value, same_field}
use ai_core.Base.{eq_refl}
use ai_core.Base.Result.{Result, ok, err, ◌>>=◌}
use ai_core.Json.{Json, Fields}
use ai_core.Workflow.Spec.{Workflow}
use ai_core.Workflow.Registry.{Graph}
use ai_core.Workflow.Decide.{Stamp}
use ai_core.Chain.Verify.{Verification, verify, is_valid}
use ai_core.Chain.Append.{LedgerError, crash, AppendDecision, adapt, decide_against}
use ai_core.Chain.File.{
  Disk, lines_of, append, admit, accepted_entry, released, release_lock, take_lock, write_line,
  written,
}
use ai_core.Chain.DryRun.{Answer, answered, workflow_ledger_invalid, decide_append}

same_field_refl : (f : Field) → same_field f f ≡ true
same_field_refl missing = refl
same_field_refl null_value = refl
same_field_refl (value s) = eq_refl s

answered_eq :
    {A : Type 0} {x y : A}
    → ◌≡◌ {A = Result LedgerError (Answer A)} (ok (answered x)) (ok (answered y))
    → x ≡ y
answered_eq h = cc

-- What is decided of a valid ledger, as the dry run returns it.
answer_of :
    (current : Verification) (r : Result LedgerError AppendDecision) {d : AppendDecision}
    → ◌≡◌ {A = Result LedgerError (Answer AppendDecision)}
        (if is_valid current
          then (r >>= λ x. ok (answered x))
          else ok (workflow_ledger_invalid current.errors))
        (ok (answered d))
    → (is_valid current ≡ true) × ◌≡◌ {A = Result LedgerError AppendDecision} r (ok d)
answer_of current (ok x) {d} h = elim (Bool-cases (is_valid current)) [
  | inl valid ↦ (valid, ap (λ y. ok y) (answered_eq (ground arith)))
  | inr invalid ↦ absurd (ground arith)
]
answer_of current (err e) h = elim (Bool-cases (is_valid current)) [
  | inl valid ↦ absurd (ground arith)
  | inr invalid ↦ absurd (ground arith)
]

module _ (sha256_json : Json → String) (valid_event : Fields → Bool) (g : Graph)
    (workflow : Workflow) where
  admit-ok :
      (stamp : Stamp) (ls : List (Option Fields)) (e : Fields) (current : Verification)
      (d : AppendDecision)
      → verify sha256_json valid_event g ls ≡ ok current
      → is_valid current ≡ true
      → decide_against sha256_json valid_event g workflow stamp ls current e ≡ ok d
      → d.rejection ≡ none
      → admit sha256_json valid_event g workflow stamp ls e current.head ≡ ok d.entry
  unfolding admit accepted_entry
  admit-ok stamp ls e current d ran valid made accepted =
      rw (ran, valid, same_field_refl current.head, made, accepted)

  -- Where the dry run accepts an event on the ledger that is there, nobody holds the lock, and the
  -- last line of the file has its line break, the append with the head of that ledger adds the record
  -- of the dry run as the last line, returns it, and leaves the lock free.
  pub append-decide_append :
      (stamp : Stamp) (disk : Disk) (e : Fields) (current : Verification) (d : AppendDecision)
      → disk.locked ≡ false
      → disk.ended ≡ true
      → verify sha256_json valid_event g (lines_of disk) ≡ ok current
      → decide_append sha256_json valid_event g workflow stamp (lines_of disk) e ≡ ok (answered d)
      → d.rejection ≡ none
      → append sha256_json valid_event g workflow stamp disk e current.head ≡ (
        record { locked = false; lines = some (lines_of disk ++ some d.entry ∷ []); ended = true },
        ok d.entry,
      )
  unfolding append decide_append written take_lock released release_lock write_line lines_of
  append-decide_append stamp disk e current d free ended ran h accepted =
      let decision =
        decide_against sha256_json valid_event g workflow stamp (lines_of disk) current e in
      let (valid, made) = answer_of current decision (
        subst
          (λ r.
            (adapt crash r >>= λ v.
            if is_valid v
            then (decide_against sha256_json valid_event g workflow stamp (lines_of disk) v e
                >>= λ x. ok (answered x))
            else ok (workflow_ledger_invalid v.errors))
            ≡ ok (answered d))
          ran h) in
      let admitted = admit-ok stamp (lines_of disk) e current d ran valid made accepted in
      rw (free, admitted, ended) refl
