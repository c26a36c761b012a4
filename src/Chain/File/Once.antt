-- ===== src/Chain/File/Once.antt =====
-- A sequence of appends of scripts/work-ledger.mjs: the files it reaches, and that an expected head
-- serves once.
use ai_core.Base.{
  String, Bool, true, false, Option, none, some, List, [], ◌∷◌, ◌++◌, ◌≡◌, refl, sym, ap, subst,
  ◌∙◌, map, inl, inr, Bool-cases,
}
use ai_core.Base.Field.{Field, null_value, same_field}
use ai_core.Base.Result.{Result, ok, err}
use ai_core.Json.{Json, Fields}
use ai_core.Workflow.Spec.{Workflow}
use ai_core.Workflow.Registry.{Graph}
use ai_core.Workflow.Decide.{Stamp}
use ai_core.Chain.Verify.{content_of, verify, verification_of, is_valid, parsed, scan, start}
use ai_core.Chain.Checks.{stored_of}
use ai_core.Chain.Verify.Links.{same_field_eq}
use ai_core.Chain.Append.{LedgerError, ledger_head_changed}
use ai_core.Chain.Verify.Tamper.{NoCollision, verify_unique}
use ai_core.Chain.File.{Disk, lines_of, admit, written, append, release_lock, released}
use ai_core.Chain.File.Appends.{IsVerified, append-IsAppend, append-err, append_free, unlocked_eq}

append_nil : {A : Type 0} (xs : List A) → xs ++ [] ≡ xs
append_nil [] = refl
append_nil (x ∷ xs) = ap (λ ys. x ∷ ys) (append_nil xs)

append_assoc : {A : Type 0} (xs ys zs : List A) → (xs ++ ys) ++ zs ≡ xs ++ (ys ++ zs)
append_assoc [] ys zs = refl
append_assoc (x ∷ xs) ys zs = ap (λ l. x ∷ l) (append_assoc xs ys zs)

tail_of : {A : Type 0} → List A → List A
tail_of [] = []
tail_of (x ∷ xs) = xs

nil_cons : {A : Type 0} {x : A} {xs : List A} → [] ≡ x ∷ xs → ⊥
nil_cons h = absurd (cc)

-- A ledger and its continuation by a record have not the same events.
longer :
    (f : Fields → Json) (ls more : List (Option Fields)) (entry : Fields)
    → map f (parsed ls) ≡ map f (parsed ((ls ++ some entry ∷ []) ++ more))
    → ⊥
unfolding parsed tail_of
longer f [] more entry h = nil_cons h
longer f (none ∷ ls) more entry h = longer f ls more entry h
longer f (some x ∷ ls) more entry h = longer f ls more entry (ap tail_of h)

module _ (sha256_json : Json → String) (valid_event : Fields → Bool) (g : Graph)
    (workflow : Workflow) where
  -- A file that is not locked, has a line break after its last line, and verifies.
  pub record IsSettled (d : Disk) : Type 0 where
    pub unlocked : d.locked ≡ false
    pub ended : d.ended ≡ true
    pub head : Field
    pub verified : IsVerified sha256_json valid_event g (lines_of d) head

  -- An append leaves a settled file settled, and keeps the lines that are there.
  appended :
      (stamp : Stamp) (d : Disk) (e : Fields) (expected_head : Field)
      (o : Disk × Result LedgerError Fields)
      → append sha256_json valid_event g workflow stamp d e expected_head ≡ o
      → IsSettled d
      → IsSettled o.0 × ((more : List (Option Fields)) × (lines_of o.0 ≡ lines_of d ++ more))
  appended stamp d e expected_head (d', ok entry) h was =
      let a =
        append-IsAppend sha256_json valid_event g workflow stamp d d' e entry expected_head
          was.ended h in
      (
        record {
          unlocked = a.released;
          ended = a.ended;
          head = stored_of entry;
          verified = a.after;
        },
        (some entry ∷ [], a.lines),
      )
  appended stamp d e expected_head (d', err x) h was =
      let same = append-err sha256_json valid_event g workflow stamp d d' e expected_head x h in
      (subst IsSettled (sym same) was, ([], ap lines_of same ∙ sym (append_nil (lines_of d))))

  -- The files that appends reach from a missing one, by any writers with any events.
  pub data Reachable : Disk → Type 0 where
    missing_file : Reachable (record { locked = false; lines = none; ended = true })
    by_append :
        (stamp : Stamp) (d : Disk) (e : Fields) (expected_head : Field)
        → Reachable d
        → Reachable (append sha256_json valid_event g workflow stamp d e expected_head).0

  -- Every file that appends reach, one after the other from a missing file, verifies without an
  -- error, has a line break after its last line, and is left without the lock.
  pub Reachable-IsSettled : (d : Disk) → Reachable d → IsSettled d
  unfolding verify start scan verification_of parsed is_valid lines_of
  Reachable-IsSettled d missing_file = record {
    unlocked = refl;
    ended = refl;
    head = null_value;
    verified = record { verification = _; ran = refl; valid = refl; head_is = refl };
  }
  Reachable-IsSettled d (by_append stamp d₀ e expected_head r) =
      (appended stamp d₀ e expected_head
        (append sha256_json valid_event g workflow stamp d₀ e expected_head) refl
        (Reachable-IsSettled d₀ r)).0

  -- The files that further appends, by any writers with any events, make of a file.
  pub data Later (d : Disk) : Disk → Type 0 where
    now : Later d d
    then_append :
        (stamp : Stamp) (m : Disk) (e : Fields) (expected_head : Field)
        → Later d m
        → Later d (append sha256_json valid_event g workflow stamp m e expected_head).0

  Later-IsSettled :
      (d m : Disk)
      → IsSettled d
      → Later d m
      → IsSettled m × ((more : List (Option Fields)) × (lines_of m ≡ lines_of d ++ more))
  Later-IsSettled d m was now = (was, ([], sym (append_nil (lines_of d))))
  Later-IsSettled d m was (then_append stamp m₀ e expected_head l) =
      let (settled, (more, kept)) = Later-IsSettled d m₀ was l in
      let (is, (last, grown)) =
        appended stamp m₀ e expected_head
          (append sha256_json valid_event g workflow stamp m₀ e expected_head) refl settled in
      (is, (more ++ last, grown ∙ ap (λ ls. ls ++ last) kept ∙ append_assoc (lines_of d) more last))

  admit_refused :
      (stamp : Stamp) (ls : List (Option Fields)) (e : Fields) (head expected_head : Field)
      → IsVerified sha256_json valid_event g ls head
      → same_field head expected_head ≡ false
      → admit sha256_json valid_event g workflow stamp ls e expected_head ≡ err ledger_head_changed
  unfolding admit
  admit_refused stamp ls e head expected_head v differs =
      let other : same_field v.verification.head expected_head ≡ false =
        subst (λ f. same_field f expected_head ≡ false) (sym v.head_is) differs in
      rw (v.ran, v.valid, other) refl

  append_refused :
      (stamp : Stamp) (d : Disk) (e : Fields) (expected_head : Field) (was : IsSettled d)
      → same_field was.head expected_head ≡ false
      → append sha256_json valid_event g workflow stamp d e expected_head
        ≡ (d, err ledger_head_changed)
  unfolding released written release_lock
  append_refused stamp d e expected_head was differs =
      append_free sha256_json valid_event g workflow stamp d e expected_head was.unlocked
      ∙ ap
          (λ r.
            released sha256_json valid_event g workflow
              (written sha256_json valid_event g workflow (record d { locked = true }) r))
          (admit_refused stamp (lines_of d) e was.head expected_head was.verified differs)
      ∙ ap (λ x. (x, err ledger_head_changed))
          (unlocked_eq sha256_json valid_event g workflow d was.unlocked)

  -- Two verified ledgers, one with more lines after those of the other and one more record, have
  -- different heads.
  heads_differ :
      (ls more : List (Option Fields)) (entry : Fields) (head : Field)
      → IsVerified sha256_json valid_event g ls head
      → IsVerified sha256_json valid_event g ((ls ++ some entry ∷ []) ++ more) head
      → NoCollision sha256_json (parsed ls) (parsed ((ls ++ some entry ∷ []) ++ more))
      → ⊥
  heads_differ ls more entry head v w apart = longer (content_of sha256_json) ls more entry (
      verify_unique sha256_json valid_event valid_event g g ls ((ls ++ some entry ∷ []) ++ more)
        v.verification w.verification v.ran w.ran v.valid w.valid apart (v.head_is ∙ sym w.head_is))

  -- An append that succeeds, on a file whose last line has its line break, uses its expected head up:
  -- after any further appends by any writers, whether they succeed or throw, an append that expects
  -- that head, whatever its event, fails with `LEDGER_HEAD_CHANGED` and changes nothing, provided
  -- that no event of the file then and of the file at first have the same hash and another content.
  pub append_once :
      (stamp later : Stamp) (d d' d'' : Disk) (e entry other : Fields) (expected_head : Field)
      → d.ended ≡ true
      → append sha256_json valid_event g workflow stamp d e expected_head ≡ (d', ok entry)
      → Later d' d''
      → NoCollision sha256_json (parsed (lines_of d)) (parsed (lines_of d''))
      → append sha256_json valid_event g workflow later d'' other expected_head
        ≡ (d'', err ledger_head_changed)
  append_once stamp later d d' d'' e entry other expected_head ended h l apart =
      let a =
        append-IsAppend sha256_json valid_event g workflow stamp d d' e entry expected_head ended
          h in
      let (settled, (more, kept)) =
        Later-IsSettled d' d''
          (record {
            unlocked = a.released;
            ended = a.ended;
            head = stored_of entry;
            verified = a.after;
          })
          l in
      let lines : lines_of d'' ≡ (lines_of d ++ some entry ∷ []) ++ more =
        kept ∙ ap (λ ls. ls ++ more) a.lines in
      elim (Bool-cases (same_field settled.head expected_head)) [
        | inr differs ↦ append_refused later d'' other expected_head settled differs
        | inl same ↦
            let eq = same_field_eq settled.head expected_head same in
            absurd (
              heads_differ (lines_of d) more entry expected_head a.before
                (subst (λ ls. IsVerified sha256_json valid_event g ls expected_head) lines
                  (subst (IsVerified sha256_json valid_event g (lines_of d'')) eq settled.verified))
                (subst (λ ls. NoCollision sha256_json (parsed (lines_of d)) (parsed ls)) lines
                  apart))
      ]
