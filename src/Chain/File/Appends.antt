-- ===== src/Chain/File/Appends.antt =====
-- What appends of scripts/work-ledger.mjs make of the ledger file.
use ai_core.Base.{
  String, Bool, true, false, Option, none, some, List, [], ◌∷◌, ◌++◌, ◌≡◌, refl, sym, ap, subst,
  ◌∙◌, arith, inl, inr, Bool-cases, Option-cases, if◌then◌else◌,
}
use ai_core.Base.Field.{Field, same_field}
use ai_core.Base.Result.{Result, ok, err, ok-subst, >>=-eq-ok, need-eq-ok}
use ai_core.Base.Table
use ai_core.Json.{Json, Fields}
use ai_core.Workflow.Spec.{Workflow}
use ai_core.Workflow.Registry.{Graph}
use ai_core.Workflow.Decide.{Stamp}
use ai_core.Ledger.{adjudicate}
use ai_core.Chain.Verify.{
  Verification, verify, verification_of, is_valid, parsed, step, scan, next_scan, start,
}
use ai_core.Chain.Checks.{Scan, WorkState, stored_of, closure_errors, work_of}
use ai_core.Chain.Verify.Links.{same_field_eq}
use ai_core.Chain.Append.{
  LedgerError, crash, engine_thrown, ledger_locked, AppendDecision, adapt, decide_against,
  rejection_of, record_of, admitted_projection, event_of,
}
use ai_core.Chain.File.{
  Disk, lines_of, accepted_entry, admit, written, append, glued, write_line, take_lock,
  release_lock, released,
}

adapt-eq-ok :
    {E A : Type 0} (f : E → LedgerError) (r : Result E A) {a : A}
    → adapt f r ≡ ok a
    → ◌≡◌ {A = Result E A} r (ok a)
adapt-eq-ok {E} {A} f (ok b) h = ok-subst (λ x. ◌≡◌ {A = Result E A} (ok b) (ok x)) h refl
adapt-eq-ok f (err e) h = cc

parsed-append :
    (ls : List (Option Fields)) (e : Fields) → parsed (ls ++ some e ∷ []) ≡ parsed ls ++ e ∷ []
unfolding parsed
parsed-append [] e = refl
parsed-append (none ∷ ls) e = parsed-append ls e
parsed-append (some x ∷ ls) e = ap (λ es. x ∷ es) (parsed-append ls e)

rejection_of-none :
    (eligible : Bool) (prior : Option WorkState) (e : Fields) (v : Verification)
    → rejection_of eligible prior e v ≡ none
    → (eligible ≡ true) × (is_valid v ≡ true)
unfolding rejection_of
rejection_of-none eligible prior e v h = ground arith

entry_of :
    (d : AppendDecision) (entry : Fields)
    → accepted_entry d ≡ ok entry
    → (d.rejection ≡ none) × (d.entry ≡ entry)
unfolding accepted_entry
entry_of d entry h = elim (Option-cases d.rejection) [
  | inl n ↦ (n, ground arith)
  | inr (r, n) ↦ absurd (ground arith)
]

refuted : {A : Type 0} {x : LedgerError} {a : A} → ◌≡◌ {A = Result LedgerError A} (err x) (ok a) → ⊥
refuted h = absurd (cc)

module _ (sha256_json : Json → String) (valid_event : Fields → Bool) (g : Graph) where
  step_head :
      (s : Scan) (e : Fields) (s' : Scan)
      → step sha256_json valid_event g s e ≡ ok s'
      → s'.head ≡ stored_of e
  unfolding step next_scan
  step_head s e s' h =
      let (closing, _, made) = >>=-eq-ok (closure_errors e) _ h in
      ok-subst (λ (x : Scan). x.head ≡ stored_of e) made refl

  scan_last :
      (es : List Fields) (e : Fields) (s s' : Scan)
      → scan sha256_json valid_event g s (es ++ e ∷ []) ≡ ok s'
      → s'.head ≡ stored_of e
  unfolding scan
  scan_last [] e s s' h =
      let (next, stepped, later) = >>=-eq-ok (step sha256_json valid_event g s e) _ h in
      ok-subst (λ (x : Scan). x.head ≡ stored_of e) later (step_head s e next stepped)
  scan_last (x ∷ es) e s s' h =
      let (next, stepped, later) = >>=-eq-ok (step sha256_json valid_event g s x) _ h in
      scan_last es e next s' later

  -- The head of a ledger is the hash that its last event stores.
  verify_last :
      (ls : List (Option Fields)) (e : Fields) (v : Verification)
      → verify sha256_json valid_event g (ls ++ some e ∷ []) ≡ ok v
      → v.head ≡ stored_of e
  unfolding verify verification_of
  verify_last ls e v h =
      let (s, scanned, made) =
        >>=-eq-ok (scan sha256_json valid_event g start (parsed (ls ++ some e ∷ []))) _ h in
      let last = scan_last (parsed ls) e start s (
        subst (λ es. scan sha256_json valid_event g start es ≡ ok s) (parsed-append ls e)
          scanned) in
      ok-subst (λ (x : Verification). x.head ≡ stored_of e) made last

  -- The lines verify, without an error, and `head` is their head.
  pub record IsVerified (ls : List (Option Fields)) (head : Field) : Type 0 where
    pub verification : Verification
    pub ran : verify sha256_json valid_event g ls ≡ ok verification
    pub valid : is_valid verification ≡ true
    pub head_is : verification.head ≡ head

  module _ (workflow : Workflow) where
    candidate_sound :
        (stamp : Stamp) (ls : List (Option Fields)) (current : Verification) (e : Fields)
        (d : AppendDecision) (entry : Fields)
        → decide_against sha256_json valid_event g workflow stamp ls current e ≡ ok d
        → accepted_entry d ≡ ok entry
        → IsVerified (ls ++ some entry ∷ []) (stored_of entry)
    unfolding decide_against
    candidate_sound stamp ls current e d entry h taken =
        let (a, _, h₁) =
          >>=-eq-ok
            (adapt engine_thrown (
              adjudicate sha256_json workflow stamp (admitted_projection g ls current e)
                (event_of e)))
            _ h in
        let lines = ls ++ some (record_of sha256_json current.head e) ∷ [] in
        let (w, ran, made) =
          >>=-eq-ok (adapt crash (verify sha256_json valid_event g lines)) _ h₁ in
        ok-subst
          (λ (x : AppendDecision).
            accepted_entry x ≡ ok entry → IsVerified (ls ++ some entry ∷ []) (stored_of entry))
          made
          (λ t.
            let (free, same) = entry_of _ entry t in
            let (_, valid) =
              rejection_of-none a.inspection.eligible (Table.get (work_of e) current.work) e w
                free in
            subst (λ x. IsVerified (ls ++ some x ∷ []) (stored_of x)) same
              (record {
                verification = w;
                ran = adapt-eq-ok crash (verify sha256_json valid_event g lines) ran;
                valid = valid;
                head_is =
                    verify_last ls (record_of sha256_json current.head e) w
                      (adapt-eq-ok crash (verify sha256_json valid_event g lines) ran);
              }))
          taken

    admit_sound :
        (stamp : Stamp) (ls : List (Option Fields)) (e entry : Fields) (expected_head : Field)
        → admit sha256_json valid_event g workflow stamp ls e expected_head ≡ ok entry
        → IsVerified ls expected_head × IsVerified (ls ++ some entry ∷ []) (stored_of entry)
    unfolding admit
    admit_sound stamp ls e entry expected_head h =
        let (current, ran, h₁) =
          >>=-eq-ok (adapt crash (verify sha256_json valid_event g ls)) _ h in
        let (valid, h₂) = need-eq-ok (is_valid current) _ _ h₁ in
        let (head, h₃) = need-eq-ok (same_field current.head expected_head) _ _ h₂ in
        let (d, decided, taken) =
          >>=-eq-ok (decide_against sha256_json valid_event g workflow stamp ls current e) _ h₃ in
        (
          record {
            verification = current;
            ran = adapt-eq-ok crash (verify sha256_json valid_event g ls) ran;
            valid = valid;
            head_is = same_field_eq current.head expected_head head;
          },
          candidate_sound stamp ls current e d entry decided taken,
        )

    released_sound :
        (d d' : Disk) (r : Result LedgerError Fields) (entry : Fields)
        → d.ended ≡ true
        → released sha256_json valid_event g workflow
            (written sha256_json valid_event g workflow (record d { locked = true }) r)
          ≡ (d', ok entry)
        → (r ≡ ok entry)
          × (d'.locked ≡ false)
          × (d'.ended ≡ true)
          × (lines_of d' ≡ lines_of d ++ some entry ∷ [])
    unfolding written released release_lock write_line lines_of
    released_sound d d' (ok x) entry ended h =
        let lines : (some (if d.ended then lines_of d ++ some x ∷ [] else glued (lines_of d) x))
            ≡ d'.lines =
          ap (λ (o : Disk × Result LedgerError Fields). o.0.lines) h in
        let same : ◌≡◌ {A = Result LedgerError Fields} (ok x) (ok entry) =
          ap (λ (o : Disk × Result LedgerError Fields). o.1) h in
        (
          same,
          ap (λ (o : Disk × Result LedgerError Fields). o.0.locked) (sym h),
          ap (λ (o : Disk × Result LedgerError Fields). o.0.ended) (sym h),
          ap (λ (ls : Option (List (Option Fields))). elim ls [ none ↦ [] | some l ↦ l ])
                (sym lines)
              ∙ rw (ended)
                  (ok-subst (λ y. lines_of d ++ some x ∷ [] ≡ lines_of d ++ some y ∷ []) same refl),
        )
    released_sound d d' (err x) entry ended h =
        absurd (refuted (ap (λ (o : Disk × Result LedgerError Fields). o.1) h))

    released-err :
        (d d' : Disk) (r : Result LedgerError Fields) (x : LedgerError)
        → released sha256_json valid_event g workflow
            (written sha256_json valid_event g workflow (record d { locked = true }) r)
          ≡ (d', err x)
        → d' ≡ record d { locked = false }
    unfolding written released release_lock
    released-err d d' (ok y) x h =
        absurd (refuted (sym (ap (λ (o : Disk × Result LedgerError Fields). o.1) h)))
    released-err d d' (err y) x h = ap (λ (o : Disk × Result LedgerError Fields). o.0) (sym h)

    -- What an append that succeeds has found and left: the lock was free and is free again, one record
    -- is added as the last line, with its line break, the ledger before it verifies with the expected
    -- head, and the ledger with it verifies with the hash that the record stores as its head.
    pub record IsAppend (d : Disk) (expected_head : Field) (d' : Disk) (entry : Fields)
        : Type 0 where
      pub free : d.locked ≡ false
      pub released : d'.locked ≡ false
      pub ended : d'.ended ≡ true
      pub lines : lines_of d' ≡ lines_of d ++ some entry ∷ []
      pub before : IsVerified (lines_of d) expected_head
      pub after : IsVerified (lines_of d') (stored_of entry)

    -- The append where nobody holds the lock.
    pub append_free :
        (stamp : Stamp) (d : Disk) (e : Fields) (expected_head : Field)
        → d.locked ≡ false
        → append sha256_json valid_event g workflow stamp d e expected_head
          ≡ released sha256_json valid_event g workflow (
              written sha256_json valid_event g workflow
                (record d { locked = true })
                (admit sha256_json valid_event g workflow stamp (lines_of d) e expected_head))
    unfolding append take_lock lines_of
    append_free stamp d e expected_head free = rw (free) refl

    append_held :
        (stamp : Stamp) (d : Disk) (e : Fields) (expected_head : Field)
        → d.locked ≡ true
        → append sha256_json valid_event g workflow stamp d e expected_head ≡ (d, err ledger_locked)
    unfolding append take_lock
    append_held stamp d e expected_head held = rw (held) refl

    -- An append that succeeds on a file whose last line has its line break is an `IsAppend`.
    pub append-IsAppend :
        (stamp : Stamp) (d d' : Disk) (e entry : Fields) (expected_head : Field)
        → d.ended ≡ true
        → append sha256_json valid_event g workflow stamp d e expected_head ≡ (d', ok entry)
        → IsAppend d expected_head d' entry
    append-IsAppend stamp d d' e entry expected_head ended h = elim (Bool-cases d.locked) [
      | inl held ↦ absurd (
          refuted (
            ap (λ (o : Disk × Result LedgerError Fields). o.1)
              (sym (append_held stamp d e expected_head held) ∙ h)))
      | inr free ↦
          (let r = admit sha256_json valid_event g workflow stamp (lines_of d) e expected_head in
            let (admitted, unlocked, complete, lines) =
              released_sound d d' r entry ended
                (sym (append_free stamp d e expected_head free) ∙ h) in
            let (before, after) = admit_sound stamp (lines_of d) e entry expected_head admitted in
            record {
              free = free;
              released = unlocked;
              ended = complete;
              lines = lines;
              before = before;
              after = subst (λ ls. IsVerified ls (stored_of entry)) (sym lines) after;
            })
    ]

    pub unlocked_eq : (d : Disk) → d.locked ≡ false → record d { locked = false } ≡ d
    unlocked_eq d free = ap (λ b. record d { locked = b }) (sym free)

    -- An append that throws leaves the file and the lock as they were.
    pub append-err :
        (stamp : Stamp) (d d' : Disk) (e : Fields) (expected_head : Field) (x : LedgerError)
        → append sha256_json valid_event g workflow stamp d e expected_head ≡ (d', err x)
        → d' ≡ d
    append-err stamp d d' e expected_head x h = elim (Bool-cases d.locked) [
      | inl held ↦
          ap (λ (o : Disk × Result LedgerError Fields). o.0)
            (sym h ∙ append_held stamp d e expected_head held)
      | inr free ↦
          released-err d d'
            (admit sha256_json valid_event g workflow stamp (lines_of d) e expected_head) x
            (sym (append_free stamp d e expected_head free) ∙ h)
          ∙ unlocked_eq d free
    ]
