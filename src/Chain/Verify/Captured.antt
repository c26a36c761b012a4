-- ===== src/Chain/Verify/Captured.antt =====
-- Verification before closure in a valid ledger of scripts/work-ledger.mjs.
use ai_core.Base.{
  String, Bool, true, false, not, Option, none, some, List, [], ◌∷◌, ◌≡◌, sym, ap, subst, ◌==◌, ◌⊎◌,
  arith, inl, inr, is_empty, Bool-cases, eq_iff,
}
use ai_core.Base.Field.{Field, is_text, same_field}
use ai_core.Base.Result.{ok, >>=-eq-ok}
use ai_core.Base.Table
use ai_core.Base.Table.{Table, get-put, get-remove}
use ai_core.Json.{Json, Fields}
use ai_core.Workflow.Registry.{Graph}
use ai_core.Chain.Verify.{Verification, step, scan, verify, is_valid, parsed, start}
use ai_core.Chain.Checks.{
  Scan, WorkState, work_of, to_of, subject_of, has_type, included, is_after_verification, note,
  verification_errors, moved_errors, state_errors, next_verified,
}
use ai_core.Chain.Verify.Links.{
  step-IsClean, scan_clean, parts_of, empty_parts, same_field_eq, not-false,
}

-- An event that neither puts the work to verification nor takes its verification back.
pub Spares : Graph → Fields → String → Type 0
Spares g v work =
    (work_of v == work ≡ false)
    ⊎ ((is_text (to_of v) "VERIFYING" ≡ false) × (included g.reobservable (to_of v) ≡ false))

-- One of the events `seen`, the latest first, brought the work to `VERIFYING` at this revision, and
-- no later event brought it to `VERIFYING` again or to a state where it may be observed anew.
pub WasVerified : Graph → List Fields → String → Field → Type 0
WasVerified g [] work revision = ⊥
WasVerified g (v ∷ seen) work revision =
    ((work_of v ≡ work) × (is_text (to_of v) "VERIFYING" ≡ true) × (subject_of v ≡ revision))
    ⊎ (Spares g v work × WasVerified g seen work revision)

-- Every revision on record as verified was brought to `VERIFYING` by an event that was seen.
AllVerified : Graph → List Fields → Table Field → Type 0
AllVerified g seen m = (k : String) (r : Field) → Table.get k m ≡ some r → WasVerified g seen k r

-- An ordinary event to a state that needs a verified revision.
pub NeedsVerified : Graph → Fields → Type 0
NeedsVerified g e =
    (has_type e "CREATED" ≡ false)
    × (has_type e "REOBSERVED" ≡ false)
    × (is_after_verification g (to_of e) ≡ true)
    × (included g.verified_path (to_of e) ≡ true)

-- Each such event stands at the revision at which its work was last put to verification.
pub IsCaptured : Graph → List Fields → List Fields → Type 0
IsCaptured g seen [] = Unit
IsCaptured g seen (e ∷ es) =
    (NeedsVerified g e → WasVerified g seen (work_of e) (subject_of e)) × IsCaptured g (e ∷ seen) es

some_value : {a b : Field} → some a ≡ some b → a ≡ b
some_value e = cc

moved_clean :
    (g : Graph) (prior : Option WorkState) (verified : Option Field) (e : Fields)
    → is_empty (moved_errors g prior verified e) ≡ true
    → is_empty (verification_errors g verified e) ≡ true
unfolding moved_errors
moved_clean g prior verified e h = (empty_parts _ (verification_errors g verified e) h).1

next_verified-AllVerified :
    (g : Graph) (e : Fields) (seen : List Fields) (m : Table Field)
    → AllVerified g seen m
    → AllVerified g (e ∷ seen) (next_verified g e m)
unfolding AllVerified next_verified WasVerified Spares
next_verified-AllVerified g e seen m h k r found =
    elim (Bool-cases (is_text (to_of e) "VERIFYING")) [
      | inl v ↦ elim (Bool-cases (work_of e == k)) [
        | inl same ↦ inl (
          (eq_iff (work_of e) k).0 same,
          v,
          some_value (ground (arith, get-put (work_of e) k (subject_of e) m)),
        )
        | inr other ↦
            inr (inl other, h k r (ground (arith, get-put (work_of e) k (subject_of e) m)))
      ]
      | inr v ↦ elim (Bool-cases (included g.reobservable (to_of e))) [
        | inl o ↦ elim (Bool-cases (work_of e == k)) [
          | inl same ↦ absurd (ground (arith, get-remove (work_of e) k m))
          | inr other ↦ inr (inl other, h k r (ground (arith, get-remove (work_of e) k m)))
        ]
        | inr o ↦ inr (inr (v, o), h k r (ground arith))
      ]
    ]

verified_eq :
    (g : Graph) (verified : Option Field) (e : Fields)
    → is_empty (verification_errors g verified e) ≡ true
    → is_after_verification g (to_of e) ≡ true
    → included g.verified_path (to_of e) ≡ true
    → verified ≡ some (subject_of e)
unfolding verification_errors note
verified_eq g none e h after path = absurd (ground arith)
verified_eq g (some r) e h after path =
    let b = same_field (subject_of e) r in
    let clean : not b ≡ false = ground arith in
    ap some (sym (same_field_eq (subject_of e) r (not-false b clean)))

needs_verified :
    (g : Graph) (prior : Option WorkState) (verified : Option Field) (e : Fields)
    → is_empty (state_errors g prior verified e) ≡ true
    → NeedsVerified g e
    → verified ≡ some (subject_of e)
unfolding state_errors NeedsVerified
needs_verified g prior verified e h (create, observe, after, path) =
    let moved : is_empty (moved_errors g prior verified e) ≡ true = ground arith in
    verified_eq g verified e (moved_clean g prior verified e moved) after path

module _ (sha256_json : Json → String) (valid_event : Fields → Bool) (g : Graph) where
  scan-IsCaptured :
      (es seen : List Fields) (s s' : Scan)
      → scan sha256_json valid_event g s es ≡ ok s'
      → is_empty s'.errors ≡ true
      → AllVerified g seen s.verified_at
      → IsCaptured g seen es
  unfolding scan IsCaptured AllVerified
  scan-IsCaptured [] seen s s' h clean all = tt
  scan-IsCaptured (e ∷ es) seen s s' h clean all =
      let (next, stepped, later) = >>=-eq-ok (step sha256_json valid_event g s e) _ h in
      let c =
        step-IsClean sha256_json valid_event g s e next stepped
          (scan_clean sha256_json valid_event g es next s' later clean) in
      (
        λ n. all (work_of e) (subject_of e) (
            needs_verified g (Table.get (work_of e) s.states) (Table.get (work_of e) s.verified_at)
              e c.rules n),
        scan-IsCaptured es (e ∷ seen) next s' later clean (
            subst (λ m. AllVerified g (e ∷ seen) m) (sym c.verified)
              (next_verified-AllVerified g e seen s.verified_at all)),
      )

  -- In a valid ledger every ordinary event to a state of the verified path, that is neither `VERIFYING`
  -- nor a state for observing anew, stands at the revision at which its work was last put to
  -- verification: an earlier event brought the work to `VERIFYING` at that revision, and no event
  -- between the two brought the work to `VERIFYING` or to a state where it may be observed anew.
  pub verify-IsCaptured :
      (ls : List (Option Fields)) (v : Verification)
      → verify sha256_json valid_event g ls ≡ ok v
      → is_valid v ≡ true
      → IsCaptured g [] (parsed ls)
  unfolding start AllVerified Table.get
  verify-IsCaptured ls v h clean =
      let (s, scanned, none_, _) = parts_of sha256_json valid_event g ls v h clean in
      scan-IsCaptured (parsed ls) [] start s scanned none_ (λ k r found. absurd (cc))
