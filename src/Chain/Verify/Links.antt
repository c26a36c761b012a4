-- ===== src/Chain/Verify/Links.antt =====
-- The hash chain of a valid ledger of scripts/work-ledger.mjs.
use ai_core.Base.{
  ℕ, String, Bool, true, false, not, Option, List, [], ◌∷◌, ◌++◌, ◌≡◌, refl, sym, ap, subst, arith,
  is_empty, is_empty-append, includes, eq_iff,
}
use ai_core.Base.Field.{Field, missing, null_value, value, same_field}
use ai_core.Base.Result.{ok, ok-subst, >>=-eq-ok}
use ai_core.Base.Table
use ai_core.Json.{Json, Fields, without}
use ai_core.Workflow.Registry.{Graph}
use ai_core.Chain.Verify.{
  Verification, chain_errors, next_scan, step, scan, verify, verification_of, is_valid, parsed,
  parse_errors, start, event_hash,
}
use ai_core.Chain.Checks.{
  Code, event_schema_invalid, event_id_duplicate, ledger_chain_broken, event_hash_invalid, Scan,
  id_of, previous_of, stored_of, note, state_errors, closure_errors, next_verified, at_line,
  work_of,
}

pub same_field_eq : (a b : Field) → same_field a b ≡ true → a ≡ b
same_field_eq missing missing h = refl
same_field_eq null_value null_value h = refl
same_field_eq (value a) (value b) h = ap value ((eq_iff a b).0 h)
same_field_eq missing null_value h = absurd (cc)
same_field_eq missing (value b) h = absurd (cc)
same_field_eq null_value missing h = absurd (cc)
same_field_eq null_value (value b) h = absurd (cc)
same_field_eq (value a) missing h = absurd (cc)
same_field_eq (value a) null_value h = absurd (cc)

pub empty_parts :
    {A : Type 0} (xs ys : List A)
    → is_empty (xs ++ ys) ≡ true
    → (is_empty xs ≡ true) × (is_empty ys ≡ true)
empty_parts xs ys h = ground (arith, is_empty-append xs ys)

pub not-false : (b : Bool) → not b ≡ false → b ≡ true
not-false true h = refl
not-false false h = absurd (cc)

four_notes :
    (a b c d : Bool) (p q r t : Code)
    → is_empty (note a p ++ note b q ++ note c r ++ note d t) ≡ true
    → (a ≡ false) × (b ≡ false) × (c ≡ false) × (d ≡ false)
unfolding note
four_notes a b c d p q r t h = ground arith

at_line_none : (n : ℕ) (cs : List Code) → is_empty (at_line n cs) ≡ true → is_empty cs ≡ true
unfolding at_line
at_line_none n [] h = refl
at_line_none n (c ∷ cs) h = absurd (cc)

-- No event has an id of `seen` or of an earlier event.
pub IsFresh : List String → List Fields → Type 0
IsFresh seen [] = Unit
IsFresh seen (e ∷ es) = (includes seen (id_of e) ≡ false) × IsFresh (id_of e ∷ seen) es

module _ (sha256_json : Json → String) where
  -- Each event names the hash of the one before it, from `first` on, and stores its own hash; the
  -- last one stores `last`.
  unfoldable pub IsChained : Field → List Fields → Field → Type 0
  IsChained first [] last = first ≡ last
  IsChained first (e ∷ es) last =
      (previous_of e ≡ first)
      × (stored_of e ≡ value (event_hash sha256_json e))
      × IsChained (stored_of e) es last

module _ (sha256_json : Json → String) (valid_event : Fields → Bool) (g : Graph) where
  -- What a step without errors has found.
  pub record IsClean (s : Scan) (e : Fields) (s' : Scan) : Type 0 where
    pub before : is_empty s.errors ≡ true
    pub schema : valid_event (without "previous_hash" (without "event_hash" e)) ≡ true
    pub fresh : includes s.event_ids (id_of e) ≡ false
    pub linked : previous_of e ≡ s.head
    pub hashed : stored_of e ≡ value (event_hash sha256_json e)
    pub rules :
        is_empty
          (state_errors g (Table.get (work_of e) s.states) (Table.get (work_of e) s.verified_at) e)
        ≡ true
    pub head : s'.head ≡ stored_of e
    pub ids : s'.event_ids ≡ id_of e ∷ s.event_ids
    pub verified : s'.verified_at ≡ next_verified g e s.verified_at

  next_scan-IsClean :
      (s : Scan) (e : Fields) (closing : List Code)
      → is_empty (next_scan sha256_json valid_event g s e closing).errors ≡ true
      → IsClean s e (next_scan sha256_json valid_event g s e closing)
  unfolding next_scan chain_errors
  next_scan-IsClean s e closing h =
      let prior = Table.get (work_of e) s.states in
      let ruled = state_errors g prior (Table.get (work_of e) s.verified_at) e in
      let chain = chain_errors sha256_json valid_event g s e in
      let (before, found) = empty_parts s.errors (at_line s.line (chain ++ ruled ++ closing)) h in
      let (kept, _) =
        empty_parts (chain ++ ruled) closing
          (at_line_none s.line (chain ++ ruled ++ closing) found) in
      let (chained, rules) = empty_parts chain ruled kept in
      let valid = valid_event (without "previous_hash" (without "event_hash" e)) in
      let link = same_field (previous_of e) s.head in
      let hash = same_field (stored_of e) (value (event_hash sha256_json e)) in
      let (schema, fresh, linked, hashed) =
        four_notes (not valid) (includes s.event_ids (id_of e)) (not link) (not hash)
          event_schema_invalid event_id_duplicate ledger_chain_broken event_hash_invalid chained in
      record {
        before = before;
        schema = not-false valid schema;
        fresh = fresh;
        linked = same_field_eq (previous_of e) s.head (not-false link linked);
        hashed =
            same_field_eq (stored_of e) (value (event_hash sha256_json e)) (not-false hash hashed);
        rules = rules;
        head = refl;
        ids = refl;
        verified = refl;
      }

  pub step-IsClean :
      (s : Scan) (e : Fields) (s' : Scan)
      → step sha256_json valid_event g s e ≡ ok s'
      → is_empty s'.errors ≡ true
      → IsClean s e s'
  unfolding step
  step-IsClean s e s' h =
      let (closing, _, made) = >>=-eq-ok (closure_errors e) _ h in
      ok-subst (λ x. is_empty x.errors ≡ true → IsClean s e x) made (next_scan-IsClean s e closing)

  -- A scan without errors at its end had none at its start.
  pub scan_clean :
      (es : List Fields) (s s' : Scan)
      → scan sha256_json valid_event g s es ≡ ok s'
      → is_empty s'.errors ≡ true
      → is_empty s.errors ≡ true
  unfolding scan
  scan_clean [] s s' h clean =
      ok-subst (λ x. is_empty x.errors ≡ true → is_empty s.errors ≡ true) h (λ c. c) clean
  scan_clean (e ∷ es) s s' h clean =
      let (next, stepped, later) = >>=-eq-ok (step sha256_json valid_event g s e) _ h in
      (step-IsClean s e next stepped (scan_clean es next s' later clean)).before

  scan-IsChained :
      (es : List Fields) (s s' : Scan)
      → scan sha256_json valid_event g s es ≡ ok s'
      → is_empty s'.errors ≡ true
      → IsChained sha256_json s.head es s'.head × IsFresh s.event_ids es
  unfolding scan IsChained IsFresh
  scan-IsChained [] s s' h clean = (ok-subst (λ x. s.head ≡ x.head) h refl, tt)
  scan-IsChained (e ∷ es) s s' h clean =
      let (next, stepped, later) = >>=-eq-ok (step sha256_json valid_event g s e) _ h in
      let c = step-IsClean s e next stepped (scan_clean es next s' later clean) in
      let (chained, fresh) = scan-IsChained es next s' later clean in
      (
        (c.linked, c.hashed, subst (λ f. IsChained sha256_json f es s'.head) c.head chained),
        (c.fresh, subst (λ ids. IsFresh ids es) c.ids fresh),
      )

  pub parts_of :
      (ls : List (Option Fields)) (v : Verification)
      → verify sha256_json valid_event g ls ≡ ok v
      → is_valid v ≡ true
      → (s : Scan) × (scan sha256_json valid_event g start (parsed ls) ≡ ok s)
        × (is_empty s.errors ≡ true)
        × (v.head ≡ s.head)
  unfolding verify is_valid verification_of
  parts_of ls v h clean =
      let (s, scanned, made) = >>=-eq-ok (scan sha256_json valid_event g start (parsed ls)) _ h in
      let (_, none_) =
        ok-subst
          (λ (x : Verification).
            is_empty x.errors ≡ true
            → (is_empty (parse_errors 1 ls) ≡ true) × (is_empty s.errors ≡ true))
          made (empty_parts (parse_errors 1 ls) s.errors) clean in
      (s, scanned, none_, ok-subst (λ (x : Verification). x.head ≡ s.head) made refl)

  -- In a valid ledger each event names the hash that the event before it stores, the first one names
  -- none, each stores its own hash, the last one stores the head, and no event id occurs twice.
  pub verify-IsChained :
      (ls : List (Option Fields)) (v : Verification)
      → verify sha256_json valid_event g ls ≡ ok v
      → is_valid v ≡ true
      → IsChained sha256_json null_value (parsed ls) v.head × IsFresh [] (parsed ls)
  unfolding start
  verify-IsChained ls v h clean =
      let (s, scanned, none_, head) = parts_of ls v h clean in
      let (chained, fresh) = scan-IsChained (parsed ls) start s scanned none_ in
      (subst (λ f. IsChained sha256_json null_value (parsed ls) f) (sym head) chained, fresh)
