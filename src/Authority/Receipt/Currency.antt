-- ===== src/Authority/Receipt/Currency.antt =====
-- When a receipt of src/engine/control-tower-authority.mjs is accepted.
use ai_core.Base.{
  ℕ, String, Bool, true, false, not, ◌&&◌, Option, none, some, List, [], ◌∷◌, ◌≡◌, refl, inl, inr,
  ◌==◌, eq_refl, arith, every, includes, keep, In, includes_iff, same_text, same_text_iff,
  if◌then◌else◌,
}
use ai_core.Base.Result.{Result, ok, err, >>=-eq-ok, need-eq-ok}
use ai_core.Authority.Receipt.{
  Plan, Capability, Located, locate, Authorization, needed, check_control, Tower, Inspected,
  Authority, granted, inspect_authority, check_authorization, receipt_of, issue, receipt_fits,
  receipt_current, verify, same_number, is_expired, verified_against, scopes_cover, scopes_within,
}

same_text_refl : (o : Option String) → same_text o o ≡ true
same_text_refl o = (same_text_iff o o).1 refl

same_number_refl : (o : Option ℕ) → same_number o o ≡ true
unfolding same_number
same_number_refl none = refl
same_number_refl (some n) = ground arith

every_self :
    (ys xs : List String)
    → ((x : String) → In x xs → includes ys x ≡ true)
    → every (includes ys) xs ≡ true
every_self ys [] h = refl
every_self ys (x ∷ xs) h =
    let here = h x (inl refl) in let later = every_self ys xs (λ y i. h y (inr i)) in ground arith

every-keep : (p : String → Bool) (xs : List String) → every p (keep p xs) ≡ true
every-keep p [] = refl
every-keep p (x ∷ xs) = ground (arith, every-keep p xs)

keep_all : (p : String → Bool) (xs : List String) → every p xs ≡ true → keep p xs ≡ xs
keep_all p [] h = refl
keep_all p (x ∷ xs) h = ground (arith, keep_all p xs)

every-includes_self : (xs : List String) → every (includes xs) xs ≡ true
every-includes_self xs = every_self xs xs (λ x i. (includes_iff xs x).1 i)

-- What an authorization that passes the check covers.
authorization_scopes :
    (auth : Option Authorization) (plan : Plan) (capability : Capability) (now : ℕ)
    (found : Authorization × List String)
    → check_authorization auth plan capability now ≡ ok found
    → (every (includes found.1) capability.required_scopes ≡ true)
      × (is_expired found.0.expires_at now ≡ false)
unfolding check_authorization
authorization_scopes none plan capability now found h = absurd (cc)
authorization_scopes (some a) plan capability now found h =
    let (_, h₁) = need-eq-ok (a.required && a.status == "GRANTED") _ _ h in
    let (_, h₂) = need-eq-ok (same_text a.revision plan.subject_revision) _ _ h₁ in
    let (scope, has, h₃) = >>=-eq-ok (needed a.scope "CANONICAL_AUTHORITY_SCOPE_MISSING") _ h₂ in
    let (covers, h₄) = need-eq-ok (every (includes scope) capability.required_scopes) _ _ h₃ in
    let (fresh, h₅) = need-eq-ok (not (is_expired a.expires_at now)) _ _ h₄ in ground arith

module _ (tower : Tower) (plan : Plan) (capability : Capability) where
  ok_parts :
      (now : ℕ) (l : Located) (found : Authorization × List String) (i : Inspected)
      → ◌≡◌ {A = Result String Inspected}
          (ok (record { head = l.ledger.head; authorization = found.0; scope = found.1 }))
          (ok i)
      → (every (includes found.1) capability.required_scopes ≡ true)
        × (is_expired found.0.expires_at now ≡ false)
      → (every (includes i.scope) capability.required_scopes ≡ true)
        × (is_expired i.authorization.expires_at now ≡ false)
  ok_parts now l found i e (a, b) = ground arith

  -- An inspection that succeeds has found an authorization that covers every required scope and has
  -- not expired.
  pub inspected_scopes :
      (now : ℕ) (i : Inspected)
      → inspect_authority tower plan capability now ≡ ok i
      → (every (includes i.scope) capability.required_scopes ≡ true)
        × (is_expired i.authorization.expires_at now ≡ false)
  unfolding inspect_authority
  inspected_scopes now i h =
      let (l, _, h₁) = >>=-eq-ok (locate tower plan) _ h in
      let (found, checked, h₂) =
        >>=-eq-ok (check_authorization l.item.authorization plan capability now) _ h₁ in
      let (control, _, h₃) = >>=-eq-ok (tower.run_control_tower l.context) _ h₂ in
      let (_, _, h₄) = >>=-eq-ok (check_control control l.ledger plan) _ h₃ in
      ok_parts now l found i h₄
        (authorization_scopes l.item.authorization plan capability now found checked)

  receipt_fits_itself :
      (i : Inspected)
      → every (includes i.scope) capability.required_scopes ≡ true
      → receipt_fits tower (receipt_of tower plan capability i) plan capability ≡ true
  unfolding receipt_fits receipt_of
  receipt_fits_itself i h = ground (
    arith,
    same_text_refl plan.order_id,
    same_text_refl plan.work_id,
    same_text_refl plan.project_id,
    same_text_refl plan.subject_revision,
    eq_refl capability.id,
    keep_all (includes i.scope) capability.required_scopes h,
    every-includes_self capability.required_scopes,
  )

  receipt_current_itself :
      (i : Inspected) → receipt_current tower (receipt_of tower plan capability i) i ≡ true
  unfolding receipt_current receipt_of
  receipt_current_itself i = ground (
    arith,
    same_text_refl i.head,
    same_text_refl i.authorization.authorized_by,
    same_text_refl i.authorization.action,
    same_text_refl i.authorization.target,
    same_number_refl i.authorization.expires_at,
    every-keep (includes i.scope) capability.required_scopes,
  )

  -- A receipt that was issued is accepted at any later time at which the canonical sources still
  -- give the same answer.
  pub verify-issue :
      (earlier now : ℕ) (a : Authority) (i : Inspected)
      → issue tower plan capability earlier ≡ granted a
      → inspect_authority tower plan capability earlier ≡ ok i
      → inspect_authority tower plan capability now ≡ ok i
      → verify tower (some a) plan capability now ≡ true
  unfolding issue verify
  verify-issue earlier now a i issued before current =
      let e : receipt_of tower plan capability i ≡ a = ground arith in
      rw (← e) (
        ground (
          arith,
          receipt_fits_itself i (inspected_scopes now i current).0,
          receipt_current_itself i,
        ))

  verified_inversion :
      (a : Authority) (r : Result String Inspected)
      → verified_against tower a r ≡ true
      → (i : Inspected) × (r ≡ ok i) × (receipt_current tower a i ≡ true)
  unfolding verified_against
  verified_inversion a (err e) h = absurd (cc)
  verified_inversion a (ok i) h = (i, refl, h)

  covered :
      (scopes : Option (List String)) (required held : List String)
      → scopes_cover tower scopes required ≡ true
      → scopes_within tower scopes held ≡ true
      → (list : List String) × (scopes ≡ some list)
        × (every (includes list) required ≡ true)
        × (every (includes held) list ≡ true)
  unfolding scopes_cover scopes_within
  covered none required held h k = absurd (cc)
  covered (some list) required held h k = (list, refl, h, k)

  both : (b c : Bool) → (if b then c else false) ≡ true → (b ≡ true) × (c ≡ true)
  both true c h = (refl, h)
  both false c h = absurd (cc)

  fits_cover :
      (a : Authority)
      → receipt_fits tower a plan capability ≡ true
      → scopes_cover tower a.scopes capability.required_scopes ≡ true
  unfolding receipt_fits
  fits_cover a h = ground arith

  current_within :
      (a : Authority) (i : Inspected)
      → receipt_current tower a i ≡ true
      → (scopes_within tower a.scopes i.scope ≡ true) × (same_text a.ledger_head i.head ≡ true)
  unfolding receipt_current
  current_within a i h = ground arith

  -- A receipt that is accepted covers every required scope, carries no scope beyond what the
  -- canonical authorization grants now, names the ledger head of now, and the authorization has not
  -- expired.
  pub verify_sound :
      (now : ℕ) (a : Authority)
      → verify tower (some a) plan capability now ≡ true
      → (i : Inspected) × (scopes : List String) × (inspect_authority tower plan capability now
          ≡ ok i)
        × (a.scopes ≡ some scopes)
        × (every (includes scopes) capability.required_scopes ≡ true)
        × (every (includes i.scope) scopes ≡ true)
        × (a.ledger_head ≡ i.head)
        × (is_expired i.authorization.expires_at now ≡ false)
  unfolding verify
  verify_sound now a h =
      let (fits, against) =
        both (receipt_fits tower a plan capability)
          (verified_against tower a (inspect_authority tower plan capability now)) h in
      let (i, inspected, current) =
        verified_inversion a (inspect_authority tower plan capability now) against in
      let (within, same) = current_within a i current in
      let (list, e, all, held) =
        covered a.scopes capability.required_scopes i.scope (fits_cover a fits) within in
      (
        i,
        list,
        inspected,
        e,
        all,
        held,
        (same_text_iff a.ledger_head i.head).0 same,
        (inspected_scopes now i inspected).1,
      )
