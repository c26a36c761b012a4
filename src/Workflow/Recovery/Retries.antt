-- ===== src/Workflow/Recovery/Retries.antt =====
-- The retries that src/workflow/engine.mjs allows for one failing transition.
use ai_core.Base.{
  ℕ, zero, suc, ◌+◌, ◌≤◌, ◌<◌, String, true, false, Option, none, some, ◌≡◌, refl, ◌∙◌, ◌⊎◌, arith,
  ltb→lt, inl, inr, Bool-cases,
}
use ai_core.Workflow.Spec.{Retry, Transition}
use ai_core.Workflow.Recovery.{Resolution, on_exhausted, should_retry, resolve_on}

-- The caller that tries again for as long as it is told to: the attempt that fails last, when
-- attempt `n` fails with the code `code n`.
unfoldable pub follow : ℕ → Transition → (ℕ → Option String) → String → ℕ → Option Resolution
follow zero t code at n = none
follow (suc fuel) t code at n = elim (resolve_on t n (code n) at).next_attempt [
  | none ↦ some (resolve_on t n (code n) at)
  | some m ↦ follow fuel t code at m
]

next_none :
    (t : Transition) (n : ℕ) (code : Option String) (at : String)
    → should_retry t.retry n code ≡ false
    → (resolve_on t n code at).next_attempt ≡ none
unfolding resolve_on
next_none t n code at h = rw (h) refl

next_some :
    (t : Transition) (n : ℕ) (code : Option String) (at : String)
    → should_retry t.retry n code ≡ true
    → (resolve_on t n code at).next_attempt ≡ some (n + 1)
unfolding resolve_on
next_some t n code at h = rw (h) refl

-- Where no more retry is due, the failure is settled there.
follow_stops :
    (t : Transition) (code : ℕ → Option String) (at : String) (fuel n : ℕ)
    → should_retry t.retry n (code n) ≡ false
    → follow (suc fuel) t code at n ≡ some (resolve_on t n (code n) at)
unfolding follow resolve_on
follow_stops t code at fuel n h = rw (next_none t n (code n) at h, follow) refl

follow_goes :
    (t : Transition) (code : ℕ → Option String) (at : String) (fuel n : ℕ)
    → should_retry t.retry n (code n) ≡ true
    → follow (suc fuel) t code at n ≡ follow fuel t code at (n + 1)
unfolding follow
follow_goes t code at fuel n h = rw (next_some t n (code n) at h, follow) refl

resolved_exhausted :
    (t : Transition) (n : ℕ) (code : Option String) (at : String)
    → should_retry t.retry n code ≡ false
    → (resolve_on t n code at).action ≡ on_exhausted t.failure.on_exhausted
unfolding resolve_on
resolved_exhausted t n code at h = rw (h) refl

resolved_attempt :
    (t : Transition) (n : ℕ) (code : Option String) (at : String)
    → (resolve_on t n code at).attempt ≡ n
unfolding resolve_on
resolved_attempt t n code at = ground arith

retry_bound :
    (r : Retry) (n : ℕ) (code : Option String) → should_retry r n code ≡ true → n < r.max_attempts
unfolding should_retry
retry_bound r n code h = ltb→lt n r.max_attempts (ground arith)

stopped :
    (t : Transition) (code : ℕ → Option String) (at : String) (fuel n : ℕ)
    → should_retry t.retry n (code n) ≡ false
    → (r : Resolution) × (follow (suc fuel) t code at n ≡ some r)
      × (r.action ≡ on_exhausted t.failure.on_exhausted)
      × ((r.attempt ≡ n) ⊎ (r.attempt ≤ t.retry.max_attempts))
stopped t code at fuel n e = (
  resolve_on t n (code n) at,
  follow_stops t code at fuel n e,
  resolved_exhausted t n (code n) at e,
  inl (resolved_attempt t n (code n) at),
)

-- However the attempts fail, a caller that tries again exactly when it is told to ends: with fuel
-- for the attempts that are left, the last answer is to do what the transition says on exhaustion,
-- and the attempt it is given for is the first one, or one that is at most the maximum.
pub follow_ends :
    (t : Transition) (code : ℕ → Option String) (at : String) (fuel n : ℕ)
    → t.retry.max_attempts ≤ n + fuel
    → (r : Resolution) × (follow (suc fuel) t code at n ≡ some r)
      × (r.action ≡ on_exhausted t.failure.on_exhausted)
      × ((r.attempt ≡ n) ⊎ (r.attempt ≤ t.retry.max_attempts))
follow_ends t code at zero n h = elim (Bool-cases (should_retry t.retry n (code n))) [
  | inl e ↦ absurd (let b = retry_bound t.retry n (code n) e in omega arith)
  | inr e ↦ stopped t code at zero n e
]
follow_ends t code at (suc fuel) n h = elim (Bool-cases (should_retry t.retry n (code n))) [
  | inl e ↦
      (let b = retry_bound t.retry n (code n) e in
        let (r, later, settled, last) = follow_ends t code at fuel (n + 1) (omega arith) in
        (r, follow_goes t code at (suc fuel) n e ∙ later, settled, inr (ground arith)))
  | inr e ↦ stopped t code at (suc fuel) n e
]
