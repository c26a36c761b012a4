-- ===== src/Base/Result.antt =====
-- A function that may throw returns a `Result`; `E` is the type of what it throws.
use mathlib.Core.Path.{◌≡◌, refl, subst}
use mathlib.Core.Logic.{◌⊎◌, inl, inr}
use mathlib.Core.Bool.{Bool, true, false}

pub data Result {ℓ} (E A : Type ℓ) : Type ℓ where
  ok : A → Result E A
  err : E → Result E A

infixl 5 ◌>>=◌ ◌>>◌
abbrev pub ◌>>=◌ {ℓ} : {E A B : Type ℓ} → Result E A → (A → Result E B) → Result E B
err thrown >>= next = err thrown
ok value >>= next = next value

abbrev pub ◌>>◌ {ℓ} : {E A B : Type ℓ} → Result E A → Result E B → Result E B
first >> second = first >>= λ _. second

-- `need(condition, code)`
abbrev pub need {ℓ} : {E : Type ℓ} → Bool → E → Result E (Unit {ℓ})
need true e = ok tt
need false e = err e

-- What was computed before the step that threw.
pub >>=-eq-ok {ℓ} :
    {E A B : Type ℓ} (first : Result E A) (next : A → Result E B) {result : B}
    → (first >>= next) ≡ ok result
    → (value : A) × (first ≡ ok value) × (next value ≡ ok result)
>>=-eq-ok (err thrown) next h = cc
>>=-eq-ok (ok value) next h = (value, refl, h)

pub need-eq-ok {ℓ} :
    {E B : Type ℓ} (b : Bool) (e : E) (k : Result E B) {v : B}
    → (need b e >> k) ≡ ok v
    → (b ≡ true) × (k ≡ ok v)
need-eq-ok true e k h = (refl, h)
need-eq-ok false e k h = cc

module _ {E B : Type 0} where
  ok_value : {x y : B} → ◌≡◌ {A = Result E B} (ok x) (ok y) → x ≡ y
  ok_value e = cc

  -- What holds of the value that is returned holds of the value that is found returned.
  pub ok-subst : (P : B → Type 0) {x y : B} → ◌≡◌ {A = Result E B} (ok x) (ok y) → P x → P y
  ok-subst P e = subst P (ok_value e)

pub Result-cases :
    {E A : Type 0} (r : Result E A) → ((a : A) × (r ≡ ok a)) ⊎ ((e : E) × (r ≡ err e))
Result-cases (ok a) = inl (a, refl)
Result-cases (err e) = inr (e, refl)
