-- ===== src/Base/Lists.antt =====
-- Lists measured by native numbers, membership of texts, and predicates that hold of every item.
use Prim.Native.Nat.{ℕ, zero, suc, ◌+◌}
use Prim.Native.String.{String}
use mathlib.Core.Path.{◌≡◌, refl, sym, ap, subst, ◌∙◌}
use mathlib.Core.Logic.{◌⊎◌, ◌↔◌, inl, inr}
use mathlib.Core.Bool.{Bool, true, false, ◌&&◌, ◌||◌}
use mathlib.Core.Option.{Option, none, some}
use mathlib.Core.List.{List, [], ◌∷◌, ◌++◌, map}
use native.Mathlib.Omega.{arith}
use text.Mathlib.Text.{◌==◌}
use text.Mathlib.TextEquality.{eq_iff}
use ai_core.Base.Tests.{if◌then◌else◌}

module _ {ℓ} {A : Type ℓ} where
  abbrev pub length : List A → ℕ
  length [] = 0
  length (x ∷ xs) = suc (length xs)

  -- `xs.every(p)`
  abbrev pub every : (A → Bool) → List A → Bool
  every p [] = true
  every p (x ∷ xs) = p x && every p xs

  -- `xs.some(p)`
  abbrev pub any : (A → Bool) → List A → Bool
  any p [] = false
  any p (x ∷ xs) = p x || any p xs

  -- `xs.find(p)`: the first item that passes the test.
  abbrev pub find : (A → Bool) → List A → Option A
  find p [] = none
  find p (x ∷ xs) = if p x then some x else find p xs

  -- `xs.filter(p)`
  abbrev pub keep : (A → Bool) → List A → List A
  keep p [] = []
  keep p (x ∷ xs) = if p x then x ∷ keep p xs else keep p xs

  abbrev pub is_empty : List A → Bool
  is_empty [] = true
  is_empty (x ∷ xs) = false

  abbrev pub take : ℕ → List A → List A
  take zero xs = []
  take (suc n) [] = []
  take (suc n) (x ∷ xs) = x ∷ take n xs

  abbrev pub drop : ℕ → List A → List A
  drop zero xs = xs
  drop (suc n) [] = []
  drop (suc n) (x ∷ xs) = drop n xs

  pub length-append : (xs ys : List A) → length (xs ++ ys) ≡ length xs + length ys
  length-append [] ys = omega arith
  length-append (x ∷ xs) ys = omega (arith, length-append xs ys)

-- `xs.includes(a)`
abbrev pub includes : List String → String → Bool
includes [] a = false
includes (x ∷ xs) a = x == a || includes xs a

-- Every item satisfies `P`.
abbrev pub All {ℓ κ} : {A : Type ℓ} → (A → Type κ) → List A → Type κ
All P [] = Unit
All P (x ∷ xs) = P x × All P xs

-- `a` is one of the items.
abbrev pub In : {A : Type 0} → A → List A → Type 0
In a [] = ⊥
In a (x ∷ xs) = (x ≡ a) ⊎ In a xs

pub includes_iff : (xs : List String) (a : String) → (includes xs a ≡ true) ↔ In a xs
includes_iff [] a = (λ h. absurd (cc), λ h. absurd h)
includes_iff (x ∷ xs) a = grind (arith, includes_iff xs a, eq_iff x a)

module _ {ℓ} {A : Type ℓ} (p : A → Bool) where
  pub every_iff : (xs : List A) → (every p xs ≡ true) ↔ All (λ x. p x ≡ true) xs
  every_iff [] = (λ h. tt, λ h. refl)
  every_iff (x ∷ xs) = ground (arith, every_iff xs)

  -- A found item passes the test.
  pub find-passes : (xs : List A) {a : A} → find p xs ≡ some a → p a ≡ true
  find-passes [] h = absurd (cc)
  find-passes (x ∷ xs) {a} h = ground (arith, find-passes xs {a = a})

module _ {A : Type 0} (p : A → Bool) where
  pub find-In : (xs : List A) {a : A} → find p xs ≡ some a → In a xs
  find-In [] h = absurd (cc)
  find-In (x ∷ xs) {a} h = ground (arith, find-In xs {a = a})

  -- Where nothing is found, no item passes the test.
  pub find-none : (xs : List A) {a : A} → find p xs ≡ none → In a xs → p a ≡ false
  find-none [] h i = absurd i
  find-none (x ∷ xs) {a} h i = ground (arith, find-none xs {a = a})

  pub In-keep_iff : (a : A) (xs : List A) → In a (keep p xs) ↔ (In a xs × (p a ≡ true))
  In-keep_iff a [] = (λ h. absurd h, λ h. absurd h.0)
  In-keep_iff a (x ∷ xs) = grind (arith, In-keep_iff a xs)

module _ {A : Type 0} where
  pub In-append_iff : (a : A) (xs ys : List A) → In a (xs ++ ys) ↔ (In a xs ⊎ In a ys)
  In-append_iff a [] ys = (inr, elim [ inl h ↦ absurd h | inr h ↦ h ])
  In-append_iff a (x ∷ xs) ys = grind (arith, In-append_iff a xs ys)

  pub All-In : (P : A → Type 0) (xs : List A) {a : A} → All P xs → In a xs → P a
  All-In P [] h i = absurd i
  All-In P (x ∷ xs) h (inl e) = subst P e h.0
  All-In P (x ∷ xs) h (inr i) = All-In P xs h.1 i

module _ {A B : Type 0} (f : A → B) where
  pub In-map : (a : A) (xs : List A) → In a xs → In (f a) (map f xs)
  In-map a [] h = absurd h
  In-map a (x ∷ xs) (inl e) = inl (ap f e)
  In-map a (x ∷ xs) (inr h) = inr (In-map a xs h)

  pub map-In : {b : B} (xs : List A) → In b (map f xs) → (a : A) × In a xs × (f a ≡ b)
  map-In [] h = absurd h
  map-In (x ∷ xs) (inl e) = (x, inl refl, e)
  map-In (x ∷ xs) (inr h) = let (a, i, e) = map-In xs h in (a, inr i, e)

module _ {ℓ} {A : Type ℓ} where
  pub is_empty-append : (xs ys : List A) → is_empty (xs ++ ys) ≡ (is_empty xs && is_empty ys)
  is_empty-append [] ys = refl
  is_empty-append (x ∷ xs) ys = refl

  pub any-append : (p : A → Bool) (xs ys : List A) → any p (xs ++ ys) ≡ (any p xs || any p ys)
  any-append p [] ys = refl
  any-append p (x ∷ xs) ys = ground (arith, any-append p xs ys)

pub includes-append :
    (xs ys : List String) (a : String) → includes (xs ++ ys) a ≡ (includes xs a || includes ys a)
includes-append [] ys a = refl
includes-append (x ∷ xs) ys a = ground (arith, includes-append xs ys a)

module _ {A : Type 0} where
  abbrev pub reverse_onto : List A → List A → List A
  reverse_onto [] acc = acc
  reverse_onto (x ∷ xs) acc = reverse_onto xs (x ∷ acc)

  reverse_onto_twice :
      (xs acc rest : List A)
      → reverse_onto (reverse_onto xs acc) rest ≡ reverse_onto acc (xs ++ rest)
  reverse_onto_twice [] acc rest = refl
  reverse_onto_twice (x ∷ xs) acc rest = reverse_onto_twice xs (x ∷ acc) rest

  append_nil : (xs : List A) → xs ++ [] ≡ xs
  append_nil [] = refl
  append_nil (x ∷ xs) = ap (λ ys. x ∷ ys) (append_nil xs)

  -- Lists are equal when their reverses are.
  pub reverse_onto_inj : (xs ys : List A) → reverse_onto xs [] ≡ reverse_onto ys [] → xs ≡ ys
  reverse_onto_inj xs ys h =
      sym (append_nil xs)
      ∙ sym (reverse_onto_twice xs [] [])
      ∙ ap (λ zs. reverse_onto zs []) h
      ∙ reverse_onto_twice ys [] []
      ∙ append_nil ys

pub map-reverse_onto :
    {A B : Type 0} (f : A → B) (xs acc : List A)
    → map f (reverse_onto xs acc) ≡ reverse_onto (map f xs) (map f acc)
map-reverse_onto f [] acc = refl
map-reverse_onto f (x ∷ xs) acc = map-reverse_onto f xs (x ∷ acc)

-- `Array.prototype.sort`, which is stable: `before x y` says that `x` may stand before a later `y`.
module _ {A : Type 0} (before : A → A → Bool) where
  abbrev pub insert_by : A → List A → List A
  insert_by x [] = x ∷ []
  insert_by x (y ∷ ys) = if before x y then x ∷ y ∷ ys else y ∷ insert_by x ys

  abbrev pub sort_by : List A → List A
  sort_by [] = []
  sort_by (x ∷ xs) = insert_by x (sort_by xs)

  pub In-insert_by : (a x : A) (xs : List A) → In a (insert_by x xs) → (x ≡ a) ⊎ In a xs
  In-insert_by a x [] i = i
  In-insert_by a x (y ∷ ys) i = grind (arith, In-insert_by a x ys)

  pub In-sort_by : (a : A) (xs : List A) → In a (sort_by xs) → In a xs
  In-sort_by a [] i = i
  In-sort_by a (x ∷ xs) i = elim (In-insert_by a x (sort_by xs) i) [
    | inl e ↦ inl e
    | inr j ↦ inr (In-sort_by a xs j)
  ]
