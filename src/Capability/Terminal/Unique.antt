-- ===== src/Capability/Terminal/Unique.antt =====
-- A receipt of src/engine/execution-receipt.mjs whose identity is verified is the only one that fits.
use ai_core.Base.{
  ℕ, String, Bool, true, false, not, ◌&&◌, Option, none, some, List, [], ◌∷◌, ◌≡◌, refl, ap, sym,
  ◌∙◌, arith, inl, inr, keep, is_some, is_empty, truthy, Bool-cases, Option-cases,
}
use ai_core.Base.Field.{Field, is_text}
use ai_core.Base.Result.{Result, ok, err, ◌>>=◌, >>=-eq-ok, ok-subst}
use ai_core.Base.Table.{Table}
use ai_core.Json.{Json}
use ai_core.Capability.Terminal.{
  FileSystem, Config, ReceiptError, Observed, hold, property, fits, terminal, judge_receipt,
  is_changed, latest_first, fitting, exact_matches, read_first, of_exact, judge_changed, listed,
  receipt_path_escape, reconcile_receipts, blank_or, take_snapshot, validate_config, directory_of,
  same_time, is_under,
}

none_verified : ◌≡◌ {A = Option Bool} none (some true) → ⊥
none_verified h = absurd (cc)

false_verified : ◌≡◌ {A = Option Bool} (some false) (some true) → ⊥
false_verified h = absurd (cc)

-- A judgement with a verified identity is of a receipt that fits.
pub record IsOwn (c : Config) (identity path : String) (receipt : Json) (obs : Observed)
    : Type 0 where
  pub bound : truthy c.identity_field ≡ true
  pub fitted : fits c identity receipt ≡ true
  pub at_path : obs.path ≡ some path

terminal-path : (c : Config) (path : String) (f : Field) → (terminal c path f true).path ≡ some path
unfolding terminal
terminal-path c path f = elim (Bool-cases (listed c.success_states f)) [
  | inl a ↦ rw (a) refl
  | inr a ↦ elim (Bool-cases (listed c.hold_states f)) [
    | inl b ↦ rw (a, b) refl
    | inr b ↦ elim (Bool-cases (listed c.failure_states f)) [
      | inl d ↦ rw (a, b, d) refl
      | inr d ↦ rw (a, b, d) refl
    ]
  ]
]

judge_receipt-IsOwn :
    (c : Config) (identity path : String) (receipt : Json)
    → (judge_receipt c (some identity) path receipt).identity_verified ≡ some true
    → IsOwn c identity path receipt (judge_receipt c (some identity) path receipt)
unfolding judge_receipt fits hold
judge_receipt-IsOwn c identity path receipt h =
    let of_schema =
      is_text (property receipt (blank_or c.schema_field)) (blank_or c.schema_value) in
    let of_identity = is_text (property receipt (blank_or c.identity_field)) identity in
    let out = judge_receipt c (some identity) path receipt in
    elim (Bool-cases of_schema) [
      | inr e ↦
          let made : out ≡ hold "EXECUTION_RECEIPT_SCHEMA_MISMATCH" (some path) none =
            rw (e) refl in
          absurd (none_verified (ap (λ (x : Observed). x.identity_verified) (sym made) ∙ h))
      | inl e ↦ elim (Bool-cases (truthy c.identity_field)) [
        | inr u ↦
            let made : out ≡ hold "EXECUTION_RECEIPT_IDENTITY_UNBOUND" (some path) (some false) =
              rw (e, u) refl in
            absurd (false_verified (ap (λ (x : Observed). x.identity_verified) (sym made) ∙ h))
        | inl u ↦ elim (Bool-cases of_identity) [
          | inr i ↦
              let made : out ≡ hold "EXECUTION_RECEIPT_IDENTITY_MISMATCH" (some path) (some false) =
                rw (e, u, i) refl in
              absurd (false_verified (ap (λ (x : Observed). x.identity_verified) (sym made) ∙ h))
          | inl i ↦
              let made : out ≡ terminal c path (property receipt (blank_or c.state_field)) true =
                rw (e, u, i) refl in
              record {
                bound = u;
                fitted = rw (e, i) refl;
                at_path =
                    ap (λ (x : Observed). x.path) made
                    ∙ terminal-path c path (property receipt (blank_or c.state_field));
              }
        ]
      ]
    ]

cons_nil : {A : Type 0} {x : A} {xs : List A} → (x ∷ xs) ≡ [] → ⊥
cons_nil h = absurd (cc)

err_ok :
    {A : Type 0} {r : Result ReceiptError A} {x : ReceiptError} {v : A} → r ≡ err x → r ≡ ok v → ⊥
err_ok {A} {r} {x} {v} p q =
    let bad : ◌≡◌ {A = Result ReceiptError A} (err x) (ok v) = sym p ∙ q in absurd (cc)

names_of : List ((String × ℕ) × Json) → List (String × ℕ)
names_of [] = []
names_of ((x, receipt) ∷ rest) = x ∷ names_of rest

module _ (fs : FileSystem) (c : Config) (dir identity : String) where
  unfoldable pub is_fitting : String × ℕ → Bool
  is_fitting x = is_some (fitting fs c dir identity x)

  -- The collected files are those that fit, in their order.
  exact_matches-keep :
      (xs : List (String × ℕ)) (exact : List ((String × ℕ) × Json))
      → exact_matches fs c dir identity xs ≡ ok exact
      → keep is_fitting xs ≡ names_of exact
  unfolding exact_matches is_fitting names_of
  exact_matches-keep [] exact h = ok-subst (λ es. [] ≡ names_of es) h refl
  exact_matches-keep (x ∷ xs) exact h = elim (Bool-cases (is_under fs dir (fs.resolve dir x.0))) [
    | inr out ↦
        let made : exact_matches fs c dir identity (x ∷ xs) ≡ err receipt_path_escape =
          rw (out) refl in
        absurd (err_ok made h)
    | inl under ↦ elim (Option-cases (fitting fs c dir identity x)) [
      | inl e ↦
          let made : exact_matches fs c dir identity (x ∷ xs) ≡ exact_matches fs c dir identity xs =
            rw (under, e) refl in
          rw (e) (exact_matches-keep xs exact (sym made ∙ h))
      | inr (receipt, e) ↦
          let made : exact_matches fs c dir identity (x ∷ xs)
              ≡ (exact_matches fs c dir identity xs >>= λ m. ok ((x, receipt) ∷ m)) =
            rw (under, e) refl in
          let (rest, found, later) =
            >>=-eq-ok (exact_matches fs c dir identity xs) _ (sym made ∙ h) in
          rw (e) (
            ok-subst (λ es. x ∷ keep is_fitting xs ≡ names_of es) later
              (ap (λ ys. x ∷ ys) (exact_matches-keep xs rest found)))
    ]
  ]

  fitted_by :
      (x : String × ℕ) (receipt : Json)
      → fs.read_json (fs.resolve dir x.0) ≡ some receipt
      → fits c identity receipt ≡ true
      → is_fitting x ≡ true
  unfolding is_fitting fitting
  fitted_by (name, time) receipt e f = rw (e, fitting, f) refl

  read_first-IsOwn :
      (x : String × ℕ)
      → (read_first fs c (some identity) (fs.resolve dir x.0)).identity_verified ≡ some true
      → (is_fitting x ≡ true)
        × (truthy c.identity_field ≡ true)
        × ((read_first fs c (some identity) (fs.resolve dir x.0)).path ≡ some (fs.resolve dir x.0))
  unfolding read_first is_fitting fitting hold
  read_first-IsOwn x h =
      let path = fs.resolve dir x.0 in
      elim (Option-cases (fs.read_json path)) [
        | inl e ↦
            let made : read_first fs c (some identity) path
                ≡ hold "EXECUTION_RECEIPT_UNREADABLE" (some path) none =
              rw (e, read_first) refl in
            absurd (none_verified (ap (λ (o : Observed). o.identity_verified) (sym made) ∙ h))
        | inr (receipt, e) ↦
            let made : read_first fs c (some identity) path
                ≡ judge_receipt c (some identity) path receipt =
              rw (e, read_first) refl in
            let own =
              judge_receipt-IsOwn c identity path receipt
                (ap (λ (o : Observed). o.identity_verified) (sym made) ∙ h) in
            (
              fitted_by x receipt e own.fitted,
              own.bound,
              ap (λ (o : Observed). o.path) made ∙ own.at_path,
            )
      ]

  -- Exactly one of the files fits, and its path is the one that is returned.
  pub record IsOnly (changed : List (String × ℕ)) (obs : Observed) : Type 0 where
    pub file : String × ℕ
    pub only : keep is_fitting changed ≡ file ∷ []
    pub at_path : obs.path ≡ some (fs.resolve dir file.0)

  of_exact-IsOnly :
      (x : String × ℕ) (xs : List (String × ℕ)) (exact : List ((String × ℕ) × Json))
      → keep is_fitting (x ∷ xs) ≡ names_of exact
      → (of_exact fs c dir identity x.0 exact).identity_verified ≡ some true
      → IsOnly (x ∷ xs) (of_exact fs c dir identity x.0 exact)
  unfolding of_exact names_of hold
  of_exact-IsOnly x xs [] kept h =
      let (fitted, _, _) = read_first-IsOwn x h in
      let first : keep is_fitting (x ∷ xs) ≡ x ∷ keep is_fitting xs = rw (fitted) refl in
      absurd (cons_nil (sym first ∙ kept))
  of_exact-IsOnly x xs ((y, receipt) ∷ []) kept h =
      let own = judge_receipt-IsOwn c identity (fs.resolve dir y.0) receipt h in
      record { file = y; only = kept; at_path = own.at_path }
  of_exact-IsOnly x xs (y ∷ z ∷ more) kept h = absurd (none_verified h)

  alone :
      (x : String × ℕ) (xs : List (String × ℕ))
      → (truthy c.identity_field && not (is_empty xs)) ≡ false
      → (read_first fs c (some identity) (fs.resolve dir x.0)).identity_verified ≡ some true
      → IsOnly (x ∷ xs) (read_first fs c (some identity) (fs.resolve dir x.0))
  alone x [] single h =
      let (fitted, _, at) = read_first-IsOwn x h in
      record { file = x; only = rw (fitted) refl; at_path = at }
  alone x (y ∷ ys) single h =
      let (_, bound, _) = read_first-IsOwn x h in absurd (ground (arith, bound))

  judge_changed-IsOnly :
      (changed : List (String × ℕ)) (obs : Observed)
      → judge_changed fs c dir (some identity) changed ≡ ok obs
      → obs.identity_verified ≡ some true
      → IsOnly changed obs
  unfolding judge_changed hold
  judge_changed-IsOnly [] obs h v =
      absurd (ok-subst (λ (o : Observed). o.identity_verified ≡ some true → ⊥) h none_verified v)
  judge_changed-IsOnly (x ∷ xs) obs h v =
      let out = judge_changed fs c dir (some identity) (x ∷ xs) in
      let bound = truthy c.identity_field in
      elim (Bool-cases (not bound && same_time fs x xs)) [
        | inl e ↦
            let made : out ≡ ok (hold "EXECUTION_RECEIPT_AMBIGUOUS" none none) = rw (e) refl in
            absurd (
              ok-subst (λ (o : Observed). o.identity_verified ≡ some true → ⊥) (sym made ∙ h)
                none_verified v)
        | inr e ↦ elim (Bool-cases (is_under fs dir (fs.resolve dir x.0))) [
          | inr u ↦
              let made : out ≡ err receipt_path_escape = rw (e, u) refl in absurd (err_ok made h)
          | inl u ↦ elim (Bool-cases (bound && not (is_empty xs))) [
            | inl several ↦
                let made : out ≡ (
                    exact_matches fs c dir identity (x ∷ xs) >>= λ exact.
                    ok (of_exact fs c dir identity x.0 exact)) =
                  rw (e, u, several) refl in
                let (exact, found, later) =
                  >>=-eq-ok (exact_matches fs c dir identity (x ∷ xs)) _ (sym made ∙ h) in
                ok-subst (λ (o : Observed). o.identity_verified ≡ some true → IsOnly (x ∷ xs) o)
                  later (of_exact-IsOnly x xs exact (exact_matches-keep (x ∷ xs) exact found)) v
            | inr single ↦
                let made : out ≡ ok (read_first fs c (some identity) (fs.resolve dir x.0)) =
                  rw (e, u, single) refl in
                ok-subst (λ (o : Observed). o.identity_verified ≡ some true → IsOnly (x ∷ xs) o)
                  (sym made ∙ h) (alone x xs single) v
          ]
        ]
      ]

-- A reconciliation whose identity is verified found, among the files that are new or have another time
-- than before, exactly one that reads as a receipt of the schema and the expected identity, and
-- returns its path.
pub reconcile_receipts-IsOnly :
    (fs : FileSystem) (root identity : String) (c : Config) (before : Table ℕ) (obs : Observed)
    → reconcile_receipts fs root c before (some identity) ≡ ok obs
    → obs.identity_verified ≡ some true
    → (after : Table ℕ) × (take_snapshot fs root c ≡ ok after)
      × IsOnly fs c
          (directory_of fs c root)
          identity
          (latest_first (keep (is_changed before) after))
          obs
unfolding reconcile_receipts
reconcile_receipts-IsOnly fs root identity c before obs h v =
    let (_, _, h₁) = >>=-eq-ok (validate_config c) _ h in
    let (after, taken, h₂) = >>=-eq-ok (take_snapshot fs root c) _ h₁ in
    (
      after,
      taken,
      judge_changed-IsOnly fs c (directory_of fs c root) identity
          (latest_first (keep (is_changed before) after)) obs h₂ v,
    )
