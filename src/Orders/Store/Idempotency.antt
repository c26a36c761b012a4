-- ===== src/Orders/Store/Idempotency.antt =====
-- Request ids of src/orders/store.mjs: what a second call with the same id gets.
use ai_core.Base.{
  String, Bool, true, false, not, Option, none, some, ◌≡◌, ◌∙◌, ◌==◌, ◌⊎◌, refl, sym, ap, subst,
  arith, Option-cases, Bool-cases, inl, inr, if◌then◌else◌, eq_iff, eq_refl,
}
use ai_core.Base.Result.{Result, ok, err, ok-subst, >>=-eq-ok, need-eq-ok, Result-cases}
use ai_core.Base.Table
use ai_core.Base.Table.{Table, get-put}
use ai_core.Json.{Json}
use ai_core.Orders.Spec.{Order, Command}
use ai_core.Orders.Input.{OrderError, idempotency_conflict, text}
use ai_core.Orders.Runtime.{is_terminal, same_number}
use ai_core.Orders.Actions.{perform, finish}
use ai_core.Orders.Store.{
  Store, Host, EventKind, created, changed, Receipt, CreateInput, transact, keyed, finished,
  committed, replayed, mutate, create, mutated, created_in, save, call_hook, get, new_order,
}

-- The receipt of a request id holds the hash of its input and its response.
HasReceipt : Store → String → String → Order → Type 0
HasReceipt s k hash o = Table.get k s.receipts ≡ some (record { digest = hash; response = o })

committed-HasReceipt :
    (before s : Store) (k hash : String) (o o' : Order)
    → committed k hash (o', before) ≡ (s, ok o)
    → HasReceipt s k hash o
unfolding committed HasReceipt
committed-HasReceipt before s k hash o o' h =
    ground (arith, get-put k k (record { digest = hash; response = o' }) before.receipts, eq_refl k)

finished-HasReceipt :
    (before s : Store) (k hash : String) (r : Result OrderError (Order × Store)) (o : Order)
    → finished before k hash r ≡ (s, ok o)
    → HasReceipt s k hash o
unfolding finished
finished-HasReceipt before s k hash (ok (o', s')) o h = committed-HasReceipt s' s k hash o o' h
finished-HasReceipt before s k hash (err e) o h = absurd (cc)

replayed-HasReceipt :
    (before s : Store) (k hash : String) (r : Receipt) (o : Order)
    → Table.get k before.receipts ≡ some r
    → replayed before hash r ≡ (s, ok o)
    → HasReceipt s k hash o
unfolding replayed HasReceipt
replayed-HasReceipt before s k hash r o e h = elim (Bool-cases (r.digest == hash)) [
  | inl same ↦ (let d = (eq_iff r.digest hash).0 same in ground arith)
  | inr other ↦ absurd (ground arith)
]

keyed-HasReceipt :
    (before s : Store) (k hash : String) (fn : Store → Result OrderError (Order × Store))
    (o : Order)
    → keyed before k hash fn ≡ (s, ok o)
    → HasReceipt s k hash o
unfolding keyed
keyed-HasReceipt before s k hash fn o h = elim (Option-cases (Table.get k before.receipts)) [
  | inl e ↦ finished-HasReceipt before s k hash (fn before) o (ground arith)
  | inr (r, e) ↦ replayed-HasReceipt before s k hash r o e (ground arith)
]

is_ok : {A : Type 0} → Result OrderError A → Bool
is_ok (ok _) = true
is_ok (err _) = false

transact-HasReceipt :
    (sha256_json : Json → String) (before s : Store) (k : String) (input : Json)
    (fn : Store → Result OrderError (Order × Store)) (o : Order)
    → transact sha256_json before (some k) input fn ≡ (s, ok o)
    → (is_ok (text (some k) 200) ≡ true) × HasReceipt s k (sha256_json input) o
unfolding transact is_ok
transact-HasReceipt sha256_json before s k input fn o h = elim (Result-cases (text (some k) 200)) [
  | inl (a, e) ↦ (ground arith, keyed-HasReceipt before s k (sha256_json input) fn o (ground arith))
  | inr (e, n) ↦ absurd (ground arith)
]

keyed_again :
    (s : Store) (k hash hash' : String) (fn : Store → Result OrderError (Order × Store)) (o : Order)
    → HasReceipt s k hash o
    → keyed s k hash' fn ≡ (s, (if hash == hash' then ok o else err idempotency_conflict))
unfolding keyed replayed HasReceipt
keyed_again s k hash hash' fn o h = ground arith

transact-keyed :
    (sha256_json : Json → String) (s : Store) (k : String) (input : Json)
    (fn : Store → Result OrderError (Order × Store))
    → is_ok (text (some k) 200) ≡ true
    → transact sha256_json s (some k) input fn ≡ keyed s k (sha256_json input) fn
unfolding transact is_ok
transact-keyed sha256_json s k input fn h = ground arith

none-some : {r : Receipt} → none ≡ some r → ⊥
none-some h = absurd (cc)

true-false : true ≡ false → ⊥
true-false h = absurd (cc)

-- The receipts that are there stay as they are.
Retains : Store → Store → Type 0
Retains s s' =
    (k : String) (r : Receipt) → Table.get k s.receipts ≡ some r → Table.get k s'.receipts ≡ some r

Retains-refl : (s : Store) → Retains s s
unfolding Retains
Retains-refl s k r found = found

module _ (s : Store) (fn : Store → Result OrderError (Order × Store))
    (keeps : (o : Order) (s' : Store) → fn s ≡ ok (o, s') → s'.receipts ≡ s.receipts) where
  finished-Retains :
      (j hash : String) (r : Result OrderError (Order × Store))
      → fn s ≡ r
      → Table.get j s.receipts ≡ none
      → Retains s (finished s j hash r).0
  unfolding finished committed Retains
  finished-Retains j hash (err x) e unused k r found = found
  finished-Retains j hash (ok (o, s')) e unused k r found =
      let kept : Table.get k s'.receipts ≡ some r = ap (Table.get k) (keeps o s' e) ∙ found in
      elim (Bool-cases (j == k)) [
        | inl same ↦
            let at : j ≡ k = (eq_iff j k).0 same in
            let unused' : Table.get k s.receipts ≡ none =
              subst (λ x. Table.get x s.receipts ≡ none) at unused in
            absurd (none-some (sym unused' ∙ found))
        | inr other ↦
            ground
              (arith, other, kept, get-put j k (record { digest = hash; response = o }) s'.receipts)
      ]

  replayed-Retains : (hash : String) (r : Receipt) → Retains s (replayed s hash r).0
  unfolding replayed Retains
  replayed-Retains hash r k r' found = elim (Bool-cases (r.digest == hash)) [
    | inl e ↦ rw (e) found
    | inr e ↦ rw (e) found
  ]

  keyed-Retains : (j hash : String) → Retains s (keyed s j hash fn).0
  unfolding keyed
  keyed-Retains j hash = elim (Option-cases (Table.get j s.receipts)) [
    | inl e ↦ rw (e, keyed) (finished-Retains j hash (fn s) refl e)
    | inr (r, e) ↦ rw (e, keyed) (replayed-Retains hash r)
  ]

  transact-Retains :
      (sha256_json : Json → String) (key : Option String) (input : Json)
      → Retains s (transact sha256_json s key input fn).0
  unfolding transact
  transact-Retains sha256_json none input = elim (Result-cases (text none 200)) [
    | inl (a, e) ↦ rw (e, transact) (Retains-refl s)
    | inr (x, e) ↦ rw (e, transact) (Retains-refl s)
  ]
  transact-Retains sha256_json (some k) input = elim (Result-cases (text (some k) 200)) [
    | inl (a, e) ↦ rw (e, transact) (keyed-Retains k (sha256_json input))
    | inr (x, e) ↦ rw (e, transact) (Retains-refl s)
  ]

save_receipts :
    (h : Host) (s s' : Store) (kind : EventKind) (o : Order)
    → save h s kind o ≡ ok s'
    → s'.receipts ≡ s.receipts
unfolding save
save_receipts h s s' kind o e =
    let (_, _, e₁) = >>=-eq-ok (call_hook h kind o) _ e in
    ok-subst (λ (x : Store). x.receipts ≡ s.receipts) e₁ refl

created_in_receipts :
    (h : Host) (input : CreateInput) (s : Store) (o : Order) (s' : Store)
    → created_in h input s ≡ ok (o, s')
    → s'.receipts ≡ s.receipts
unfolding created_in
created_in_receipts h input s o s' e =
    let (made, _, e₁) = >>=-eq-ok (new_order h.env input) _ e in
    let (saved, e₂, e₃) = >>=-eq-ok (save h s created made) _ e₁ in
    ok-subst (λ (x : Order × Store). x.1.receipts ≡ s.receipts) e₃
      (save_receipts h s saved created made e₂)

mutated_receipts :
    (h : Host) (id : String) (c : Command) (s : Store) (o : Order) (s' : Store)
    → mutated h id c s ≡ ok (o, s')
    → s'.receipts ≡ s.receipts
unfolding mutated
mutated_receipts h id c s o s' e =
    let (o₀, _, e₁) = >>=-eq-ok (get s id) _ e in
    let (_, e₂) = need-eq-ok (same_number c.version o₀.version) _ _ e₁ in
    let (_, e₃) = need-eq-ok (not (is_terminal o₀.status)) _ _ e₂ in
    let (done, _, e₄) = >>=-eq-ok (perform c.action h.env o₀ c) _ e₃ in
    let (saved, e₅, e₆) = >>=-eq-ok (save h s (changed c.action) (finish h.env done)) _ e₄ in
    ok-subst (λ (x : Order × Store). x.1.receipts ≡ s.receipts) e₆
      (save_receipts h s saved (changed c.action) (finish h.env done) e₅)

-- The stores that further calls of `create` and `mutate` make of a store; each call has its own
-- clock, UUID and hook.
pub data Later (s : Store) : Store → Type 0 where
  same_store : Later s s
  then_create :
      (s₀ : Store) (h : Host) (input : CreateInput) → Later s s₀ → Later s (create h s₀ input).0
  then_mutate :
      (s₀ : Store) (h : Host) (id : String) (c : Command)
      → Later s s₀
      → Later s (mutate h s₀ id c).0

Later-Retains : (s s' : Store) → Later s s' → Retains s s'
unfolding create mutate Retains
Later-Retains s s' same_store k r found = found
Later-Retains s s' (then_create s₀ h input l) k r found =
    transact-Retains s₀ (created_in h input) (created_in_receipts h input s₀) h.env.sha256_json
      input.request_id _ k r (Later-Retains s s₀ l k r found)
Later-Retains s s' (then_mutate s₀ h id c l) k r found =
    transact-Retains s₀ (mutated h id c) (mutated_receipts h id c s₀) h.env.sha256_json c.request_id
      _ k r (Later-Retains s s₀ l k r found)

-- After a call with a request id that succeeded, and any further calls of `create` and `mutate`, a
-- call with that id changes nothing: with the same input it gets the first response, with another
-- input a conflict, provided that the two inputs do not have the same hash and a different content.
pub transact_again :
    (sha256_json : Json → String) (before s s' : Store) (k : String) (a b : Json)
    (fn fn' : Store → Result OrderError (Order × Store)) (o : Order)
    → transact sha256_json before (some k) a fn ≡ (s, ok o)
    → Later s s'
    → (sha256_json a ≡ sha256_json b → a ≡ b)
    → ((a ≡ b) × (transact sha256_json s' (some k) b fn' ≡ (s', ok o)))
      ⊎ ((a ≡ b → ⊥) × (transact sha256_json s' (some k) b fn' ≡ (s', err idempotency_conflict)))
unfolding HasReceipt Retains
transact_again sha256_json before s s' k a b fn fn' o h l apart =
    let (good, has) = transact-HasReceipt sha256_json before s k a fn o h in
    let kept = Later-Retains s s' l k (record { digest = sha256_json a; response = o }) has in
    let made =
      transact-keyed sha256_json s' k b fn' good
      ∙ keyed_again s' k (sha256_json a) (sha256_json b) fn' o kept in
    elim (Bool-cases (sha256_json a == sha256_json b)) [
      | inl same ↦
          inl (apart ((eq_iff (sha256_json a) (sha256_json b)).0 same), made ∙ rw (same) refl)
      | inr other ↦ inr (
        λ e.
            true-false
              (sym ((eq_iff (sha256_json a) (sha256_json b)).1 (ap sha256_json e)) ∙ other),
        made ∙ rw (other) refl,
      )
    ]
