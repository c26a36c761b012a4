-- ===== src/Orders/Store/Soundness.antt =====
-- What the tables of src/orders/store.mjs satisfy after any sequence of calls.
use ai_core.Base.{
  ℕ, ◌+◌, String, true, false, not, Option, none, some, List, [], ◌≡◌, ap, refl, sym, ◌∙◌, subst,
  ◌==◌, arith, All, inl, inr, Bool-cases, Option-cases, eq_iff, eqb_iff,
}
use ai_core.Base.Result.{Result, ok, err, ok-subst, >>=-eq-ok, need-eq-ok, Result-cases}
use ai_core.Base.Table
use ai_core.Base.Table.{Table, get-put}
use ai_core.Json.{Json}
use ai_core.Orders.Spec.{Order, Task, Command}
use ai_core.Orders.Input.{OrderError, stale_version, text, routing, lines}
use ai_core.Orders.Runtime.{is_terminal, same_number}
use ai_core.Orders.Actions.{Env, perform, finish}
use ai_core.Orders.Actions.Freshness.{IsFresh, IsFreshTask, LeaseOf, ReportOf, Keeps, perform-Keeps}
use ai_core.Orders.Store.{
  Store, Host, EventKind, created, changed, Receipt, CreateInput, transact, keyed, finished,
  committed, replayed, mutate, create, mutated, created_in, save, call_hook, get, new_order, plan,
  planned,
}

-- Every order in the table stands under its own id, and its leases and reports speak of its current
-- requirement revision.
pub IsSound : Table Order → Type 0
IsSound orders = (k : String) (o : Order) → Table.get k orders ≡ some o → (o.id ≡ k) × IsFresh o

put-IsSound :
    (orders : Table Order) (o : Order)
    → IsSound orders
    → IsFresh o
    → IsSound (Table.put o.id o orders)
unfolding IsSound
put-IsSound orders o sound fresh k o' e = elim (Bool-cases (o.id == k)) [
  | inl same ↦
      (let p : some o ≡ some o' = ground (arith, get-put o.id k o orders) in
        let q : o ≡ o' = cc in
        subst (λ (x : Order). (x.id ≡ k) × IsFresh x) q ((eq_iff o.id k).0 same, fresh))
  | inr other ↦ sound k o' (ground (arith, get-put o.id k o orders))
]

save_orders :
    (h : Host) (s s' : Store) (kind : EventKind) (o : Order)
    → save h s kind o ≡ ok s'
    → s'.orders ≡ Table.put o.id o s.orders
unfolding save
save_orders h s s' kind o e =
    let (_, _, e₁) = >>=-eq-ok (call_hook h kind o) _ e in
    ok-subst (λ (x : Store). x.orders ≡ Table.put o.id o s.orders) e₁ refl

-- What a change of an order that succeeds has found and left.
pub record IsChange (h : Host) (id : String) (c : Command) (s : Store) (o' : Order) (s' : Store)
    : Type 0 where
  pub before : Order
  pub found : Table.get id s.orders ≡ some before
  pub expected : c.version ≡ some before.version
  pub live : is_terminal before.status ≡ false
  pub same_id : o'.id ≡ before.id
  pub next_version : o'.version ≡ before.version + 1
  pub fresh : IsFresh o'
  pub saved : s'.orders ≡ Table.put o'.id o' s.orders

number_eq : (o : Option ℕ) (n : ℕ) → same_number o n ≡ true → o ≡ some n
unfolding same_number
number_eq none n h = absurd (cc)
number_eq (some m) n h = ap some ((eqb_iff m n).0 h)

get_eq : (s : Store) (id : String) (o : Order) → get s id ≡ ok o → Table.get id s.orders ≡ some o
unfolding get
get_eq s id o h = elim (Option-cases (Table.get id s.orders)) [
  | inl n ↦ absurd (ground arith)
  | inr (x, n) ↦ ground arith
]

finish-IsFresh : (env : Env) (o : Order) → IsFresh o → IsFresh (finish env o)
unfolding finish IsFresh
finish-IsFresh env o h = h

get-some : (s : Store) (id : String) (o : Order) → Table.get id s.orders ≡ some o → get s id ≡ ok o
unfolding get
get-some s id o h = rw (h, get) refl

not_same :
    (given : Option ℕ) (old new : ℕ)
    → given ≡ some old
    → new ≡ old + 1
    → same_number given new ≡ false
unfolding same_number
not_same given old new g n = rw (g) (ground arith)

refused_stale :
    (h : Host) (id : String) (c : Command) (s : Store) (o : Order)
    → get s id ≡ ok o
    → same_number c.version o.version ≡ false
    → mutated h id c s ≡ err stale_version
unfolding mutated
refused_stale h id c s o e n = rw (e, n) refl

module _ (h : Host) (id : String) (c : Command) (s : Store) (sound : IsSound s.orders) where
  -- From a table in which each order stands under its own id and is fresh, a change that succeeds
  -- was asked for the version that the order had, on an order that was not terminal; the order keeps
  -- its id, its version goes up by one, it stays fresh, and it is what the table holds.
  pub mutated-IsChange :
      (o' : Order) (s' : Store) → mutated h id c s ≡ ok (o', s') → IsChange h id c s o' s'
  unfolding mutated IsSound Keeps
  mutated-IsChange o' s' e =
      let (o, got, e₁) = >>=-eq-ok (get s id) _ e in
      let (version, e₂) = need-eq-ok (same_number c.version o.version) _ _ e₁ in
      let (open_, e₃) = need-eq-ok (not (is_terminal o.status)) _ _ e₂ in
      let (done, performed, e₄) = >>=-eq-ok (perform c.action h.env o c) _ e₃ in
      let (saved, e₅, e₆) = >>=-eq-ok (save h s (changed c.action) (finish h.env done)) _ e₄ in
      let found = get_eq s id o got in
      let (kept, same, fresh) =
        perform-Keeps h.env o (sound id o found).1 c done c.action performed in
      ok-subst (λ (x : Order × Store). IsChange h id c s x.0 x.1) e₆
        (record {
          before = o;
          found = found;
          expected = number_eq c.version o.version version;
          live = ground arith;
          same_id = kept;
          next_version = ap (λ n. n + 1) same;
          fresh = finish-IsFresh h.env done fresh;
          saved = save_orders h s saved (changed c.action) (finish h.env done) e₅;
        })

  -- From a table in which each order stands under its own id and is fresh, after a change that
  -- succeeded, every other change of the order that expects the same version fails as stale, whatever
  -- its action and its clock.
  pub mutated_stale :
      (h' : Host) (c' : Command) (o' : Order) (s' : Store)
      → mutated h id c s ≡ ok (o', s')
      → c'.version ≡ c.version
      → mutated h' id c' s' ≡ err stale_version
  unfolding IsSound
  mutated_stale h' c' o' s' e same =
      let m = mutated-IsChange o' s' e in
      let at_id = m.same_id ∙ (sound id m.before m.found).0 in
      let found : Table.get id s'.orders ≡ some o' =
        ap (Table.get id) m.saved ∙ ground (arith, get-put o'.id id o' s.orders, eq_iff o'.id id) in
      refused_stale h' id c' s' o' (get-some s' id o' found)
        (not_same c'.version m.before.version o'.version (same ∙ m.expected) m.next_version)

  mutated-IsSound : (o' : Order) (s' : Store) → mutated h id c s ≡ ok (o', s') → IsSound s'.orders
  mutated-IsSound o' s' e =
      let m = mutated-IsChange o' s' e in
      subst IsSound (sym m.saved) (put-IsSound s.orders o' sound m.fresh)

PlanFresh : ℕ → Option (List Task) → Type 0
PlanFresh n none = Unit
PlanFresh n (some ts) = All (IsFreshTask n) ts

abbrev three :
    ((Unit {0} × Unit {0}) × ((Unit {0} × Unit {0}) × ((Unit {0} × Unit {0}) × Unit {0})))
three = ((tt, tt), ((tt, tt), ((tt, tt), tt)))

plan-Fresh : (kind : String) (n : ℕ) → PlanFresh n (plan kind)
unfolding plan PlanFresh IsFreshTask LeaseOf ReportOf
plan-Fresh kind n = elim (Bool-cases (kind == "development")) [
  | inl e ↦ rw (e) three
  | inr e ↦ elim (Bool-cases (kind == "document")) [
    | inl f ↦ rw (e, f) three
    | inr f ↦ elim (Bool-cases (kind == "analysis")) [
      | inl g ↦ rw (e, f, g) three
      | inr g ↦ elim (Bool-cases (kind == "general")) [
        | inl k ↦ rw (e, f, g, k) ((tt, tt), tt)
        | inr k ↦ rw (e, f, g, k) tt
      ]
    ]
  ]
]

planned-Fresh :
    (o : Option (List Task)) (n : ℕ) (ts : List Task)
    → PlanFresh n o
    → planned o ≡ ok ts
    → All (IsFreshTask n) ts
unfolding planned PlanFresh
planned-Fresh none n ts f h = absurd (cc)
planned-Fresh (some us) n ts f h = ok-subst (All (IsFreshTask n)) h f

module _ (h : Host) (input : CreateInput) (s : Store) (sound : IsSound s.orders) where
  new_order-Fresh : (o : Order) → new_order h.env input ≡ ok o → IsFresh o
  unfolding new_order IsFresh
  new_order-Fresh o e =
      let (ts, tasks, e₁) = >>=-eq-ok (planned (plan input.kind)) _ e in
      let (project, _, e₂) = >>=-eq-ok (text input.project 300) _ e₁ in
      let (_, _, e₃) = >>=-eq-ok (routing input.routing project) _ e₂ in
      let (_, _, e₄) = >>=-eq-ok (text input.title 200) _ e₃ in
      let (_, _, e₅) = >>=-eq-ok (text input.intent 10000) _ e₄ in
      let (_, _, e₆) = >>=-eq-ok (lines input.criteria) _ e₅ in
      let (_, _, e₇) = >>=-eq-ok (text input.source 1000) _ e₆ in
      ok-subst IsFresh e₇ (planned-Fresh (plan input.kind) 1 ts (plan-Fresh input.kind 1) tasks)

  created_in-IsSound :
      (o : Order) (s' : Store) → created_in h input s ≡ ok (o, s') → IsSound s'.orders
  unfolding created_in
  created_in-IsSound o s' e =
      let (made, new, e₁) = >>=-eq-ok (new_order h.env input) _ e in
      let (saved, e₂, e₃) = >>=-eq-ok (save h s created made) _ e₁ in
      ok-subst (λ (x : Order × Store). IsSound x.1.orders) e₃
        (subst IsSound (sym (save_orders h s saved created made e₂))
          (put-IsSound s.orders made sound (new_order-Fresh made new)))

module _ (s : Store) (sound : IsSound s.orders) (fn : Store → Result OrderError (Order × Store))
    (keeps : (o : Order) (s' : Store) → fn s ≡ ok (o, s') → IsSound s'.orders) where
  finished-IsSound :
      (k hash : String) (r : Result OrderError (Order × Store))
      → fn s ≡ r
      → IsSound (finished s k hash r).0.orders
  unfolding finished committed
  finished-IsSound k hash (ok (o, s')) e = keeps o s' e
  finished-IsSound k hash (err x) e = sound

  replayed-IsSound : (hash : String) (r : Receipt) → IsSound (replayed s hash r).0.orders
  unfolding replayed
  replayed-IsSound hash r = elim (Bool-cases (r.digest == hash)) [
    | inl e ↦ rw (e) sound
    | inr e ↦ rw (e) sound
  ]

  keyed-IsSound : (k hash : String) → IsSound (keyed s k hash fn).0.orders
  unfolding keyed
  keyed-IsSound k hash = elim (Option-cases (Table.get k s.receipts)) [
    | inl e ↦ rw (e, keyed) (finished-IsSound k hash (fn s) refl)
    | inr (r, e) ↦ rw (e, keyed) (replayed-IsSound hash r)
  ]

  transact-IsSound :
      (sha256_json : Json → String) (key : Option String) (input : Json)
      → IsSound (transact sha256_json s key input fn).0.orders
  unfolding transact
  transact-IsSound sha256_json none input = elim (Result-cases (text none 200)) [
    | inl (a, e) ↦ rw (e, transact) sound
    | inr (x, e) ↦ rw (e, transact) sound
  ]
  transact-IsSound sha256_json (some k) input = elim (Result-cases (text (some k) 200)) [
    | inl (a, e) ↦ rw (e, transact) (keyed-IsSound k (sha256_json input))
    | inr (x, e) ↦ rw (e, transact) sound
  ]

-- The stores that calls of `create` and `mutate` reach from empty tables; each call has its own
-- clock, UUID and hook.
pub data Reachable : Store → Type 0 where
  start : Reachable (record { orders = []; events = []; receipts = [] })
  by_create :
      (s : Store) (h : Host) (input : CreateInput) → Reachable s → Reachable (create h s input).0
  by_mutate :
      (s : Store) (h : Host) (id : String) (c : Command)
      → Reachable s
      → Reachable (mutate h s id c).0

-- In every store that calls reach, each order stands under its own id, and each lease and report in
-- it was made for its current requirement revision.
pub Reachable-IsSound : (s : Store) → Reachable s → IsSound s.orders
unfolding create mutate IsSound Table.get
Reachable-IsSound s start = λ k o e. absurd (cc)
Reachable-IsSound s (by_create s₀ h input r) =
    let sound = Reachable-IsSound s₀ r in
    transact-IsSound s₀ sound (created_in h input) (created_in-IsSound h input s₀ sound)
      h.env.sha256_json input.request_id _
Reachable-IsSound s (by_mutate s₀ h id c r) =
    let sound = Reachable-IsSound s₀ r in
    transact-IsSound s₀ sound (mutated h id c) (mutated-IsSound h id c s₀ sound) h.env.sha256_json
      c.request_id _
