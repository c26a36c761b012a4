-- ===== src/Orders/Actions/Freshness.antt =====
-- What the actions of src/orders/store.mjs keep of an order: its identity and version, and that
-- every lease and report in it speaks of its current requirement.
use ai_core.Base.{
  ℕ, ◌+◌, String, not, ◌&&◌, Option, none, some, List, [], ◌∷◌, ◌≡◌, refl, ◌==◌, arith, All, inl,
  inr, Bool-cases, Option-cases, every, length, eqb,
}
use ai_core.Base.Result.{Result, ok, ok-subst, >>=-eq-ok, need-eq-ok}
use ai_core.Orders.Spec.{
  Lease, Report, Task, Order, Action, assign, claim, heartbeat, report, block, revise, reroute,
  note, close, cancel, unknown, Command,
}
use ai_core.Orders.Input.{OrderError, actor, text, lines, routing}
use ai_core.Orders.Runtime.{earlier_reported, same_number, find_task, decide_invalidation}
use ai_core.Orders.Actions.{
  Env, update_task, do_assign, do_claim, do_heartbeat, do_report, do_block, do_revise, do_reroute,
  do_close, do_cancel, perform, with_task, invalidated, without_leases, renewed, new_lease,
  has_live_lease, next_state, verify_lease, lease_revision, state_of, invalidation, is_idle,
  target_of, requirement_of, is_evidenced, checks_of, close_checks,
}

unfoldable pub LeaseOf : ℕ → Option Lease → Type 0
LeaseOf n none = Unit
LeaseOf n (some l) = l.revision ≡ n

unfoldable pub ReportOf : ℕ → Option Report → Type 0
ReportOf n none = Unit
ReportOf n (some r) = r.revision ≡ n

-- The lease and the report of a task speak of requirement revision `n`.
unfoldable pub IsFreshTask : ℕ → Task → Type 0
IsFreshTask n t = LeaseOf n t.lease × ReportOf n t.report

-- Every lease and every report in the order was made for its current requirement revision.
unfoldable pub IsFresh : Order → Type 0
IsFresh o = All (IsFreshTask o.revision) o.tasks

All-update_task :
    (P : Task → Type 0) (id : String) (f : Task → Task) (ts : List Task)
    → ((t : Task) → P t → P (f t))
    → All P ts
    → All P (update_task id f ts)
unfolding update_task
All-update_task P id f [] h a = tt
All-update_task P id f (t ∷ ts) h (x, a) = elim (Bool-cases (t.id == id)) [
  | inl e ↦ rw (e) (h t x, a)
  | inr e ↦ rw (e) (x, All-update_task P id f ts h a)
]

-- What an action that does not fail leaves: the id, the version, and a fresh order.
unfoldable pub Keeps : Order → Order → Type 0
Keeps o o' = (o'.id ≡ o.id) × (o'.version ≡ o.version) × IsFresh o'

updated :
    (o o' : Order) (id : String) (f : Task → Task)
    → IsFresh o
    → ((t : Task) → IsFreshTask o.revision t → IsFreshTask o.revision (f t))
    → ◌≡◌ {A = Result OrderError Order} (ok (record o { tasks = update_task id f o.tasks })) (ok o')
    → Keeps o o'
unfolding Keeps IsFresh
updated o o' id f fresh h e =
    ok-subst (Keeps o) e (refl, refl, All-update_task (IsFreshTask o.revision) id f o.tasks h fresh)

module _ (env : Env) (o : Order) (fresh : IsFresh o) (c : Command) (o' : Order) where
  do_assign-Keeps : (t : Task) → do_assign env o t c ≡ ok o' → Keeps o o'
  unfolding do_assign IsFreshTask LeaseOf
  do_assign-Keeps t h =
      let (_, h₁) = need-eq-ok (not (t.status == "REPORTED")) _ _ h in
      let (_, h₂) = need-eq-ok (not (has_live_lease env t)) _ _ h₁ in
      let (_, _, h₃) = >>=-eq-ok (actor c.actor) _ h₂ in
      let (_, _, h₄) = >>=-eq-ok (text c.reason 2000) _ h₃ in
      let (_, _, h₅) = >>=-eq-ok (next_state env o c) _ h₄ in
      updated o o' t.id _ fresh (λ x (_, r). (tt, r)) h₅

  do_claim-Keeps : (t : Task) → do_claim env o t c ≡ ok o' → Keeps o o'
  unfolding do_claim IsFreshTask LeaseOf new_lease
  do_claim-Keeps t h =
      let (who, _, h₁) = >>=-eq-ok (actor c.actor) _ h in
      let (_, h₂) = need-eq-ok (t.assigned == who) _ _ h₁ in
      let (_, h₃) =
        need-eq-ok (not (t.status == "REPORTED") && not (has_live_lease env t)) _ _ h₂ in
      let (_, h₄) = need-eq-ok (earlier_reported t.id o.tasks) _ _ h₃ in
      let (_, _, h₅) = >>=-eq-ok (next_state env o c) _ h₄ in
      updated o o' t.id _ fresh (λ x (_, r). (refl, r)) h₅

  renewed-LeaseOf : (n : ℕ) (l : Option Lease) → LeaseOf n l → LeaseOf n (renewed env l)
  unfolding LeaseOf renewed
  renewed-LeaseOf n none h = h
  renewed-LeaseOf n (some l) h = h

  do_heartbeat-Keeps : (t : Task) → do_heartbeat env o t c ≡ ok o' → Keeps o o'
  unfolding do_heartbeat IsFreshTask
  do_heartbeat-Keeps t h =
      let (_, _, h₁) = >>=-eq-ok (verify_lease env t c) _ h in
      updated o o' t.id _ fresh (λ x (l, r). (renewed-LeaseOf o.revision x.lease l, r)) h₁

  do_report-Keeps : (t : Task) → do_report env o t c ≡ ok o' → Keeps o o'
  unfolding do_report IsFreshTask LeaseOf ReportOf
  do_report-Keeps t h =
      let (_, _, h₁) = >>=-eq-ok (verify_lease env t c) _ h in
      let (_, h₂) =
        need-eq-ok
          (same_number c.revision o.revision && same_number (lease_revision t.lease) o.revision) _ _
          h₁ in
      let (_, _, h₃) = >>=-eq-ok (text c.summary 10000) _ h₂ in
      let (_, _, h₄) = >>=-eq-ok (lines c.evidence) _ h₃ in
      let (_, _, h₅) = >>=-eq-ok (next_state env o c) _ h₄ in
      updated o o' t.id _ fresh (λ x _. (tt, refl)) h₅

  do_block-Keeps : (t : Task) → do_block env o t c ≡ ok o' → Keeps o o'
  unfolding do_block IsFreshTask LeaseOf
  do_block-Keeps t h =
      let (_, _, h₁) = >>=-eq-ok (verify_lease env t c) _ h in
      let (_, _, h₂) = >>=-eq-ok (text c.reason 2000) _ h₁ in
      let (_, _, h₃) = >>=-eq-ok (next_state env o c) _ h₂ in
      updated o o' t.id _ fresh (λ x (_, r). (tt, r)) h₃

  invalidated-Fresh :
      (reason : String) (n : ℕ) (ts ts' : List Task)
      → invalidated env o c reason ts ≡ ok ts'
      → All (IsFreshTask n) ts'
  unfolding invalidated IsFreshTask LeaseOf ReportOf
  invalidated-Fresh reason n [] ts' h = ok-subst (All (IsFreshTask n)) h tt
  invalidated-Fresh reason n (t ∷ ts) ts' h =
      let (_, _, h₁) =
        >>=-eq-ok
          (state_of
            (decide_invalidation env.sha256_json env.now env.stamp o t (invalidation c reason t)))
          _ h in
      let (rest, e, h₂) = >>=-eq-ok (invalidated env o c reason ts) _ h₁ in
      ok-subst (All (IsFreshTask n)) h₂ ((tt, tt), invalidated-Fresh reason n ts rest e)

  do_revise-Keeps : do_revise env o c ≡ ok o' → Keeps o o'
  unfolding do_revise Keeps IsFresh
  do_revise-Keeps h =
      let (_, _, h₁) = >>=-eq-ok (text c.intent 10000) _ h in
      let (_, _, h₂) = >>=-eq-ok (lines c.criteria) _ h₁ in
      let (reason, _, h₃) = >>=-eq-ok (text c.reason 2000) _ h₂ in
      let (ts, e, h₄) = >>=-eq-ok (invalidated env o c reason o.tasks) _ h₃ in
      ok-subst (Keeps o) h₄ (refl, refl, invalidated-Fresh reason (o.revision + 1) o.tasks ts e)

  do_reroute-Keeps : do_reroute env o c ≡ ok o' → Keeps o o'
  unfolding do_reroute Keeps IsFresh
  do_reroute-Keeps h =
      let (_, h₁) = need-eq-ok (every is_idle o.tasks) _ _ h in
      let (_, h₂) = need-eq-ok (not (env.bound o.id o.revision)) _ _ h₁ in
      let (project, _, h₃) = >>=-eq-ok (text (target_of c.routing) 300) _ h₂ in
      let (next, _, h₄) = >>=-eq-ok (routing c.routing project) _ h₃ in
      let (_, h₅) = need-eq-ok (same_number (requirement_of next) o.revision) _ _ h₄ in
      ok-subst (Keeps o) h₅ (refl, refl, fresh)

  do_close-Keeps : do_close env o c ≡ ok o' → Keeps o o'
  unfolding do_close Keeps IsFresh
  do_close-Keeps h =
      let (_, h₁) = need-eq-ok (every (is_evidenced o.revision) o.tasks) _ _ h in
      let (_, h₂) = need-eq-ok (c.confirmed && same_number c.revision o.revision) _ _ h₁ in
      let (given, _, h₃) = >>=-eq-ok (checks_of c.checks) _ h₂ in
      let (_, h₄) = need-eq-ok (eqb (length given) (length o.criteria)) _ _ h₃ in
      let (_, _, h₅) = >>=-eq-ok (close_checks o.tasks 0 o.criteria given) _ h₄ in
      let (_, _, h₆) = >>=-eq-ok (text c.note 10000) _ h₅ in
      ok-subst (Keeps o) h₆ (refl, refl, fresh)

  without_leases-Fresh :
      (n : ℕ) (ts : List Task) → All (IsFreshTask n) ts → All (IsFreshTask n) (without_leases ts)
  unfolding without_leases IsFreshTask LeaseOf
  without_leases-Fresh n [] h = tt
  without_leases-Fresh n (t ∷ ts) ((_, r), h) = ((tt, r), without_leases-Fresh n ts h)

  do_cancel-Keeps : do_cancel o c ≡ ok o' → Keeps o o'
  unfolding do_cancel Keeps IsFresh
  do_cancel-Keeps h =
      let (_, _, h₁) = >>=-eq-ok (text c.reason 2000) _ h in
      ok-subst (Keeps o) h₁ (refl, refl, without_leases-Fresh o.revision o.tasks fresh)

  with_task-Keeps :
      (f : Task → Result OrderError Order)
      → ((t : Task) → f t ≡ ok o' → Keeps o o')
      → with_task o c f ≡ ok o'
      → Keeps o o'
  unfolding with_task
  with_task-Keeps f h e = elim (Option-cases (find_task c.task_id o.tasks)) [
    | inl n ↦ absurd (ground arith)
    | inr (t, n) ↦ h t (ground arith)
  ]

  -- An action that succeeds keeps the order's id and version, and an order whose leases and reports
  -- all speak of its current requirement revision stays one, also when the requirement is revised.
  pub perform-Keeps : (a : Action) → perform a env o c ≡ ok o' → Keeps o o'
  unfolding perform Keeps
  perform-Keeps assign h = with_task-Keeps _ do_assign-Keeps h
  perform-Keeps claim h = with_task-Keeps _ do_claim-Keeps h
  perform-Keeps heartbeat h = with_task-Keeps _ do_heartbeat-Keeps h
  perform-Keeps report h = with_task-Keeps _ do_report-Keeps h
  perform-Keeps block h = with_task-Keeps _ do_block-Keeps h
  perform-Keeps revise h = do_revise-Keeps h
  perform-Keeps reroute h = do_reroute-Keeps h
  perform-Keeps note h =
      let (_, _, h₁) = >>=-eq-ok (text c.note 10000) _ h in
      ok-subst (Keeps o) h₁ (refl, refl, fresh)
  perform-Keeps close h = do_close-Keeps h
  perform-Keeps cancel h = do_cancel-Keeps h
  perform-Keeps (unknown s) h = absurd (cc)
