-- ===== src/Orders/Examples.antt =====
-- A concrete order in the store of src/orders/store.mjs: created, and its first task claimed.
use ai_core.Base.{is_content, false, none, some, [], ◌∷◌, ◌≡◌, refl, ◌⊎◌}
use ai_core.Base.Result.{Result, ok, err}
use ai_core.Json.{obj, end}
use ai_core.Workflow.Decide.{decide}
use ai_core.Orders.Spec.{Order, claim, heartbeat, note, Command}
use ai_core.Orders.Input.{
  OrderError, stale_version, idempotency_conflict, text, routing, lines, actor,
}
use ai_core.Workflow.Inspect.{inspect_transition}
use ai_core.Orders.Actions.{perform}
use ai_core.Orders.Actions.Freshness.{Keeps, perform-Keeps}
use ai_core.Orders.Store.{Store, Host, CreateInput, transact, create, created_in, mutate, mutated}
use ai_core.Orders.Store.Idempotency.{Later, same_store, then_mutate, transact_again}
use ai_core.Orders.Store.Soundness.{
  IsSound, IsChange, mutated-IsChange, mutated_stale, Reachable, start, by_create, by_mutate,
  Reachable-IsSound,
}

abbrev host : Host
host = record {
  env = record {
    now = 1000;
    lease_ms = 500;
    uuid = "1";
    stamp = record { now = "2026-01-01"; event_id = "E1"; audit_id = "A1" };
    sha256_json = λ _. "hash";
    bound = λ _ _. false;
  };
  on_requirement_saved = none;
}

abbrev input : CreateInput
input = record {
  request_id = some "K1";
  title = some "Report";
  intent = some "Write the report";
  project = some "P1";
  kind = "general";
  criteria = some ("complete" ∷ []);
  source = some "mail";
  routing = none;
  document = obj end;
}

abbrev initial : Order
initial = record {
  id = "ORD-1";
  title = "Report";
  intent = "Write the report";
  project = "P1";
  kind = "general";
  criteria = "complete" ∷ [];
  source = "mail";
  routing = none;
  revision = 1;
  version = 1;
  status = "NEW";
  created_at = 1000;
  updated_at = 1000;
  tasks =
      record {
        id = "T1";
        role = "execute";
        title = "처리와 결과 확인";
        assigned = "codex";
        status = "PENDING";
        attempt = 0;
        lease = none;
        report = none;
        blocked_reason = none;
      }
      ∷ [];
  closure = none;
}

abbrev claim_task : Command
claim_task = record {
  request_id = some "K2";
  version = some 1;
  action = claim;
  task_id = some "T1";
  actor = some "codex";
  token = none;
  reason = none;
  revision = none;
  summary = none;
  evidence = none;
  intent = none;
  criteria = none;
  note = none;
  routing = none;
  confirmed = false;
  checks = none;
  document = obj end;
}

abbrev take_note : Command
take_note = record claim_task { request_id = some "K3"; action = note; note = some "see mail" }

abbrev empty : Store
empty = record { orders = []; events = []; receipts = [] }

-- The store after the order was created.
stored : Store
unfolding create
stored = (create host empty input).0

outcome : Order × Store → Result OrderError (Order × Store) → Order × Store
outcome before (ok r) = r
outcome before (err e) = before

ordered : Order → Result OrderError Order → Order
ordered before (ok o) = o
ordered before (err e) = before

claimed : Order × Store
unfolding mutated outcome stored
claimed = outcome (initial, stored) (mutated host "ORD-1" claim_task stored)

stored-Reachable : Reachable stored
unfolding stored
stored-Reachable = by_create empty host input start

stored-IsSound : IsSound stored.orders
stored-IsSound = Reachable-IsSound stored stored-Reachable

claim_runs : mutated host "ORD-1" claim_task stored ≡ ok claimed
unfolding claimed outcome mutated stored create text is_content routing lines actor decide
    inspect_transition
claim_runs = refl

Reachable-IsSound_example : IsSound (mutate host stored "ORD-1" claim_task).0.orders
Reachable-IsSound_example =
    Reachable-IsSound (mutate host stored "ORD-1" claim_task).0
      (by_mutate stored host "ORD-1" claim_task stored-Reachable)

mutated-IsChange_example : IsChange host "ORD-1" claim_task stored claimed.0 claimed.1
mutated-IsChange_example =
    mutated-IsChange host "ORD-1" claim_task stored stored-IsSound claimed.0 claimed.1 claim_runs

mutated_stale_example : mutated host "ORD-1" take_note claimed.1 ≡ err stale_version
mutated_stale_example =
    mutated_stale host "ORD-1" claim_task stored stored-IsSound host take_note claimed.0 claimed.1
      claim_runs refl

creation_runs :
    transact host.env.sha256_json empty (some "K1") input.document (created_in host input)
    ≡ (stored, ok initial)
unfolding transact created_in stored create text is_content routing lines actor
creation_runs = refl

-- A call between the two takes the task of the order.
claimed-Later : Later stored (mutate host stored "ORD-1" claim_task).0
claimed-Later = then_mutate stored host "ORD-1" claim_task same_store

transact_again_example :
    ((obj end ≡ obj end)
      × (transact host.env.sha256_json
            (mutate host stored "ORD-1" claim_task).0
            (some "K1")
            (obj end)
            (created_in host input)
          ≡ ((mutate host stored "ORD-1" claim_task).0, ok initial)))
    ⊎ ((obj end ≡ obj end → ⊥)
        × (transact host.env.sha256_json
              (mutate host stored "ORD-1" claim_task).0
              (some "K1")
              (obj end)
              (created_in host input)
            ≡ ((mutate host stored "ORD-1" claim_task).0, err idempotency_conflict)))
transact_again_example =
    transact_again host.env.sha256_json empty stored (mutate host stored "ORD-1" claim_task).0 "K1"
      input.document input.document (created_in host input) (created_in host input) initial
      creation_runs claimed-Later (λ _. refl)

abbrev beat : Command
beat = record claim_task { request_id = some "K4"; action = heartbeat; token = some "1" }

beaten : Order
unfolding perform claimed mutated outcome stored create
beaten = ordered claimed.0 (perform heartbeat host.env claimed.0 beat)

beat_runs : perform heartbeat host.env claimed.0 beat ≡ ok beaten
unfolding perform claimed mutated outcome stored create beaten ordered text is_content routing lines
    actor decide inspect_transition
beat_runs = refl

-- The order whose task is taken, before and after its holder renews the lease.
perform-Keeps_example : Keeps claimed.0 beaten
perform-Keeps_example =
    perform-Keeps host.env claimed.0 mutated-IsChange_example.fresh beat beaten heartbeat beat_runs
