-- ===== src/Orders/Store.antt =====
-- `OrderStore` of src/orders/store.mjs over its three tables. `BEGIN … COMMIT` with `ROLLBACK` on a
-- throw: a call that throws leaves the tables as they were. The `detail` of an event is not kept.
pub mod Idempotency
pub mod Soundness
use Prim.Native.String
use ai_core.Base.{
  ℕ, ◌+◌, String, Bool, true, false, not, ◌&&◌, Option, none, some, List, [], ◌∷◌, ◌++◌, ◌==◌, keep,
  map, if◌then◌else◌,
}
use ai_core.Base.Result.{Result, ok, err, need, ◌>>=◌, ◌>>◌}
use ai_core.Base.Table
use ai_core.Base.Table.{Table}
use ai_core.Json.{Json, str, obj, field}
use ai_core.Orders.Spec.{Task, Routing, Order, Action, revise, Command}
use ai_core.Orders.Input.{
  OrderError, invalid_kind, not_found, idempotency_conflict, stale_version, terminal_order,
  async_requirement_hook_denied, requirement_hook_failed, text, lines, routing,
}
use ai_core.Orders.Runtime.{is_terminal, same_number}
use ai_core.Orders.Actions.{Env, perform, finish}

pub data EventKind : Type 0 where
  created : EventKind
  changed : Action → EventKind

pub record OrderEvent : Type 0 where
  pub order_id : String
  pub kind : EventKind
  pub version : ℕ
  pub revision : ℕ
  pub at : ℕ

pub record Receipt : Type 0 where
  pub digest : String
  pub response : Order

pub record Store : Type 0 where
  pub orders : Table Order
  pub events : List OrderEvent
  pub receipts : Table Receipt

-- What the optional hook `onRequirementSaved` does when it is called.
pub data HookResult : Type 0 where
  synchronous asynchronous throws : HookResult

pub record Host : Type 0 where
  pub env : Env
  pub on_requirement_saved : Option (Order → HookResult)

pub record CreateInput : Type 0 where
  pub request_id : Option String
  pub title : Option String
  pub intent : Option String
  pub project : Option String
  pub kind : String
  pub criteria : Option (List String)
  pub source : Option String
  pub routing : Option Routing
  pub document : Json  -- { action: 'create', ...input }

is_requirement : EventKind → Bool
is_requirement created = true
is_requirement (changed revise) = true
is_requirement _ = false

hook_outcome : HookResult → Result OrderError (Unit {0})
hook_outcome synchronous = ok tt
hook_outcome asynchronous = err async_requirement_hook_denied
hook_outcome throws = err requirement_hook_failed

call_hook : Host → EventKind → Order → Result OrderError (Unit {0})
unfolding hook_outcome is_requirement
call_hook h kind o = elim h.on_requirement_saved [
  | none ↦ ok tt
  | some hook ↦ if is_requirement kind then hook_outcome (hook o) else ok tt
]

-- `save`; the order has its new `updatedAt` already.
unfoldable pub save : Host → Store → EventKind → Order → Result OrderError Store
unfolding call_hook Table.put
save h s kind o = do
  call_hook h kind o
  ok (record s {
    orders = Table.put o.id o s.orders;
    events =
        s.events
        ++ record {
          order_id = o.id;
          kind = kind;
          version = o.version;
          revision = o.revision;
          at = o.updated_at;
        }
          ∷ [];
  })

-- `get`
unfoldable pub get : Store → String → Result OrderError Order
unfolding Table.get
get s id = elim (Table.get id s.orders) [ none ↦ err not_found | some o ↦ ok o ]

-- `events`
unfoldable pub events : Store → String → Result OrderError (List OrderEvent)
unfolding get
events s id = do get s id; ok (keep (λ (e : OrderEvent). e.order_id == id) s.events)

-- The insertion of the receipt, and the commit.
committed : String → String → Order × Store → Store × Result OrderError Order
committed key hash (o, s) = (
  record s { receipts = Table.put key (record { digest = hash; response = o }) s.receipts },
  ok o,
)

finished :
    Store → String → String → Result OrderError (Order × Store) → Store × Result OrderError Order
unfolding committed
finished before key hash (ok r) = committed key hash r
finished before key hash (err e) = (before, err e)

replayed : Store → String → Receipt → Store × Result OrderError Order
replayed s hash r = if r.digest == hash then (s, ok r.response) else (s, err idempotency_conflict)

keyed :
    Store
    → String
    → String
    → (Store → Result OrderError (Order × Store))
    → Store × Result OrderError Order
unfolding finished replayed Table.get Table.put
keyed s key hash fn = elim (Table.get key s.receipts) [
  | some r ↦ replayed s hash r
  | none ↦ finished s key hash (fn s)
]

-- `transact`: a request id that was used before gets its first response, or a conflict if the input
-- is another one.
unfoldable pub transact :
    (Json → String)
    → Store
    → Option String
    → (input : Json) → (Store → Result OrderError (Order × Store))
    → Store × Result OrderError Order
unfolding keyed
transact sha256_json s key input fn = elim (text key 200) [
  | err e ↦ (s, err e)
  | ok _ ↦ elim key [ none ↦ (s, err not_found) | some k ↦ keyed s k (sha256_json input) fn ]
]

abbrev task : String → String → String → String → Task
task id role title assigned = record {
  id = id;
  role = role;
  title = title;
  assigned = assigned;
  status = "PENDING";
  attempt = 0;
  lease = none;
  report = none;
  blocked_reason = none;
}

-- `plans`
unfoldable pub plan : String → Option (List Task)
plan kind =
    if kind == "development"
    then some (
        task "T1" "design" "설계와 완료 조건" "claude"
        ∷ task "T2" "execute" "구현과 검증" "codex"
        ∷ task "T3" "review" "코드 독립 검토" "codex"
        ∷ [])
    else if kind == "document"
    then some (
        task "T1" "analyze" "자료 분석" "gemini"
        ∷ task "T2" "design" "논리와 문안 검토" "claude"
        ∷ task "T3" "execute" "결과물 제작과 확인" "codex"
        ∷ [])
    else if kind == "analysis"
    then some (
        task "T1" "analyze" "자료 분석" "gemini"
        ∷ task "T2" "review" "논리와 반례 검토" "claude"
        ∷ task "T3" "execute" "근거 대조와 결과 정리" "codex"
        ∷ [])
    else if kind == "general"
    then some (task "T1" "execute" "처리와 결과 확인" "codex" ∷ [])
    else none

planned : Option (List Task) → Result OrderError (List Task)
planned none = err invalid_kind
planned (some ts) = ok ts

-- The order that `create` makes.
unfoldable pub new_order : Env → CreateInput → Result OrderError Order
unfolding planned plan
new_order env input = do
  tasks ← planned (plan input.kind)
  project ← text input.project 300
  route ← routing input.routing project
  title ← text input.title 200
  intent ← text input.intent 10000
  criteria ← lines input.criteria
  source ← text input.source 1000
  ok (record {
    id = String.◌++◌ "ORD-" env.uuid;
    title = title;
    intent = intent;
    project = project;
    kind = input.kind;
    criteria = criteria;
    source = source;
    routing = route;
    revision = 1;
    version = 1;
    status = "NEW";
    created_at = env.now;
    updated_at = env.now;
    tasks = tasks;
    closure = none;
  })

unfoldable pub created_in : Host → CreateInput → Store → Result OrderError (Order × Store)
unfolding new_order save
created_in h input s = do o ← new_order h.env input; s' ← save h s created o; ok (o, s')

-- `create`
unfoldable pub create : Host → Store → CreateInput → Store × Result OrderError Order
unfolding created_in transact
create h s input = transact h.env.sha256_json s input.request_id input.document (created_in h input)

-- The body of `mutate`: the checks on the order, the action, and the save.
unfoldable pub mutated : Host → String → Command → Store → Result OrderError (Order × Store)
unfolding get perform finish save
mutated h id c s = do
  o ← get s id
  need (same_number c.version o.version) stale_version
  need (not (is_terminal o.status)) terminal_order
  o' ← perform c.action h.env o c
  s' ← save h s (changed c.action) (finish h.env o')
  ok (finish h.env o', s')

-- `{ id, ...command }`
with_id : String → Json → Json
with_id id (obj fs) = obj (field "id" (str id) fs)
with_id id v = v

-- `mutate`
unfoldable pub mutate : Host → Store → String → Command → Store × Result OrderError Order
unfolding mutated transact with_id
mutate h s id c = transact h.env.sha256_json s c.request_id (with_id id c.document) (mutated h id c)
