-- ===== src/Orders/Actions.antt =====
-- The actions of `OrderStore.mutate` in src/orders/store.mjs, on one order.
pub mod Freshness
use Prim.Native.String
use ai_core.Base.{
  ℕ, zero, suc, ◌+◌, String, Bool, true, false, not, ◌&&◌, ◌||◌, Option, none, some, List, [], ◌∷◌,
  ◌==◌, every, is_empty, length, ltb, eqb, same_text, is_some, if◌then◌else◌,
}
use ai_core.Base.Result.{Result, ok, err, need, ◌>>=◌, ◌>>◌}
use ai_core.Base.Table
use ai_core.Json.{Json, null, num, str, obj, field, end}
use ai_core.Workflow.Decide.{Decision, Stamp}
use ai_core.Workflow.Inspect.{Thrown}
use ai_core.Orders.Spec.{
  Lease, Report, Task, Routing, ClosureCheck, Closure, Order, Action, assign, claim, heartbeat,
  report, block, revise, reroute, note, close, cancel, unknown, Check, Command,
}
use ai_core.Orders.Input.{
  OrderError, stale_lease, already_reported, active_lease, wrong_actor, dependency_pending,
  stale_evidence, task_workflow_rejected, routing_requires_idle_order,
  routing_requires_unbound_requirement, routing_requirement_stale, evidence_required,
  confirmation_required, criteria_coverage_required, unknown_action, workflow_failed,
  task_not_found, invalid_input, text, lines, actor, routing,
}
use ai_core.Orders.Runtime as Runtime
use ai_core.Orders.Runtime.{
  TaskData, Verdict, eligible, earlier_reported, find_task, same_number, token_matches,
  decide_command, decide_invalidation, derive_status,
}

-- What a call of the store reads from outside: the clock, the lease time, a fresh UUID, the stamp
-- of the workflow engine, the hash, and whether a requirement is bound in `coordination_bindings`.
pub record Env : Type 0 where
  pub now : ℕ
  pub lease_ms : ℕ
  pub uuid : String
  pub stamp : Stamp
  pub sha256_json : Json → String
  pub bound : String → ℕ → Bool

-- `Object.assign` of one task: the first task with the id is replaced.
unfoldable pub update_task : String → (Task → Task) → List Task → List Task
update_task id f [] = []
update_task id f (t ∷ ts) = if t.id == id then f t ∷ ts else t ∷ update_task id f ts

lifecycle_state : Decision TaskData → String
lifecycle_state d = elim (Table.get "lifecycle" d.next_projection.states) [ none ↦ "" | some s ↦ s ]

-- `need(transition.eligible, 'TASK_WORKFLOW_REJECTED')`, and the state that the workflow gives
unfoldable pub state_of : Result Thrown Verdict → Result OrderError String
unfolding lifecycle_state
state_of (ok (eligible d)) = ok (lifecycle_state d)
state_of (ok _) = err task_workflow_rejected
state_of (err e) = err workflow_failed

has_live_lease : Env → Task → Bool
has_live_lease env t = Runtime.active_lease t.lease env.now

-- `verifyLease`
unfoldable pub verify_lease : Env → Task → Command → Result OrderError String
unfolding has_live_lease
verify_lease env t c = do
  need
      (t.status == "RUNNING"
        && has_live_lease env t
        && token_matches t.lease c.token
        && same_text (some t.assigned) c.actor)
      stale_lease
  actor c.actor

is_idle : Task → Bool
is_idle t = t.status == "PENDING" && not (is_some t.lease) && not (is_some t.report)

-- The state that the task workflow gives for the command.
next_state : Env → Order → Command → Result OrderError String
unfolding state_of decide_command
next_state env o c = state_of (decide_command env.sha256_json env.now env.stamp o c [])

unfoldable pub do_assign : Env → Order → Task → Command → Result OrderError Order
unfolding next_state has_live_lease update_task
do_assign env o t c = do
  need (not (t.status == "REPORTED")) already_reported
  need (not (has_live_lease env t)) active_lease
  who ← actor c.actor
  text c.reason 2000
  s ← next_state env o c
  ok (record o {
    tasks =
        update_task t.id
          (λ t. record t { assigned = who; status = s; lease = none; blocked_reason = none })
          o.tasks;
  })

new_lease : Env → Order → Lease
new_lease env o = record {
  token = env.uuid;
  expires_at = env.now + env.lease_ms;
  revision = o.revision;
}

unfoldable pub do_claim : Env → Order → Task → Command → Result OrderError Order
unfolding next_state has_live_lease update_task new_lease
do_claim env o t c = do
  who ← actor c.actor
  need (t.assigned == who) wrong_actor
  need (not (t.status == "REPORTED") && not (has_live_lease env t)) active_lease
  need (earlier_reported t.id o.tasks) dependency_pending
  s ← next_state env o c
  ok (record o {
    tasks =
        update_task t.id
          (λ t. record t {
            attempt = t.attempt + 1;
            status = s;
            blocked_reason = none;
            lease = some (new_lease env o);
          })
          o.tasks;
  })

renewed : Env → Option Lease → Option Lease
renewed env none = none
renewed env (some l) = some (record l { expires_at = env.now + env.lease_ms })

unfoldable pub do_heartbeat : Env → Order → Task → Command → Result OrderError Order
unfolding verify_lease update_task renewed
do_heartbeat env o t c = do
  verify_lease env t c
  ok (record o { tasks = update_task t.id (λ t. record t { lease = renewed env t.lease }) o.tasks })

lease_revision : Option Lease → Option ℕ
lease_revision none = none
lease_revision (some l) = some l.revision

unfoldable pub do_report : Env → Order → Task → Command → Result OrderError Order
unfolding verify_lease next_state update_task lease_revision
do_report env o t c = do
  by ← verify_lease env t c
  need (same_number c.revision o.revision && same_number (lease_revision t.lease) o.revision)
      stale_evidence
  summary ← text c.summary 10000
  evidence ← lines c.evidence
  s ← next_state env o c
  ok (record o {
    tasks =
        update_task t.id
          (λ t. record t {
            report = some (record {
              summary = summary;
              evidence = evidence;
              revision = o.revision;
              actor = by;
              at = env.now;
            });
            status = s;
            lease = none;
          })
          o.tasks;
  })

unfoldable pub do_block : Env → Order → Task → Command → Result OrderError Order
unfolding verify_lease next_state update_task
do_block env o t c = do
  verify_lease env t c
  reason ← text c.reason 2000
  s ← next_state env o c
  ok (record o {
    tasks =
        update_task t.id (λ t. record t { blocked_reason = some reason; status = s; lease = none })
          o.tasks;
  })

text_json : Option String → Json
text_json none = null
text_json (some s) = str s

number_json : Option ℕ → Json
number_json none = null
number_json (some n) = num n

-- `${command.requestId}:${t.id}`, of a request id that is a text
task_request : Option String → Task → Option String
task_request none t = none
task_request (some id) t = some (String.◌++◌ id (String.◌++◌ ":" t.id))

-- The command of `decideInvalidation` for one task.
invalidation : Command → String → Task → Command
unfolding text_json number_json task_request
invalidation c reason t = record c {
  request_id = task_request c.request_id t;
  task_id = some t.id;
  reason = some reason;
  actor = none;
  token = none;
  revision = none;
  document = obj (
      field "requestId" (text_json (task_request c.request_id t)) (
        field "version" (number_json c.version) (
          field "action" (str "invalidate")
            (field "taskId" (str t.id) (field "reason" (str reason) end)))));
}

-- The states that the workflow gives to the tasks of a revised requirement.
unfoldable pub invalidated :
    Env → Order → Command → String → List Task → Result OrderError (List Task)
unfolding invalidation state_of decide_invalidation
invalidated env o c reason [] = ok []
invalidated env o c reason (t ∷ ts) = do
  s ← state_of (decide_invalidation env.sha256_json env.now env.stamp o t (invalidation c reason t))
  rest ← invalidated env o c reason ts
  ok (record t { status = s; lease = none; report = none; blocked_reason = none } ∷ rest)

unfoldable pub do_revise : Env → Order → Command → Result OrderError Order
unfolding invalidated
do_revise env o c = do
  intent ← text c.intent 10000
  criteria ← lines c.criteria
  reason ← text c.reason 2000
  tasks ← invalidated env o c reason o.tasks
  ok (record o {
    intent = intent;
    criteria = criteria;
    revision = o.revision + 1;
    closure = none;
    tasks = tasks;
  })

target_of : Option Routing → Option String
target_of none = none
target_of (some r) = r.target_project_id

requirement_of : Option Routing → Option ℕ
requirement_of none = none
requirement_of (some r) = r.requirement_revision

unfoldable pub do_reroute : Env → Order → Command → Result OrderError Order
unfolding is_idle target_of requirement_of
do_reroute env o c = do
  need (every is_idle o.tasks) routing_requires_idle_order
  need (not (env.bound o.id o.revision)) routing_requires_unbound_requirement
  project ← text (target_of c.routing) 300
  next ← routing c.routing project
  need (same_number (requirement_of next) o.revision) routing_requirement_stale
  ok (record o { project = project; routing = next })

-- The task has a result with evidence for the order's current requirement.
unfoldable pub is_evidenced : ℕ → Task → Bool
is_evidenced revision t = t.status == "REPORTED" && (elim t.report [
  | none ↦ false
  | some r ↦ eqb r.revision revision && not (is_empty r.evidence)
])

item_at : List String → ℕ → Option String
item_at [] i = none
item_at (x ∷ xs) zero = some x
item_at (x ∷ xs) (suc i) = item_at xs i

evidence_at : List Task → Option String → ℕ → Option String
unfolding item_at
evidence_at tasks id i = elim (find_task id tasks) [
  | none ↦ none
  | some t ↦ elim t.report [ none ↦ none | some r ↦ item_at r.evidence i ]
]

linked : ℕ → String → String → ℕ → Option String → Result OrderError ClosureCheck
linked index criterion id i none = err criteria_coverage_required
linked index criterion id i (some e) = do
  need (not (e == "")) criteria_coverage_required
  ok (record {
    criterion = index;
    text = criterion;
    task_id = id;
    evidence_index = i;
    evidence = e;
  })

close_check : List Task → ℕ → String → Check → Result OrderError ClosureCheck
unfolding evidence_at linked
close_check tasks index criterion c = elim c.evidence_index [
  | none ↦ err criteria_coverage_required
  | some i ↦ elim c.task_id [
    | none ↦ err criteria_coverage_required
    | some id ↦ do
      need (same_number c.criterion index) criteria_coverage_required
      linked index criterion id i (evidence_at tasks (some id) i)
  ]
]

unfoldable pub close_checks :
    List Task → ℕ → List String → List Check → Result OrderError (List ClosureCheck)
unfolding close_check
close_checks tasks index [] [] = ok []
close_checks tasks index (k ∷ ks) (c ∷ cs) = do
  here ← close_check tasks index k c
  rest ← close_checks tasks (index + 1) ks cs
  ok (here ∷ rest)
close_checks tasks index _ _ = err criteria_coverage_required

checks_of : Option (List Check) → Result OrderError (List Check)
checks_of none = err criteria_coverage_required
checks_of (some cs) = ok cs

unfoldable pub do_close : Env → Order → Command → Result OrderError Order
unfolding is_evidenced close_checks checks_of
do_close env o c = do
  need (every (is_evidenced o.revision) o.tasks) evidence_required
  need (c.confirmed && same_number c.revision o.revision) confirmation_required
  given ← checks_of c.checks
  need (eqb (length given) (length o.criteria)) criteria_coverage_required
  checks ← close_checks o.tasks 0 o.criteria given
  remark ← text c.note 10000
  ok (record o {
    closure = some (record { at = env.now; note = remark; revision = o.revision; checks = checks });
    status = "REVIEW";
  })

without_leases : List Task → List Task
without_leases [] = []
without_leases (t ∷ ts) = record t { lease = none } ∷ without_leases ts

unfoldable pub do_cancel : Order → Command → Result OrderError Order
unfolding without_leases
do_cancel o c = do
  text c.reason 2000
  ok (record o { status = "CANCELLED"; tasks = without_leases o.tasks })

with_task : Order → Command → (Task → Result OrderError Order) → Result OrderError Order
with_task o c f = elim (find_task c.task_id o.tasks) [ none ↦ err task_not_found | some t ↦ f t ]

-- The branches of `mutate`.
unfoldable pub perform : Action → Env → Order → Command → Result OrderError Order
unfolding do_assign do_claim do_heartbeat do_report do_block do_revise do_reroute do_close do_cancel
    with_task find_task
perform assign env o c = with_task o c (λ t. do_assign env o t c)
perform claim env o c = with_task o c (λ t. do_claim env o t c)
perform heartbeat env o c = with_task o c (λ t. do_heartbeat env o t c)
perform report env o c = with_task o c (λ t. do_report env o t c)
perform block env o c = with_task o c (λ t. do_block env o t c)
perform revise env o c = do_revise env o c
perform reroute env o c = do_reroute env o c
perform note env o c = do text c.note 10000; ok o
perform close env o c = do_close env o c
perform cancel env o c = do_cancel o c
perform (unknown _) env o c = err unknown_action

-- The end of `mutate`: the derived status, the next version and the time.
unfoldable pub finish : Env → Order → Order
unfolding derive_status
finish env o = record o {
  status = derive_status o.status o.tasks;
  version = o.version + 1;
  updated_at = env.now;
}
