-- ===== src/Workflow/Registry.antt =====
-- src/workflow/registry.mjs: look-up of a workflow in the registry document, which the file reads
-- from registry/workflows.json and which is an argument here, and the graph of one axis.
pub mod Edges
use ai_core.Base.{
  String, Bool, true, false, not, ◌&&◌, ◌||◌, Option, none, some, List, [], ◌∷◌, ◌++◌, map, ◌==◌,
  find, keep, includes, if◌then◌else◌,
}
use ai_core.Base.Result.{Result, ok, err, ◌>>=◌}
use ai_core.Base.Table
use ai_core.Base.Table.{Table, from_entries}
use ai_core.Workflow.Spec.{Transition, Axis, Workflow}

pub data RegistryError : Type 0 where
  workflow_not_registered : String → RegistryError
  workflow_axis_not_registered : (workflow_id axis_id : String) → RegistryError
  workflow_transition_from_unknown : (transition_id state : String) → RegistryError

pub record Graph : Type 0 where
  pub workflow : Workflow
  pub axis : Axis
  pub transitions : Table (List String)
  pub reobservable : List String
  pub verified_path : List String

unfoldable pub get_workflow : List Workflow → String → Result RegistryError Workflow
get_workflow workflows id = elim (find (λ (w : Workflow). w.workflow_id == id) workflows) [
  | none ↦ err (workflow_not_registered id)
  | some w ↦ ok w
]

-- `for (const state of axis.states) transitions.set(state.state_id, [])`
initial_edges : List String → Table (List String)
unfolding from_entries
initial_edges states = from_entries (map (λ s. (s, [])) states)

-- `if (!list.includes(transition.to)) list.push(transition.to)`
unfoldable pub add_target : List String → String → List String
add_target list to = if includes list to then list else list ++ to ∷ []

unfoldable pub add_edges :
    String → String → List String → Table (List String) → Result RegistryError (Table (List String))
unfolding add_target Table.get Table.put
add_edges id to [] m = ok m
add_edges id to (from ∷ froms) m = elim (Table.get from m) [
  | none ↦ err (workflow_transition_from_unknown id from)
  | some list ↦ add_edges id to froms (Table.put from (add_target list to) m)
]

-- The transitions that draw an edge.
unfoldable pub draws : String → Transition → Bool
draws axis_id t = not (not (t.axis_id == axis_id) || t.purpose == "REOBSERVE")

unfoldable pub add_transitions :
    String → List Transition → Table (List String) → Result RegistryError (Table (List String))
unfolding add_edges draws
add_transitions axis_id [] m = ok m
add_transitions axis_id (t ∷ ts) m = elim (draws axis_id t) [
  | true ↦ do m' ← add_edges t.transition_id t.to t.from m; add_transitions axis_id ts m'
  | false ↦ add_transitions axis_id ts m
]

is_loop : List String → String → Bool
is_loop (from ∷ []) to = from == to
is_loop _ to = false

is_reobservable : String → Transition → Bool
unfolding is_loop
is_reobservable axis_id t = t.axis_id == axis_id && t.purpose == "REOBSERVE" && is_loop t.from t.to

is_verified : String → Transition → Bool
is_verified axis_id t = t.axis_id == axis_id && includes t.guards "work.verified-revision-present"

-- `[...new Set(items)]`
unfoldable pub distinct_from : List String → List String → List String
unfolding add_target
distinct_from seen [] = seen
distinct_from seen (x ∷ xs) = distinct_from (add_target seen x) xs

axis_in : (workflow_id axis_id : String) → Workflow → Result RegistryError Axis
axis_in workflow_id axis_id w = elim (find (λ (a : Axis). a.axis_id == axis_id) w.state_axes) [
  | none ↦ err (workflow_axis_not_registered workflow_id axis_id)
  | some a ↦ ok a
]

unfoldable pub lifecycle_graph : List Workflow → String → String → Result RegistryError Graph
unfolding get_workflow axis_in initial_edges add_transitions is_reobservable is_verified
    distinct_from
lifecycle_graph workflows workflow_id axis_id = do
  w ← get_workflow workflows workflow_id
  axis ← axis_in workflow_id axis_id w
  edges ← add_transitions axis_id w.transitions (initial_edges axis.states)
  ok (record {
    workflow = w;
    axis = axis;
    transitions = edges;
    reobservable = map (λ t. t.to) (keep (is_reobservable axis_id) w.transitions);
    verified_path = distinct_from [] (map (λ t. t.to) (keep (is_verified axis_id) w.transitions));
  })
