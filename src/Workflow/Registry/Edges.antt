-- ===== src/Workflow/Registry/Edges.antt =====
-- The graph that src/workflow/registry.mjs draws for one axis, against the transitions it is drawn from.
use ai_core.Base.{
  String, true, false, some, List, [], ◌∷◌, map, ◌≡◌, refl, sym, ap, subst, ◌∙◌, ◌↔◌, ◌⊎◌, inl, inr,
  ◌==◌, arith, eq_iff, includes, includes_iff, In, In-append_iff, map-In, Bool-cases, Option-cases,
}
use ai_core.Base.Result.{ok, ◌>>=◌, ok-subst, >>=-eq-ok}
use ai_core.Base.Table
use ai_core.Base.Table.{Table, from_entries, get-put, get-from_entries}
use ai_core.Workflow.Spec.{Transition, Workflow}
use ai_core.Workflow.Registry.{
  Graph, axis_in, get_workflow, initial_edges, add_target, add_edges, draws, add_transitions,
  lifecycle_graph,
}

In-add_target_iff :
    (x to : String) (list : List String) → In x (add_target list to) ↔ (In x list ⊎ (to ≡ x))
unfolding add_target
In-add_target_iff x to list = elim (Bool-cases (includes list to)) [
  | inl e ↦ rw (e) (
    λ i. inl i,
    elim [ inl i ↦ i | inr s ↦ subst (λ y. In y list) s ((includes_iff list to).0 e) ],
  )
  | inr e ↦ rw (e) (
    λ i. elim ((In-append_iff x list (to ∷ [])).0 i) [
      | inl j ↦ inl j
      | inr j ↦ elim j [ inl s ↦ inr s | inr k ↦ absurd k ]
    ],
    elim [
      | inl j ↦ (In-append_iff x list (to ∷ [])).1 (inl j)
      | inr s ↦ (In-append_iff x list (to ∷ [])).1 (inr (inl s))
    ],
  )
]

-- The targets that a table lists for a state are those that an earlier table listed, and `P`.
Extends : Table (List String) → Table (List String) → (String → String → Type 0) → Type 0
Extends m m' P =
    (s : String) (after : List String)
    → Table.get s m' ≡ some after
    → (before : List String) × (Table.get s m ≡ some before)
      × ((x : String) → In x after ↔ (In x before ⊎ P s x))

add_one-Extends :
    (from to : String) (list : List String) (m : Table (List String))
    → Table.get from m ≡ some list
    → Extends m (Table.put from (add_target list to) m) (λ s x. (to ≡ x) × (from ≡ s))
unfolding Extends
add_one-Extends from to list m e s after h = elim (Bool-cases (from == s)) [
  | inl same ↦
      (let at : from ≡ s = (eq_iff from s).0 same in
        let value : some (add_target list to) ≡ some after =
          ground (arith, get-put from s (add_target list to) m) in
        let eq : add_target list to ≡ after = cc in
        (
          list,
          subst (λ k. Table.get k m ≡ some list) at e,
          λ x.
              subst (λ ys. In x ys ↔ (In x list ⊎ ((to ≡ x) × (from ≡ s)))) eq
                (ground (arith, In-add_target_iff x to list)),
        ))
  | inr other ↦ (
    after,
    ground (arith, get-put from s (add_target list to) m),
    λ x. ground (arith, eq_iff from s),
  )
]

trans-Extends :
    (m m' m'' : Table (List String)) (P Q : String → String → Type 0)
    → Extends m m' P
    → Extends m' m'' Q
    → Extends m m'' (λ s x. P s x ⊎ Q s x)
unfolding Extends
trans-Extends m m' m'' P Q f g s after h =
    let (middle, has, i) = g s after h in
    let (before, has', j) = f s middle has in (before, has', λ x. ground (arith, i x, j x))

refl-Extends :
    (m : Table (List String)) (P : String → String → Type 0)
    → ((s x : String) → P s x → ⊥)
    → Extends m m P
unfolding Extends
refl-Extends m P no_ s after h =
    (after, h, λ x. (λ i. inl i, elim [ inl i ↦ i | inr j ↦ absurd (no_ s x j) ]))

map-Extends :
    (m m' : Table (List String)) (P Q : String → String → Type 0)
    → ((s x : String) → P s x ↔ Q s x)
    → Extends m m' P
    → Extends m m' Q
unfolding Extends
map-Extends m m' P Q same f s after h =
    let (before, has, j) = f s after h in (before, has, λ x. ground (arith, same s x, j x))

add_edges-Extends :
    (id to : String) (froms : List String) (m m' : Table (List String))
    → add_edges id to froms m ≡ ok m'
    → Extends m m' (λ s x. (to ≡ x) × In s froms)
unfolding add_edges
add_edges-Extends id to [] m m' h =
    ok-subst (λ n. Extends m n (λ s x. (to ≡ x) × In s [])) h (refl-Extends m _ (λ s x a. a.1))
add_edges-Extends id to (from ∷ froms) m m' h = elim (Option-cases (Table.get from m)) [
  | inl n ↦ absurd (ground arith)
  | inr (list, e) ↦
      map-Extends m m' _ _ (λ s x. ground arith)
        (trans-Extends m (Table.put from (add_target list to) m) m' _ _
          (add_one-Extends from to list m e)
          (add_edges-Extends id to froms (Table.put from (add_target list to) m) m' (ground arith)))
]

-- Some transition that the code draws leads from `s` to `x`.
DrawnBy : String → List Transition → String → String → Type 0
DrawnBy axis_id ts s x =
    (t : Transition) × In t ts × (draws axis_id t ≡ true) × In s t.from × (t.to ≡ x)

-- Some transition of the axis that is no re-observation leads from `s` to `x`.
pub IsDrawn : String → List Transition → String → String → Type 0
IsDrawn axis_id ts s x =
    (t : Transition) × In t ts
    × (t.axis_id ≡ axis_id)
    × (t.purpose == "REOBSERVE" ≡ false)
    × In s t.from
    × (t.to ≡ x)

draws-IsDrawn :
    (axis_id : String) (ts : List Transition) (s x : String)
    → DrawnBy axis_id ts s x ↔ IsDrawn axis_id ts s x
unfolding DrawnBy IsDrawn draws
draws-IsDrawn axis_id ts s x = (
  λ (t, i, d, from, to).
      (t, i, (eq_iff t.axis_id axis_id).0 (ground (arith, d)), ground (arith, d), from, to),
  λ (t, i, axis, purpose, from, to). (
    t,
    i,
    let same : t.axis_id == axis_id ≡ true = (eq_iff t.axis_id axis_id).1 axis in
        ground (arith, same, purpose),
    from,
    to,
  ),
)

iff_trans : (A B C : Type 0) → A ↔ B → B ↔ C → A ↔ C
iff_trans A B C (f, f') (g, g') = (λ a. g (f a), λ c. f' (g' c))

module _ (axis_id : String) (t : Transition) (ts : List Transition) where
  DrawnBy-here :
      draws axis_id t ≡ true
      → (s x : String)
      → (((t.to ≡ x) × In s t.from) ⊎ DrawnBy axis_id ts s x) ↔ DrawnBy axis_id (t ∷ ts) s x
  unfolding DrawnBy
  DrawnBy-here e s x = (
    elim [
      | inl (to, i) ↦ (t, inl refl, e, i, to)
      | inr (u, i, d, from, to) ↦ (u, inr i, d, from, to)
    ],
    λ (u, i, d, from, to). elim i [
      | inl same ↦ inl (
        ap (λ (v : Transition). v.to) same ∙ to,
        subst (λ (v : Transition). In s v.from) (sym same) from,
      )
      | inr j ↦ inr (u, j, d, from, to)
    ],
  )

  DrawnBy-later :
      draws axis_id t ≡ false
      → (s x : String) → DrawnBy axis_id ts s x ↔ DrawnBy axis_id (t ∷ ts) s x
  unfolding DrawnBy
  DrawnBy-later e s x = (
    λ (u, i, d, from, to). (u, inr i, d, from, to),
    λ (u, i, d, from, to). elim i [
      | inl same ↦ absurd (let k = ap (draws axis_id) same in cc)
      | inr j ↦ (u, j, d, from, to)
    ],
  )

drop_before :
    (x : String) (before list : List String) (P : Type 0)
    → before ≡ []
    → In x list ↔ (In x before ⊎ P)
    → In x list ↔ P
drop_before x before list P e (there, back) =
    (λ i. elim (there i) [ inl j ↦ absurd (subst (In x) e j) | inr q ↦ q ], λ q. back (inr q))

add_transitions-Extends :
    (axis_id : String) (ts : List Transition) (m m' : Table (List String))
    → add_transitions axis_id ts m ≡ ok m'
    → Extends m m' (DrawnBy axis_id ts)
unfolding add_transitions DrawnBy
add_transitions-Extends axis_id [] m m' h =
    ok-subst (λ n. Extends m n (DrawnBy axis_id [])) h (refl-Extends m _ (λ s x (t, i, _, _, _). i))
add_transitions-Extends axis_id (t ∷ ts) m m' h = elim (Bool-cases (draws axis_id t)) [
  | inl e ↦
      (let h' : (add_edges t.transition_id t.to t.from m >>= add_transitions axis_id ts) ≡ ok m' =
          rw (e, add_transitions) at h in
        let (n, first, rest) = >>=-eq-ok (add_edges t.transition_id t.to t.from m) _ h' in
        map-Extends m m' _ _ (DrawnBy-here axis_id t ts e) (
          trans-Extends m n m' _ _ (add_edges-Extends t.transition_id t.to t.from m n first)
            (add_transitions-Extends axis_id ts n m' rest)))
  | inr e ↦
      map-Extends m m' _ _ (DrawnBy-later axis_id t ts e)
        (add_transitions-Extends axis_id ts m m' (rw (e, add_transitions) at h))
]

initial_edges_empty :
    (states : List String) (s : String) (list : List String)
    → Table.get s (initial_edges states) ≡ some list
    → list ≡ []
unfolding initial_edges
initial_edges_empty states s list h =
    let i = get-from_entries s (map (λ k. (k, [])) states) h in
    let (k, _, e) = map-In (λ (k : String). (k, [])) states i in
    sym (ap (λ (q : String × List String). q.1) e)

-- In the graph of an axis, the targets listed for a state are exactly the targets of the
-- transitions of that axis that lead from the state and are no re-observations.
pub lifecycle_graph_edges :
    (workflows : List Workflow) (workflow_id axis_id : String) (g : Graph) (s x : String)
    (list : List String)
    → lifecycle_graph workflows workflow_id axis_id ≡ ok g
    → Table.get s g.transitions ≡ some list
    → In x list ↔ IsDrawn axis_id g.workflow.transitions s x
unfolding lifecycle_graph Extends
lifecycle_graph_edges workflows workflow_id axis_id g s x list h e =
    let (w, _, h₁) = >>=-eq-ok (get_workflow workflows workflow_id) _ h in
    let (axis, _, h₂) = >>=-eq-ok (axis_in workflow_id axis_id w) _ h₁ in
    let (edges, made, h₃) =
      >>=-eq-ok (add_transitions axis_id w.transitions (initial_edges axis.states)) _ h₂ in
    let same_edges : edges ≡ g.transitions = ground arith in
    let same_workflow : w ≡ g.workflow = ground arith in
    let (before, has, iff) =
      add_transitions-Extends axis_id w.transitions (initial_edges axis.states) edges made s list
        (subst (λ m. Table.get s m ≡ some list) (sym same_edges) e) in
    let empty = initial_edges_empty axis.states s before has in
    subst (λ (v : Workflow). In x list ↔ IsDrawn axis_id v.transitions s x) same_workflow
      (iff_trans _ _ _ (drop_before x before list (DrawnBy axis_id w.transitions s x) empty (iff x))
        (draws-IsDrawn axis_id w.transitions s x))
