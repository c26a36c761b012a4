-- ===== src/Workflow/Inspect/Approvals.antt =====
-- The approvals of a context, read straight from the submitted items: the table that
-- `approvalsByRole` of src/workflow/engine.mjs builds adds nothing and loses nothing.
use mathlib.Core.List.{flatten}
use ai_core.Base.{
  String, Bool, true, not, ◌&&◌, ◌||◌, Option, none, some, List, [], ◌∷◌, ◌++◌, map, ◌≡◌, refl, inl,
  inr, ◌==◌, arith, any, every, includes, includes-append, is_empty, is_empty-append, truthy,
  same_text, Bool-cases, if◌then◌else◌,
}
use ai_core.Base.Table
use ai_core.Base.Table.{Table}
use ai_core.Workflow.Spec.{Approval, no_approval, any_one, all_roles, ApprovalItem}
use ai_core.Workflow.Inspect.{
  or_empty, listed, add_named, add_approval, approvals_from, approvals_by_role, role_satisfied,
  approver_ids, missing_roles, role_reasons, duty_reasons, approval_reasons,
}

-- The item names a role and an actor.
abbrev pub counts : ApprovalItem → Bool
counts item = truthy item.role && truthy item.actor_id

-- Some item approves in the role.
abbrev pub approved_in : List ApprovalItem → String → Bool
approved_in approvals r = any (λ item. counts item && same_text item.role (some r)) approvals

-- Some item was approved by the actor.
abbrev pub approved_by : List ApprovalItem → String → Bool
approved_by approvals a = any (λ item. counts item && same_text item.actor_id (some a)) approvals

abbrev pub roles_ok : Approval → List ApprovalItem → Bool
roles_ok a approvals = elim a.policy [
  | no_approval ↦ true
  | all_roles ↦ every (approved_in approvals) a.required_roles
  | any_one ↦ any (approved_in approvals) a.required_roles
]

-- The acting party is not among the approvers, where the policy separates duties.
abbrev pub duties_ok : Approval → List ApprovalItem → Option String → Bool
duties_ok a approvals none = true
duties_ok a approvals (some actor) =
    not (a.separation_of_duties && truthy (some actor) && approved_by approvals actor)

abbrev pub approval_ok : Approval → List ApprovalItem → Option String → Bool
approval_ok a approvals actor = elim a.policy [
  | no_approval ↦ true
  | _ ↦ roles_ok a approvals && duties_ok a approvals actor
]

not-is_empty-append : (xs : List String) (b : String) → not (is_empty (xs ++ b ∷ [])) ≡ true
not-is_empty-append [] b = refl
not-is_empty-append (x ∷ xs) b = refl

listed-put :
    (m : Table (List String)) (role r : String) (v : List String)
    → listed (Table.put role v m) r ≡ (if role == r then v else listed m r)
unfolding listed
listed-put m role r v = ground (arith, Table.get-put role r v m)

role_satisfied-add :
    (m : Table (List String)) (role actor : Option String) (r : String)
    → role_satisfied (add_named m role actor) r
      ≡ ((truthy role && truthy actor && same_text role (some r)) || role_satisfied m r)
unfolding add_named role_satisfied
role_satisfied-add m none actor r = refl
role_satisfied-add m (some role) none r = ground arith
role_satisfied-add m (some role) (some actor) r = ground (
  arith,
  listed-put m role r (listed m role ++ actor ∷ []),
  not-is_empty-append (listed m role) actor,
)

role_satisfied-from :
    (m : Table (List String)) (items : List ApprovalItem) (r : String)
    → role_satisfied (approvals_from m items) r ≡ (approved_in items r || role_satisfied m r)
unfolding approvals_from add_approval
role_satisfied-from m [] r = refl
role_satisfied-from m (item ∷ items) r = ground (
  arith,
  role_satisfied-from (add_named m item.role item.actor_id) items r,
  role_satisfied-add m item.role item.actor_id r,
)

ids-cons :
    (j : String) (w : List String) (m : Table (List String)) (a : String)
    → includes (approver_ids ((j, w) ∷ m)) a ≡ (includes w a || includes (approver_ids m) a)
unfolding approver_ids flatten
ids-cons j w m a = includes-append w (flatten (map (λ (e : String × List String). e.1) m)) a

-- A new approver under any role is one more approver.
approvers-put :
    (m : Table (List String)) (role a b : String) (old : List String)
    → or_empty (Table.get role m) ≡ old
    → includes (approver_ids (Table.put role (old ++ b ∷ []) m)) a
      ≡ (b == a || includes (approver_ids m) a)
unfolding Table.put Table.get
approvers-put [] role a b [] h = rw ids-cons (ground arith)
approvers-put [] role a b (x ∷ xs) h = absurd (cc)
approvers-put ((j, w) ∷ m) role a b old h = elim (Bool-cases (j == role)) [
  | inl same ↦ rw (same, ids-cons, ids-cons, includes-append) (ground (arith, rw same at h))
  | inr other ↦
      rw (other, ids-cons, ids-cons) (ground (arith, approvers-put m role a b old (rw other at h)))
]

approvers-add :
    (m : Table (List String)) (role actor : Option String) (a : String)
    → includes (approver_ids (add_named m role actor)) a
      ≡ ((truthy role && truthy actor && same_text actor (some a)) || includes (approver_ids m) a)
unfolding add_named listed
approvers-add m none actor a = refl
approvers-add m (some role) none a = ground arith
approvers-add m (some role) (some actor) a =
    ground (arith, approvers-put m role a actor (listed m role) refl)

approvers-from :
    (m : Table (List String)) (items : List ApprovalItem) (a : String)
    → includes (approver_ids (approvals_from m items)) a
      ≡ (approved_by items a || includes (approver_ids m) a)
unfolding approvals_from add_approval
approvers-from m [] a = refl
approvers-from m (item ∷ items) a = ground (
  arith,
  approvers-from (add_named m item.role item.actor_id) items a,
  approvers-add m item.role item.actor_id a,
)

role_satisfied-by_role :
    (items : List ApprovalItem) (r : String)
    → role_satisfied (approvals_by_role items) r ≡ approved_in items r
unfolding approvals_by_role role_satisfied
role_satisfied-by_role items r = ground (arith, role_satisfied-from [] items r)

approvers-by_role :
    (items : List ApprovalItem) (a : String)
    → includes (approver_ids (approvals_by_role items)) a ≡ approved_by items a
unfolding approvals_by_role approver_ids flatten
approvers-by_role items a = ground (arith, approvers-from [] items a)

missing_roles_lem :
    (items : List ApprovalItem) (rs : List String)
    → is_empty (missing_roles (approvals_by_role items) rs) ≡ every (approved_in items) rs
unfolding missing_roles
missing_roles_lem items [] = refl
missing_roles_lem items (r ∷ rs) =
    ground (arith, role_satisfied-by_role items r, missing_roles_lem items rs)

any_roles :
    (items : List ApprovalItem) (rs : List String)
    → any (role_satisfied (approvals_by_role items)) rs ≡ any (approved_in items) rs
any_roles items [] = refl
any_roles items (r ∷ rs) = ground (arith, role_satisfied-by_role items r, any_roles items rs)

roles_lem :
    (a : Approval) (items : List ApprovalItem)
    → is_empty (role_reasons a (approvals_by_role items)) ≡ roles_ok a items
unfolding role_reasons
roles_lem a items =
    ground (arith, missing_roles_lem items a.required_roles, any_roles items a.required_roles)

duties_lem :
    (a : Approval) (items : List ApprovalItem) (actor : Option String)
    → is_empty (duty_reasons a (approvals_by_role items) actor) ≡ duties_ok a items actor
unfolding duty_reasons
duties_lem a items none = refl
duties_lem a items (some actor) = ground (arith, approvers-by_role items actor)

-- The approval part of an inspection has no reason exactly when the items themselves satisfy the
-- policy.
pub approval_lem :
    (a : Approval) (items : List ApprovalItem) (actor : Option String)
    → is_empty (approval_reasons a items actor) ≡ approval_ok a items actor
unfolding approval_reasons
approval_lem a items actor = ground (
  arith,
  is_empty-append (role_reasons a (approvals_by_role items))
      (duty_reasons a (approvals_by_role items) actor),
  roles_lem a items,
  duties_lem a items actor,
)
