-- ===== src/Capability/Recovery/Stored.antt =====
-- A recovery snapshot of src/engine/capability-execution-coordinator.mjs, stored and read again.
use ai_core.Base.{String, true, ◌&&◌, Option, none, some, List, [], ◌∷◌}
use ai_core.Base.Field.{field_text}
use ai_core.Json.{Items, Fields, end, field, canonical_fields, lookup, field_at, read_field}
use ai_core.Capability.Receipt.{Runtime, is_text}
use ai_core.Base.{◌≡◌, refl, ap, subst, sym, ◌∙◌, arith, inl, inr, Bool-cases, Option-cases}
use ai_core.Capability.Recovery.{
  Project, Capability, Snapshot, snapshot, text_items, items_text, recovery_binding, snapshot_json,
  no_snapshot, taken, snapshot_with, recovery_snapshot, column_of, parse_snapshot, text_json,
  is_version, array_at, object_at, read_snapshot, has_text,
}

items_text-text_items : (ws : List String) → items_text (text_items ws) ≡ ws
unfolding items_text text_items
items_text-text_items [] = refl
items_text-text_items (w ∷ ws) = ap (λ xs. w ∷ xs) (items_text-text_items ws)

mode_text : (m : Option String) → field_text (read_field (some (text_json m))) ≡ m
unfolding text_json read_field
mode_text none = refl
mode_text (some s) = refl

-- A binding as a project gives it.
pub record IsBinding (o : Runtime) (fs : Fields) : Type 0 where
  pub id_ok : has_text o "project_id" fs ≡ true
  pub repository_ok : has_text o "repository" fs ≡ true
  pub path_ok : has_text o "local_path" fs ≡ true
  pub canonical_is : canonical_fields fs ≡ fs

some_eq : {A : Type 0} {a b : A} → some a ≡ some b → a ≡ b
some_eq h = cc

none_refuted : {A : Type 0} {a : A} → ◌≡◌ {A = Option A} none (some a) → ⊥
none_refuted h = absurd (cc)

taken_eq : {s t : Snapshot} → taken s ≡ taken t → s ≡ t
taken_eq h = cc

texts-IsBinding :
    (o : Runtime) (id repository path : Option String)
    → is_text o id ≡ true
    → is_text o repository ≡ true
    → is_text o path ≡ true
    → IsBinding o (
        canonical_fields (
          field "project_id"
            (text_json id)
            (field "repository" (text_json repository) (field "local_path" (text_json path) end))))
unfolding text_json has_text canonical_fields field_at
texts-IsBinding o (some i) (some r) (some p) hi hr hp = record {
  id_ok = hi;
  repository_ok = hr;
  path_ok = hp;
  canonical_is = refl;
}
texts-IsBinding o none r p hi hr hp = absurd (cc)
texts-IsBinding o (some i) none p hi hr hp = absurd (cc)
texts-IsBinding o (some i) (some r) none hi hr hp = absurd (cc)

parsed_back :
    (o : Runtime) (s : Snapshot)
    → IsBinding o s.project_binding
    → parse_snapshot o (column_of (some s)) ≡ snapshot s
unfolding parse_snapshot column_of snapshot_json is_version array_at object_at read_snapshot lookup
    field_at
parsed_back o s b =
    rw
      (
        b.id_ok,
        b.repository_ok,
        b.path_ok,
        b.canonical_is,
        mode_text s.mode,
        items_text-text_items s.walls,
      )
      refl

bound :
    (o : Runtime) (p : Project) (fs : Fields)
    → recovery_binding o (some p) ≡ some fs
    → IsBinding o fs
unfolding recovery_binding
bound o p fs h =
    elim (Bool-cases (is_text o p.project_id && is_text o p.repository && is_text o p.local_path)) [
      | inl e ↦
          let made : recovery_binding o (some p)
              ≡ some (
                  canonical_fields (
                    field "project_id" (text_json p.project_id) (
                      field "repository" (text_json p.repository)
                        (field "local_path" (text_json p.local_path) end)))) =
            rw (e) refl in
          subst (IsBinding o) (some_eq (sym made ∙ h)) (
            texts-IsBinding o p.project_id p.repository p.local_path (ground arith) (ground arith)
              (ground arith))
      | inr e ↦
          let made : recovery_binding o (some p) ≡ none = rw (e) refl in
          absurd (none_refuted (sym made ∙ h))
    ]

no_taken : (s : Snapshot) → no_snapshot ≡ taken s → ⊥
no_taken s h = absurd (cc)

read_back :
    (o : Runtime) (c : Capability) (before : Items) (p : Project) (receipt : Fields) (s : Snapshot)
    (b : Option Fields)
    → recovery_binding o (some p) ≡ b
    → snapshot_with c before receipt b ≡ taken s
    → parse_snapshot o (column_of (some s)) ≡ snapshot s
unfolding snapshot_with
read_back o c before p receipt s none f h = absurd (cc)
read_back o c before p receipt s (some binding) f h =
    subst (λ x. parse_snapshot o (column_of (some x)) ≡ snapshot x) (taken_eq h)
      (parsed_back o _ (bound o p binding f))

-- The snapshot that is taken for a request reads back from its column as it was taken.
pub parse_snapshot-column_of :
    (o : Runtime) (c : Capability) (before : Option Items) (p : Project) (s : Snapshot)
    → recovery_snapshot o c before (some p) ≡ taken s
    → parse_snapshot o (column_of (some s)) ≡ snapshot s
unfolding recovery_snapshot snapshot_with
parse_snapshot-column_of o c none p s h = absurd (cc)
parse_snapshot-column_of o c (some before) p s h = elim (Option-cases c.receipt) [
  | inl e ↦
      let made : recovery_snapshot o c (some before) (some p) ≡ no_snapshot = rw (e) refl in
      absurd (no_taken s (sym made ∙ h))
  | inr (receipt, e) ↦
      let made : recovery_snapshot o c (some before) (some p)
          ≡ snapshot_with c before receipt (recovery_binding o (some p)) =
        rw (e) refl in
      read_back o c before p receipt s (recovery_binding o (some p)) refl (sym made ∙ h)
]
