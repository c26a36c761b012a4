-- ===== src/Base/Table.antt =====
-- A JavaScript `Map` or plain object with text keys: entries in the order of first insertion, and a
-- later value for a key in the place of the earlier one.
use mathlib.Core.Path.{◌≡◌, refl}
use mathlib.Core.Logic.{◌⊎◌, inl, inr}
use mathlib.Core.Option.{Option, none, some}
use mathlib.Core.List.{List, [], ◌∷◌, map}
use native.Mathlib.Omega.{arith}
use Prim.Native.String.{String}
use text.Mathlib.Text.{◌==◌}
use text.Mathlib.TextEquality.{eq_iff}
use ai_core.Base.Tests.{if◌then◌else◌, Bool-cases}
use ai_core.Base.Lists.{In}

abbrev pub Table : Type 0 → Type 0
Table V = List (String × V)

module _ {V : Type 0} where
  -- `m.get(k)`, `o[k]`
  unfoldable pub get : String → Table V → Option V
  get k [] = none
  get k ((j, v) ∷ m) = if j == k then some v else get k m

  -- `m.set(k, v)`, `{ ...o, [k]: v }`
  unfoldable pub put : String → V → Table V → Table V
  put k v [] = (k, v) ∷ []
  put k v ((j, w) ∷ m) = if j == k then (j, v) ∷ m else (j, w) ∷ put k v m

  -- `m.delete(k)`
  unfoldable pub remove : String → Table V → Table V
  remove k [] = []
  remove k ((j, v) ∷ m) = if j == k then remove k m else (j, v) ∷ remove k m

  pub get-remove :
      (k j : String) (m : Table V) → get j (remove k m) ≡ (if k == j then none else get j m)
  unfolding get remove
  get-remove k j [] = ground arith
  get-remove k j ((i, w) ∷ m) = ground (arith, eq_iff k j, eq_iff i k, eq_iff i j, get-remove k j m)

  put_all : Table V → List (String × V) → Table V
  put_all m [] = m
  put_all m ((k, v) ∷ es) = put_all (put k v m) es

  -- `new Map(entries)`
  unfoldable pub from_entries : List (String × V) → Table V
  unfolding put_all put
  from_entries es = put_all [] es

  pub get-put :
      (k j : String) (v : V) (m : Table V)
      → get j (put k v m) ≡ (if k == j then some v else get j m)
  unfolding get put
  get-put k j v [] = refl
  get-put k j v ((i, w) ∷ m) = ground (arith, eq_iff k j, eq_iff i k, eq_iff i j, get-put k j v m)

  get-put_all :
      (k : String) (m : Table V) (es : List (String × V)) {v : V}
      → get k (put_all m es) ≡ some v
      → In (k, v) es ⊎ (get k m ≡ some v)
  unfolding put_all
  get-put_all k m [] h = inr h
  get-put_all k m ((j, w) ∷ es) {v} h = elim (get-put_all k (put j w m) es h) [
    | inl later ↦ inl (inr later)
    | inr e ↦ elim (Bool-cases (j == k)) [
      | inl same ↦ inl (inl (ground (arith, get-put j k w m, eq_iff j k)))
      | inr other ↦ inr (ground (arith, get-put j k w m))
    ]
  ]

  -- What a `Map` returns for a key is one of the entries that it was built from.
  pub get-from_entries :
      (k : String) (es : List (String × V)) {v : V}
      → get k (from_entries es) ≡ some v
      → In (k, v) es
  unfolding from_entries get
  get-from_entries k es h = elim (get-put_all k [] es h) [ inl i ↦ i | inr e ↦ absurd (cc) ]

-- `new Map(items.map(item => [key(item), item]))`
unfoldable pub index_by : {A : Type 0} → (A → String) → List A → Table A
unfolding from_entries
index_by key xs = from_entries (map (λ x. (key x, x)) xs)
