-- ===== src/Json/Lookup.antt =====
-- What is read from an object survives `canonical` of src/workflow/engine.mjs.
use ai_core.Base.{
  String, true, false, Option, none, some, ◌≡◌, refl, ap, ◌∙◌, ◌==◌, inl, inr, arith, Bool-cases,
  eq_iff, if◌then◌else◌,
}
use ai_core.Json.{
  Json, null, bool, num, str, arr, obj, Fields, end, field, key_le, insert_field, canonical,
  canonical_fields, lookup, without, read_field, field_at,
}
use mathlib.Core.Option

key_le_refl : (k : String) → key_le k k ≡ true
unfolding key_le
key_le_refl String.[] = refl
key_le_refl (String.◌∷◌ c s) = ground (arith, key_le_refl s)

lookup-insert_field :
    (q k : String) (v : Json) (fs : Fields)
    → lookup q (insert_field k v fs) ≡ (if k == q then some v else lookup q fs)
unfolding lookup insert_field
lookup-insert_field q k v end = refl
lookup-insert_field q k v (field j w fs) = elim (Bool-cases (key_le k j)) [
  | inl e ↦ rw (e) refl
  | inr e ↦
      rw (e) (ground (arith, key_le_refl k, eq_iff j q, eq_iff k q, lookup-insert_field q k v fs))
]

pub lookup-canonical_fields :
    (q : String) (fs : Fields) → lookup q (canonical_fields fs) ≡ Option.map canonical (lookup q fs)
unfolding lookup canonical_fields
lookup-canonical_fields q end = refl
lookup-canonical_fields q (field k v fs) = ground (
  arith,
  lookup-insert_field q k (canonical v) (canonical_fields fs),
  lookup-canonical_fields q fs,
)

pub lookup-without :
    (q k : String) (fs : Fields) → (k == q) ≡ false → lookup q (without k fs) ≡ lookup q fs
unfolding lookup without
lookup-without q k end h = refl
lookup-without q k (field j v fs) h =
    ground (arith, eq_iff j k, eq_iff k q, eq_iff j q, lookup-without q k fs h)

read_canonical : (o : Option Json) → read_field (Option.map canonical o) ≡ read_field o
unfolding read_field canonical
read_canonical none = refl
read_canonical (some null) = refl
read_canonical (some (bool b)) = refl
read_canonical (some (num n)) = refl
read_canonical (some (str s)) = refl
read_canonical (some (arr xs)) = refl
read_canonical (some (obj fs)) = refl

-- A property reads the same in the canonical form.
pub field_at-canonical_fields :
    (k : String) (fs : Fields) → field_at k (canonical_fields fs) ≡ field_at k fs
unfolding field_at
field_at-canonical_fields k fs =
    ap read_field (lookup-canonical_fields k fs) ∙ read_canonical (lookup k fs)

pub field_at-without :
    (q k : String) (fs : Fields) → (k == q) ≡ false → field_at q (without k fs) ≡ field_at q fs
unfolding field_at
field_at-without q k fs h = ap read_field (lookup-without q k fs h)
