-- ===== src/Json.antt =====
-- JSON values and the canonical form that digests are taken of (`canonical` and `digest` of
-- src/workflow/engine.mjs). Numbers are the non-negative integers; an object has distinct keys,
-- and a key whose value is `undefined` is left out, as `JSON.stringify` does.
pub mod Lookup
use Prim.Native.Char.{code}
use ai_core.Base.Field.{Field, missing, null_value, value}
use ai_core.Base.{
  Option, none, some, ◌==◌, ℕ, String, Bool, true, false, ◌||◌, ◌&&◌, ltb, eqb, if◌then◌else◌,
}

mutual
  pub data Json : Type 0 where
    null : Json
    bool : Bool → Json
    num : ℕ → Json
    str : String → Json
    arr : Items → Json
    obj : Fields → Json

  pub data Items : Type 0 where
    nil : Items
    cons : Json → Items → Items

  pub data Fields : Type 0 where
    end : Fields
    field : String → Json → Fields → Fields

-- The order of `Array.prototype.sort` on keys, by code points.
unfoldable pub key_le : String → String → Bool
key_le String.[] t = true
key_le (String.◌∷◌ c s) String.[] = false
key_le (String.◌∷◌ c s) (String.◌∷◌ d t) =
    ltb (code c) (code d) || (eqb (code c) (code d) && key_le s t)

-- `Object.keys(value).sort()`, one key at a time.
unfoldable pub insert_field : String → Json → Fields → Fields
unfolding key_le
insert_field k v end = field k v end
insert_field k v (field j w fs) =
    if key_le k j then field k v (field j w fs) else field j w (insert_field k v fs)

unfoldable mutual
  unfolding insert_field

  pub canonical : Json → Json
  canonical null = null
  canonical (bool b) = bool b
  canonical (num n) = num n
  canonical (str s) = str s
  canonical (arr xs) = arr (canonical_items xs)
  canonical (obj fs) = obj (canonical_fields fs)

  pub canonical_items : Items → Items
  canonical_items nil = nil
  canonical_items (cons x xs) = cons (canonical x) (canonical_items xs)

  pub canonical_fields : Fields → Fields
  canonical_fields end = end
  canonical_fields (field k v fs) = insert_field k (canonical v) (canonical_fields fs)

-- `object[key]`; the first entry, where the keys are distinct.
unfoldable pub lookup : String → Fields → Option Json
lookup k end = none
lookup k (field j v fs) = if j == k then some v else lookup k fs

-- `const { [key]: ignored, ...rest } = object`
unfoldable pub without : String → Fields → Fields
without k end = end
without k (field j v fs) = if j == k then without k fs else field j v (without k fs)

-- `{ ...object, [key]: value }`; the place of the key plays no part in what is read from it.
unfoldable pub with_field : String → Json → Fields → Fields
unfolding without
with_field k v fs = field k v (without k fs)

unfoldable pub read_field : Option Json → Field
read_field none = missing
read_field (some null) = null_value
read_field (some (str s)) = value s
read_field (some _) = missing

-- A property that holds a text or `null`; a value of another kind is read as a missing one.
unfoldable pub field_at : String → Fields → Field
unfolding lookup read_field
field_at k fs = read_field (lookup k fs)

-- `sha256_json` stands for the SHA-256 of `JSON.stringify(value)`, in hexadecimal.
module _ (sha256_json : Json → String) where
  unfoldable pub digest : Json → String
  digest v = sha256_json (canonical v)
