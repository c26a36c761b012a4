-- ===== src/Base/Field.antt =====
-- Properties of JavaScript objects that may be missing.
use Prim.Native.String.{String}
use mathlib.Core.Bool.{Bool, true, false, not}
use mathlib.Core.Option.{Option, none, some}
use text.Mathlib.Text.{◌==◌}

-- A property that may be `undefined`, `null` or a text; `===` tells the three apart.
pub data Field : Type 0 where
  missing null_value : Field
  value : String → Field

abbrev pub same_field : Field → Field → Bool
same_field missing missing = true
same_field null_value null_value = true
same_field (value a) (value b) = a == b
same_field _ _ = false

-- `x ?? null`, as a value that is there or not
abbrev pub field_text : Field → Option String
field_text missing = none
field_text null_value = none
field_text (value s) = some s

abbrev pub or_null : Field → Field
or_null missing = null_value
or_null f = f

-- `Boolean(x)`
abbrev pub is_given : Field → Bool
is_given (value s) = not (s == "")
is_given _ = false

abbrev pub is_text : Field → String → Bool
is_text (value s) t = s == t
is_text _ t = false
