-- ===== src/Base/Text.antt =====
-- `String.prototype.trim`, as far as the program uses it: is anything left after trimming?
use Prim.Native.Nat.{ℕ}
use Prim.Native.Char.{code}
use Prim.Native.String.{String, [], ◌∷◌}
use mathlib.Core.Bool.{Bool, true, false, not, ◌&&◌, ◌||◌}
use mathlib.Core.Option.{Option, none, some}
use ai_core.Base.Tests.{leb, eqb}

-- The white space and line terminators of the language.
unfoldable pub is_space : ℕ → Bool
is_space c =
    (leb 9 c && leb c 13)
    || eqb c 32
    || eqb c 160
    || eqb c 5760
    || (leb 8192 c && leb c 8202)
    || eqb c 8232
    || eqb c 8233
    || eqb c 8239
    || eqb c 8287
    || eqb c 12288
    || eqb c 65279

-- `s.trim().length > 0`
unfoldable pub has_content : String → Bool
unfolding is_space
has_content [] = false
has_content (c ∷ s) = not (is_space (code c)) || has_content s

-- `typeof s === 'string' && s.trim().length > 0`
unfoldable pub is_content : Option String → Bool
unfolding has_content
is_content none = false
is_content (some s) = has_content s

-- `Boolean(s)` of a text that may be missing: present and not empty.
abbrev pub truthy : Option String → Bool
truthy none = false
truthy (some []) = false
truthy (some (c ∷ s)) = true

-- `s.startsWith(prefix)`
unfoldable pub starts_with : (prefix s : String) → Bool
starts_with [] s = true
starts_with (c ∷ p) [] = false
starts_with (c ∷ p) (d ∷ s) = eqb (code c) (code d) && starts_with p s
