-- ===== src/Ledger/Names.antt =====
-- The helpers of src/workflow/work-ledger-shadow.mjs that work on texts. Only the letters of ASCII
-- are lowered; the state names of the work lifecycle are upper-case ASCII with underscores.
use Prim.Native.Char.{Char, code}
use Prim.Native.String
use ai_core.Base.{
  ℕ, suc, String, Bool, false, ◌&&◌, ◌||◌, Option, none, some, List, [], ◌∷◌, leb, eqb,
  if◌then◌else◌,
}

abbrev lowered : List (ℕ × Char)
lowered =
    (b'A', "a")
    ∷ (b'B', "b")
    ∷ (b'C', "c")
    ∷ (b'D', "d")
    ∷ (b'E', "e")
    ∷ (b'F', "f")
    ∷ (b'G', "g")
    ∷ (b'H', "h")
    ∷ (b'I', "i")
    ∷ (b'J', "j")
    ∷ (b'K', "k")
    ∷ (b'L', "l")
    ∷ (b'M', "m")
    ∷ (b'N', "n")
    ∷ (b'O', "o")
    ∷ (b'P', "p")
    ∷ (b'Q', "q")
    ∷ (b'R', "r")
    ∷ (b'S', "s")
    ∷ (b'T', "t")
    ∷ (b'U', "u")
    ∷ (b'V', "v")
    ∷ (b'W', "w")
    ∷ (b'X', "x")
    ∷ (b'Y', "y")
    ∷ (b'Z', "z")
    ∷ (b'_', "-")
    ∷ []

slug_char : List (ℕ × Char) → Char → Char
slug_char [] c = c
slug_char ((k, d) ∷ rest) c = if eqb k (code c) then d else slug_char rest c

-- `String(value ?? '').toLowerCase().replaceAll('_', '-')`
slug_text : String → String
unfolding slug_char
slug_text String.[] = ""
slug_text (String.◌∷◌ c s) = String.◌∷◌ (slug_char lowered c) (slug_text s)

unfoldable pub slug : Option String → String
unfolding slug_text
slug none = ""
slug (some s) = slug_text s

-- `work.${slug(from)}.reobserve`
unfoldable pub reobserve_id : Option String → String
unfolding slug
reobserve_id from = String.◌++◌ "work." (String.◌++◌ (slug from) ".reobserve")

-- `work.${slug(from)}.to.${slug(to)}`
unfoldable pub move_id : Option String → Option String → String
unfolding slug
move_id from to = String.◌++◌ "work." (String.◌++◌ (slug from) (String.◌++◌ ".to." (slug to)))

is_hex : ℕ → Bool
is_hex c = (leb b'0' c && leb c b'9') || (leb b'a' c && leb c b'f')

hex_count : String → Option ℕ
unfolding is_hex
hex_count String.[] = some 0
hex_count (String.◌∷◌ c s) = elim (hex_count s) [
  | none ↦ none
  | some n ↦ if is_hex (code c) then some (suc n) else none
]

-- `/^[0-9a-f]{40}$/.test(value)`
unfoldable pub is_revision_text : String → Bool
unfolding hex_count
is_revision_text s = elim (hex_count s) [ none ↦ false | some n ↦ eqb n 40 ]
