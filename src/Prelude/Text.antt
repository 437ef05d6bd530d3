-- ===== src/Prelude/Text.antt =====
-- `str.split(sep)` and `sep.join(parts)` for a separator of one character.
use hypha_rpc.Prelude.Tests.{nat_eq, if◌then◌else◌}
use Prim.Native.Nat.{ℕ, ◌+◌}
use Prim.Native.Char.{Char, code}
use Prim.Native.String.{String}
use mathlib.Core.Bool.{Bool, false, ◌||◌}
use mathlib.Core.List.{List, [], ◌∷◌}
use text.Mathlib.Text.{◌==◌}

abbrev push_char : Char → List String → List String
push_char c [] = (String.◌∷◌ c String.[]) ∷ []
push_char c (w ∷ ws) = (String.◌∷◌ c w) ∷ ws

unfoldable pub split : ℕ → String → List String
split sep String.[] = "" ∷ []
split sep (String.◌∷◌ c s) =
    let rest = split sep s in if nat_eq (code c) sep then "" ∷ rest else push_char c rest

-- `sep in s`
unfoldable pub contains_char : ℕ → String → Bool
contains_char sep String.[] = false
contains_char sep (String.◌∷◌ c s) = nat_eq (code c) sep || contains_char sep s

-- s.endswith(t)
unfoldable pub ends_with : String → String → Bool
ends_with String.[] t = String.[] == t
ends_with (String.◌∷◌ c s) t = let whole = String.◌∷◌ c s in whole == t || ends_with s t

-- len(s)
unfoldable pub char_count : String → ℕ
char_count String.[] = 0
char_count (String.◌∷◌ c s) = char_count s + 1
