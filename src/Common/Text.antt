-- ===== src/Common/Text.antt =====
-- Texts: the string methods that the source calls, over code points.
use Prim.Native.Nat.{ℕ, zero, suc}
use Prim.Native.Char.{Char, code}
use Prim.Native.String
use Prim.Native.String.{String}
use mathlib.Core.Bool.{Bool, false, ◌&&◌, ◌||◌}
use mathlib.Core.Option.{Option, none, some}
use mathlib.Core.List.{List, [], ◌∷◌}
use text.Mathlib.Text.{◌==◌}
use atproto_market.Common.Tests.{eqb, leb, is_some, if◌then◌else◌}

infixr 65 ◌⧺◌
-- `a + b` on strings
abbrev pub ◌⧺◌ : String → String → String
◌⧺◌ a b = String.◌++◌ a b

abbrev pub singleton : Char → String
singleton c = String.◌∷◌ c String.[]

-- `!s`
abbrev pub is_empty : String → Bool
is_empty s = s == ""

-- `s.split(sep)` for a separator of one character: `cur` is the part that is being read.
unfoldable pub split_from : ℕ → String → String → List String
split_from sep cur String.[] = cur ∷ []
split_from sep cur (String.◌∷◌ c s) =
    let closed = split_from sep "" s in
    let longer = split_from sep (cur ⧺ singleton c) s in
    if eqb (code c) sep then cur ∷ closed else longer

unfoldable pub split : ℕ → String → List String
unfolding split_from
split sep s = split_from sep "" s

-- The rest of `s` behind the prefix `p`, if it has that prefix.
unfoldable pub strip_prefix : String → String → Option String
strip_prefix String.[] s = some s
strip_prefix (String.◌∷◌ c p) String.[] = none
strip_prefix (String.◌∷◌ c p) (String.◌∷◌ d s) =
    if eqb (code c) (code d) then strip_prefix p s else none

-- `s.replace(p, "")`: the first occurrence of the text `p` is taken out.
unfoldable pub remove_first : String → String → String
unfolding strip_prefix
remove_first p String.[] = String.[]
remove_first p (String.◌∷◌ c s) = elim (strip_prefix p (String.◌∷◌ c s)) [
  | some rest ↦ rest
  | none ↦ singleton c ⧺ remove_first p s
]

-- `parts[i]`
unfoldable pub part : List String → ℕ → Option String
part [] i = none
part (p ∷ ps) zero = some p
part (p ∷ ps) (suc i) = part ps i

-- `xs.includes(s)`
unfoldable pub includes : String → List String → Bool
includes s [] = false
includes s (x ∷ xs) = x == s || includes s xs

-- The code points of a text.
abbrev pub codes : String → List ℕ
codes String.[] = []
codes (String.◌∷◌ c s) = code c ∷ codes s

-- A digit, a lower case letter, an upper case letter of ASCII.
abbrev pub is_digit : ℕ → Bool
is_digit c = leb b'0' c && leb c b'9'

abbrev pub is_lower : ℕ → Bool
is_lower c = leb b'a' c && leb c b'z'

abbrev pub is_upper : ℕ → Bool
is_upper c = leb b'A' c && leb c b'Z'

-- `s.startsWith(p)`
abbrev pub starts_with : String → String → Bool
starts_with p s = is_some (strip_prefix p s)
