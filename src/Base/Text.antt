-- ===== src/Base/Text.antt =====
-- strings.Split and strings.SplitN(s, sep, 2) at a one-character separator, over native texts.
use Prim.Native.Nat.{ℕ}
use Prim.Native.Char.{Char, code}
use Prim.Native.String.{String}
use mathlib.Core.Option.{Option, none, some}
use mathlib.Core.List.{List, [], ◌∷◌}
use etre.Base.Tests.{◌==◌, if◌then◌else◌}

add_to_first : Char → List String → List String
add_to_first c [] = String.◌∷◌ c String.[] ∷ []
add_to_first c (p ∷ ps) = String.◌∷◌ c p ∷ ps

unfoldable pub split : ℕ → String → List String
unfolding add_to_first
split sep String.[] = String.[] ∷ []
split sep (String.◌∷◌ c s) =
    let rest = split sep s in if code c == sep then String.[] ∷ rest else add_to_first c rest

add_to_left : Char → Option (String × String) → Option (String × String)
add_to_left c none = none
add_to_left c (some (a, b)) = some (String.◌∷◌ c a, b)

-- The two parts, or `none` where SplitN gives one.
unfoldable pub split_pair : ℕ → String → Option (String × String)
unfolding add_to_left
split_pair sep String.[] = none
split_pair sep (String.◌∷◌ c s) =
    let rest = split_pair sep s in if code c == sep then some (String.[], s) else add_to_left c rest
