-- ===== src/Prelude/Codes.antt =====
-- The code points of a text, and its pieces between separators.
use Prim.Native.Nat.{ℕ}
use Prim.Native.Char.{code}
use Prim.Native.String.{String}
use mathlib.Core.List.{List, [], ◌∷◌}
use mathlib.Core.Bool.{Bool, true, false, ◌&&◌, ◌||◌}
use heyl.Prelude.Tests.{eqb, if◌then◌else◌}

abbrev pub codes : String → List ℕ
codes String.[] = []
codes (String.◌∷◌ c s) = code c ∷ codes s

-- `split(sep)` of a text's code points.
unfoldable pub split : ℕ → List ℕ → List (List ℕ)
split sep [] = [] ∷ []
split sep (c ∷ cs) = elim (split sep cs) [
  | [] ↦ [] ∷ []
  | group ∷ groups ↦ if eqb c sep then [] ∷ group ∷ groups else (c ∷ group) ∷ groups
]

unfoldable pub starts_with : List ℕ → List ℕ → Bool
starts_with [] cs = true
starts_with (p ∷ ps) [] = false
starts_with (p ∷ ps) (c ∷ cs) = eqb p c && starts_with ps cs

unfoldable pub has_infix : List ℕ → List ℕ → Bool
unfolding starts_with
has_infix ps [] = starts_with ps []
has_infix ps (c ∷ cs) = starts_with ps (c ∷ cs) || has_infix ps cs

reversed : List ℕ → List ℕ → List ℕ
reversed [] acc = acc
reversed (c ∷ cs) acc = reversed cs (c ∷ acc)

unfoldable pub ends_with : List ℕ → List ℕ → Bool
unfolding starts_with reversed
ends_with ps cs = starts_with (reversed ps []) (reversed cs [])
