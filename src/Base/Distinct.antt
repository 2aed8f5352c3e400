-- ===== src/Base/Distinct.antt =====
-- Texts that differ from one another, and a test for it.
use Prim.Native.String.{String}
use mathlib.Core.Path.{◌≡◌}
use mathlib.Core.Logic.{◌≢◌}
use mathlib.Core.Bool.{Bool, true, not, ◌&&◌}
use mathlib.Core.List.{List, [], ◌∷◌}
use text.Mathlib.Text.{◌==◌}
use text.Mathlib.TextEquality.{eq_iff}
use native.Mathlib.Omega.{arith}
use tsdb_operator.Base.Lists.{All}

abbrev pub IsDistinct : List String → Type 0
IsDistinct [] = Unit
IsDistinct (s ∷ ss) = All (λ t. s ≢ t) ss × IsDistinct ss

unfoldable pub differs : String → List String → Bool
differs s [] = true
differs s (t ∷ ts) = not (s == t) && differs s ts

unfoldable pub distinct : List String → Bool
unfolding differs
distinct [] = true
distinct (s ∷ ss) = differs s ss && distinct ss

differs_sound : (s : String) (ts : List String) → differs s ts ≡ true → All (λ t. s ≢ t) ts
unfolding differs
differs_sound s [] h = tt
differs_sound s (t ∷ ts) h = ground (arith, eq_iff s t, differs_sound s ts)

pub distinct_sound : (ss : List String) → distinct ss ≡ true → IsDistinct ss
unfolding distinct
distinct_sound [] h = tt
distinct_sound (s ∷ ss) h = ground (arith, differs_sound s ss, distinct_sound ss)
