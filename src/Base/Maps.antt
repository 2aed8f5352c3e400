-- ===== src/Base/Maps.antt =====
-- A Go `map[string]V` as an association list. Reading a key that is missing is `none`.
use Prim.Native.String.{String}
use mathlib.Core.Path.{◌≡◌, refl}
use mathlib.Core.Option.{Option, none, some}
use mathlib.Core.List.{List, [], ◌∷◌}
use text.Mathlib.Text.{◌==◌}
use text.Mathlib.TextEquality.{eq_iff}
use native.Mathlib.Omega.{arith}
use tsdb_operator.Base.Tests.{if◌then◌else◌}

abbrev pub Map : Type 0 → Type 0
Map V = List (String × V)

-- A map with text keys as a list of entries, in the order of insertion.
module _ {V : Type 0} where
  unfoldable pub lookup : (wanted : String) → Map V → Option V
  lookup wanted [] = none
  lookup wanted (entry ∷ more) = if entry.0 == wanted then some entry.1 else lookup wanted more

  unfoldable pub insert : (key : String) → V → Map V → Map V
  insert key new [] = (key, new) ∷ []
  insert key new (entry ∷ more) =
      let kept = insert key new more in if entry.0 == key then (key, new) ∷ more else entry ∷ kept

  unfoldable pub erase : (key : String) → Map V → Map V
  erase key [] = []
  erase key (entry ∷ more) =
      let kept = erase key more in if entry.0 == key then kept else entry ∷ kept

  pub lookup-erase :
      (key wanted : String) (entries : Map V)
      → lookup wanted (erase key entries) ≡ (if key == wanted then none else lookup wanted entries)
  unfolding lookup erase
  lookup-erase key wanted [] = ground arith
  lookup-erase key wanted (entry ∷ more) = ground (
    arith,
    lookup-erase key wanted more,
    eq_iff entry.0 wanted,
    eq_iff entry.0 key,
    eq_iff key wanted,
  )

  pub lookup-insert :
      (key wanted : String) (new : V) (entries : Map V)
      → lookup wanted (insert key new entries)
        ≡ (if key == wanted then some new else lookup wanted entries)
  unfolding lookup insert
  lookup-insert key wanted new [] = refl
  lookup-insert key wanted new (entry ∷ more) = ground (
    arith,
    lookup-insert key wanted new more,
    eq_iff entry.0 wanted,
    eq_iff entry.0 key,
    eq_iff key wanted,
  )

-- `m[k]` on a map that may be nil: the empty text for a missing key.
unfoldable pub get_or_empty : String → Option (Map String) → String
unfolding lookup
get_or_empty k none = ""
get_or_empty k (some m) = elim (lookup k m) [ none ↦ "" | some v ↦ v ]
