-- ===== src/Base/Order.antt =====
-- Go's order of strings, and sorting a list by a test (sort.Slice). Strings are compared by code
-- points, which is the order of their UTF-8 bytes.
pub mod Canonical
use Prim.Native.Char.{code}
use Prim.Native.String.{String, [], ◌∷◌}
use Prim.Native.Nat.{ℕ, suc}
use mathlib.Core.Path.{◌≡◌, refl}
use mathlib.Core.List.{List}
use mathlib.Core.Bool.{Bool, true, false}
use mathlib.Core.Logic.{inl, inr}
use text.Mathlib.TextEquality.{Char-path}
use native.Mathlib.Omega.{arith}
use tsdb_operator.Base.Tests.{if◌then◌else◌, ltb, nat_eq, Bool-cases}
use tsdb_operator.Base.Lists.{All}

unfoldable pub text_less : String → String → Bool
text_less [] [] = false
text_less (c ∷ s) [] = false
text_less [] (d ∷ t) = true
text_less (c ∷ s) (d ∷ t) =
    let rest = text_less s t in
    if ltb (code c) (code d) then true else if nat_eq (code c) (code d) then rest else false

pub text_less_asym : (s t : String) → text_less s t ≡ true → text_less t s ≡ false
unfolding text_less
text_less_asym [] [] h = refl
text_less_asym (c ∷ s) [] h = ground arith
text_less_asym [] (d ∷ t) h = refl
text_less_asym (c ∷ s) (d ∷ t) h = ground (arith, text_less_asym s t)

-- "Not less" is transitive.
pub text_less_trans :
    (r s t : String) → text_less s r ≡ false → text_less t s ≡ false → text_less t r ≡ false
unfolding text_less
text_less_trans [] [] [] h k = refl
text_less_trans [] [] (e ∷ t) h k = refl
text_less_trans [] (d ∷ s) [] h k = ground arith
text_less_trans [] (d ∷ s) (e ∷ t) h k = refl
text_less_trans (c ∷ r) [] [] h k = ground arith
text_less_trans (c ∷ r) [] (e ∷ t) h k = ground arith
text_less_trans (c ∷ r) (d ∷ s) [] h k = ground arith
text_less_trans (c ∷ r) (d ∷ s) (e ∷ t) h k = ground (arith, text_less_trans r s t)

-- Of two different texts, one is less.
pub text_less_total : (s t : String) → text_less s t ≡ false → text_less t s ≡ false → s ≡ t
unfolding text_less
text_less_total [] [] h k = refl
text_less_total (c ∷ s) [] h k = ground arith
text_less_total [] (d ∷ t) h k = ground arith
text_less_total (c ∷ s) (d ∷ t) h k = ground (arith, text_less_total s t, Char-path c d)

module _ {A : Type 0} where
  unfoldable pub count_if : (A → Bool) → List A → ℕ
  count_if p List.[] = 0
  count_if p (List.◌∷◌ x xs) = let rest = count_if p xs in if p x then suc rest else rest

  module _ (less : A → A → Bool) where
    abbrev pub place : A → List A → List A
    place x List.[] = List.◌∷◌ x List.[]
    place x (List.◌∷◌ y ys) =
        let later = place x ys in if less y x then List.◌∷◌ y later else List.◌∷◌ x (List.◌∷◌ y ys)

    unfoldable pub sort : List A → List A
    sort List.[] = List.[]
    sort (List.◌∷◌ x xs) = place x (sort xs)

    -- No element is less than one before it.
    abbrev pub IsSorted : List A → Type 0
    IsSorted List.[] = Unit
    IsSorted (List.◌∷◌ x xs) = All (λ y. less y x ≡ false) xs × IsSorted xs

    count_if-place :
        (p : A → Bool) (x : A) (xs : List A) → count_if p (place x xs) ≡ count_if p (List.◌∷◌ x xs)
    unfolding count_if
    count_if-place p x List.[] = refl
    count_if-place p x (List.◌∷◌ y ys) = ground (arith, count_if-place p x ys)

    pub count_if-sort : (p : A → Bool) (xs : List A) → count_if p (sort xs) ≡ count_if p xs
    unfolding count_if sort
    count_if-sort p List.[] = refl
    count_if-sort p (List.◌∷◌ x xs) =
        ground (arith, count_if-sort p xs, count_if-place p x (sort xs))

    module _ (asym : (x y : A) → less x y ≡ true → less y x ≡ false)
        (trans : (x y z : A) → less y x ≡ false → less z y ≡ false → less z x ≡ false) where
      All-place : (P : A → Type 0) (x : A) (xs : List A) → P x → All P xs → All P (place x xs)
      All-place P x List.[] h k = (h, tt)
      All-place P x (List.◌∷◌ y ys) h k = elim (Bool-cases (less y x)) [
        | inl e ↦ rw e (k.0, All-place P x ys h k.1)
        | inr e ↦ rw e (h, k)
      ]

      from_first :
          (x y : A) (ys : List A)
          → less y x ≡ false
          → All (λ z. less z y ≡ false) ys
          → All (λ z. less z x ≡ false) ys
      from_first x y List.[] h k = tt
      from_first x y (List.◌∷◌ z zs) h k = (trans x y z h k.0, from_first x y zs h k.1)

      place-IsSorted : (x : A) (xs : List A) → IsSorted xs → IsSorted (place x xs)
      place-IsSorted x List.[] h = (tt, tt)
      place-IsSorted x (List.◌∷◌ y ys) h = elim (Bool-cases (less y x)) [
        | inl e ↦
            rw e (All-place (λ z. less z y ≡ false) x ys (asym y x e) h.0, place-IsSorted x ys h.1)
        | inr e ↦ rw e ((e, from_first x y ys e h.0), h)
      ]

      pub sort-IsSorted : (xs : List A) → IsSorted (sort xs)
      unfolding sort
      sort-IsSorted List.[] = tt
      sort-IsSorted (List.◌∷◌ x xs) = place-IsSorted x (sort xs) (sort-IsSorted xs)
