-- ===== src/Base/Order/Canonical.antt =====
-- Sorting forgets the order of a list whose elements all compare.
use mathlib.Core.Path.{◌≡◌, refl, ap, ◌∙◌, subst}
use mathlib.Core.Bool.{Bool, true, false}
use mathlib.Core.Logic.{◌⊎◌, inl, inr}
use mathlib.Core.List.{List, [], ◌∷◌, Permᴰ}
use mathlib.Core.List.Permᴰ.{nil, cons, swap, trans}
use native.Mathlib.Omega.{arith}
use tsdb_operator.Base.Lists.{All}
use tsdb_operator.Base.Order.{count_if, place, sort}

module _ {A : Type 0} where
  All-perm : {xs ys : List A} (P : A → Type 0) → Permᴰ xs ys → All P xs → All P ys
  All-perm P nil h = tt
  All-perm P (cons e d) h = (subst P e h.0, All-perm P d h.1)
  All-perm P (swap e f) h = (subst P f h.1.0, (subst P e h.0, h.1.1))
  All-perm P (trans d e) h = All-perm P e (All-perm P d h)

  pub count_if-perm : {xs ys : List A} (p : A → Bool) → Permᴰ xs ys → count_if p xs ≡ count_if p ys
  unfolding count_if
  count_if-perm p nil = refl
  count_if-perm p (cons e d) = ground (arith, count_if-perm p d, ap p e)
  count_if-perm p (swap e f) = ground (arith, ap p e, ap p f)
  count_if-perm p (trans d e) = count_if-perm p d ∙ count_if-perm p e

  module _ (less : A → A → Bool) where
    abbrev pub Compares : A → A → Type 0
    Compares x y = (less x y ≡ true) ⊎ (less y x ≡ true)

    -- Of any two elements, one is less.
    abbrev pub IsStrict : List A → Type 0
    IsStrict [] = Unit
    IsStrict (x ∷ xs) = All (Compares x) xs × IsStrict xs

    flipped : (x y : A) → Compares x y → Compares y x
    flipped x y (inl e) = inr e
    flipped x y (inr e) = inl e

    IsStrict-perm : {xs ys : List A} → Permᴰ xs ys → IsStrict xs → IsStrict ys
    IsStrict-perm nil h = tt
    IsStrict-perm (cons {b} {l₁} {l₂} e d) h =
        (subst (λ x. All (Compares x) l₂) e (All-perm _ d h.0), IsStrict-perm d h.1)
    IsStrict-perm (swap {a} {b} {a'} {b'} {l} e f) h = (
      (
        subst (λ x. Compares x b') f (subst (Compares b) e (flipped a b h.0.0)),
        subst (λ x. All (Compares x) l) f h.1.0,
      ),
      (subst (λ x. All (Compares x) l) e h.0.1, h.1.1),
    )
    IsStrict-perm (trans d e) h = IsStrict-perm e (IsStrict-perm d h)

    module _ (asym : (x y : A) → less x y ≡ true → less y x ≡ false)
        (before : (x y z : A) → less y x ≡ false → less z y ≡ false → less z x ≡ false) where
      place_comm :
          (x y : A)
          → Compares x y
          → (l : List A) → place less x (place less y l) ≡ place less y (place less x l)
      place_comm x y (inl h) [] = ground (arith, asym x y)
      place_comm x y (inr h) [] = ground (arith, asym y x)
      place_comm x y (inl h) (z ∷ zs) = ground (
        arith,
        asym x y h,
        place_comm x y (inl h) zs,
        before z x y,
        before z y x,
        before x y z,
        before y x z,
      )
      place_comm x y (inr h) (z ∷ zs) = ground (
        arith,
        asym y x h,
        place_comm x y (inr h) zs,
        before z x y,
        before z y x,
        before x y z,
        before y x z,
      )

      pub sort-perm : {xs ys : List A} → Permᴰ xs ys → IsStrict xs → sort less xs ≡ sort less ys
      unfolding sort
      sort-perm nil h = refl
      sort-perm (cons {b} {l₁} e d) h =
          ap (λ x. place less x (sort less l₁)) e ∙ ap (place less b) (sort-perm d h.1)
      sort-perm (swap {a} {b} {a'} {b'} {l} e f) h =
          place_comm a b h.0.0 (sort less l)
          ∙ ap (λ x. place less x (place less a (sort less l))) f
          ∙ ap (λ x. place less a' (place less x (sort less l))) e
      sort-perm (trans d e) h = sort-perm d h ∙ sort-perm e (IsStrict-perm d h)
