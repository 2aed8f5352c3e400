-- ===== src/Base/Total.antt =====
-- Proof rules for actions that succeed in every world.
use mathlib.Core.Path.{◌≡◌, refl}
use mathlib.Core.Logic.{◌⊎◌, inl, inr}
use mathlib.Core.Bool.{Bool, true, false}
use Prim.Native.String.{String}
use tsdb_operator.Base.Tests.{if◌then◌else◌}
use tsdb_operator.Base.Results.{
  Error, Result, ok, err, Action, wrapping, ◌>>=◌, attempt, pure, lift, modify,
}

module _ {W A : Type 0} where
  -- The action succeeds, with a value for which `R` holds.
  abbrev pub Returns : Action W A → (A → Type 0) → Type 0
  Returns m R = (w : W) → (a : A) × (w' : W) × (m w ≡ (ok a, w')) × R a

  pub wrapping-Returns :
      (prefix : String) (m : Action W A) (R : A → Type 0)
      → Returns m R
      → Returns (wrapping prefix m) R
  wrapping-Returns prefix m R h w = let (a, w', q, r) = h w in (a, w', rw q refl, r)

  pub pure-Returns : (a : A) (R : A → Type 0) → R a → Returns (pure a) R
  pure-Returns a R r w = (a, w, refl, r)

  pub lift-Returns : (x : Result A) (a : A) (R : A → Type 0) → x ≡ ok a → R a → Returns (lift x) R
  lift-Returns x a R q r w = (a, w, rw q refl, r)

  pub if-Returns :
      (b : Bool) (m n : Action W A) (R : A → Type 0)
      → Returns m R
      → Returns n R
      → Returns (if b then m else n) R
  if-Returns true m n R h k = h
  if-Returns false m n R h k = k

  pub if-Returns-known :
      (b : Bool) (m n : Action W A) (R : A → Type 0)
      → (b ≡ true → Returns m R)
      → (b ≡ false → Returns n R)
      → Returns (if b then m else n) R
  if-Returns-known true m n R h k = h refl
  if-Returns-known false m n R h k = k refl

module _ {W A B : Type 0} where
  pub bind-Returns :
      (m : Action W A) (R : A → Type 0) (f : A → Action W B) (S : B → Type 0)
      → Returns m R
      → ((a : A) → R a → Returns (f a) S)
      → Returns (m >>= f) S
  bind-Returns m R f S h k w =
      let (a, w₁, q, r) = h w in let (b, w₂, q', s) = k a r w₁ in (b, w₂, rw (q, q') refl, s)

  -- The call succeeds, or it fails with an error that is dealt with.
  pub attempt-Returns :
      (m : Action W A) (R : A → Type 0) (E : Error → Type 0) (g : Error → Action W B)
      (f : A → Action W B) (S : B → Type 0)
      → ((w : W)
          → ((a : A) × (w' : W) × (m w ≡ (ok a, w')) × R a)
            ⊎ ((e : Error) × (w' : W) × (m w ≡ (err e, w')) × E e))
      → ((e : Error) → E e → Returns (g e) S)
      → ((a : A) → R a → Returns (f a) S)
      → Returns (attempt m g f) S
  attempt-Returns m R E g f S h kg kf w = elim (h w) [
    | inl (a, w₁, q, r) ↦ let (b, w₂, q', s) = kf a r w₁ in (b, w₂, rw (q, q') refl, s)
    | inr (e, w₁, q, r) ↦ let (b, w₂, q', s) = kg e r w₁ in (b, w₂, rw (q, q') refl, s)
  ]

pub modify-Returns : {W : Type 0} (f : W → W) (R : Unit → Type 0) → R tt → Returns (modify f) R
modify-Returns f R r w = (tt, f w, refl, r)
