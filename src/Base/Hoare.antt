-- ===== src/Base/Hoare.antt =====
-- Proof rules for actions: what a call keeps whatever its outcome, and what holds when it succeeds.
use mathlib.Core.Path.{◌≡◌, refl, sym, ap, ◌∙◌, subst, subst₂}
use mathlib.Core.Logic.{◌≢◌}
use mathlib.Core.Bool.{Bool, true, false}
use Prim.Native.String.{String}
use tsdb_operator.Base.Tests.{if◌then◌else◌}
use tsdb_operator.Base.Results.{
  Error, Result, ok, err, panic, Action, wrapping, wrapping_result, and_then, ◌>>=◌, handle,
  attempt, pure, lift, modify,
}

module _ {W : Type 0} (P : W → Type 0) where
  -- `P` survives the action, on every outcome.
  abbrev pub Keeps : {A : Type 0} → Action W A → Type 0
  Keeps m = (w : W) → P w → P (m w).1

  pub and_then-Keeps :
      {A B : Type 0} (r : Result A) (f : A → Action W B) (w : W)
      → ((a : A) → Keeps (f a))
      → P w
      → P (and_then r f w).1
  and_then-Keeps (ok a) f w h p = h a w p
  and_then-Keeps (err e) f w h p = p
  and_then-Keeps panic f w h p = p

  pub bind-Keeps :
      {A B : Type 0} (m : Action W A) (f : A → Action W B)
      → Keeps m
      → ((a : A) → Keeps (f a))
      → Keeps (m >>= f)
  bind-Keeps m f h k w p = and_then-Keeps (m w).0 f (m w).1 k (h w p)

  -- The same, when what follows may rely on where its argument comes from.
  pub bind-Keeps-known :
      {A B : Type 0} (m : Action W A) (f : A → Action W B)
      → Keeps m
      → ((a : A) → (w w' : W) × (m w ≡ (ok a, w')) → Keeps (f a))
      → Keeps (m >>= f)
  bind-Keeps-known {A} {B} m f h k w p = go (m w) refl
    where
      go : (x : Result A × W) → m w ≡ x → P (and_then x.0 f x.1).1
      go (ok a, w₁) q = k a (w, w₁, q) w₁ (subst (λ y. P y.1) q (h w p))
      go (err e, w₁) q = subst (λ y. P y.1) q (h w p)
      go (panic, w₁) q = subst (λ y. P y.1) q (h w p)

  pub wrapping-Keeps :
      {A : Type 0} (prefix : String) (m : Action W A) → Keeps m → Keeps (wrapping prefix m)
  wrapping-Keeps prefix m h w p = h w p

  pub handle-Keeps :
      {A B : Type 0} (r : Result A) (g : Error → Action W B) (f : A → Action W B) (w : W)
      → ((e : Error) → Keeps (g e))
      → ((a : A) → Keeps (f a))
      → P w
      → P (handle r g f w).1
  handle-Keeps (ok a) g f w hg hf p = hf a w p
  handle-Keeps (err e) g f w hg hf p = hg e w p
  handle-Keeps panic g f w hg hf p = p

  pub attempt-Keeps :
      {A B : Type 0} (m : Action W A) (g : Error → Action W B) (f : A → Action W B)
      → Keeps m
      → ((e : Error) → Keeps (g e))
      → ((a : A) → Keeps (f a))
      → Keeps (attempt m g f)
  attempt-Keeps m g f h hg hf w p = handle-Keeps (m w).0 g f (m w).1 hg hf (h w p)

  pub if-Keeps :
      {A : Type 0} (b : Bool) (m n : Action W A) → Keeps m → Keeps n → Keeps (if b then m else n)
  if-Keeps true m n h k = h
  if-Keeps false m n h k = k

  -- The same as `Keeps`, of the pair that the action answers with: its rules find the actions that
  -- they are about in the goal.
  abbrev pub Guards : {A : Type 0} → Action W A → Type 0
  Guards {A} m = (w : W) → P w → (x : Result A × W) → m w ≡ x → P x.1

  pub Guards-Keeps : {A : Type 0} (m : Action W A) → Guards m → Keeps m
  Guards-Keeps m h w p = h w p (m w) refl

  pub Keeps-Guards : {A : Type 0} (m : Action W A) → Keeps m → Guards m
  Keeps-Guards m h w p x e = subst (λ y. P y.1) e (h w p)

  pub bind-Guards :
      {A B : Type 0} (m : Action W A) (f : A → Action W B)
      → Guards m
      → ((a : A) → Guards (f a))
      → Guards (m >>= f)
  bind-Guards m f h k =
      Keeps-Guards (m >>= f) (bind-Keeps m f (Guards-Keeps m h) (λ a. Guards-Keeps (f a) (k a)))

  pub wrapping-Guards :
      {A : Type 0} (prefix : String) (m : Action W A) → Keeps m → Guards (wrapping prefix m)
  wrapping-Guards prefix m h = Keeps-Guards (wrapping prefix m) (wrapping-Keeps prefix m h)

  pub attempt-Guards :
      {A B : Type 0} (m : Action W A) (g : Error → Action W B) (f : A → Action W B)
      → Keeps m
      → ((e : Error) → Guards (g e))
      → ((a : A) → Guards (f a))
      → Guards (attempt m g f)
  attempt-Guards m g f h hg hf =
      Keeps-Guards (attempt m g f)
        (attempt-Keeps m g f h (λ e. Guards-Keeps (g e) (hg e)) (λ a. Guards-Keeps (f a) (hf a)))

  pub pure-Guards : {A : Type 0} (a : A) → Guards (pure a)
  pure-Guards a = Keeps-Guards (pure a) (λ w p. p)

  pub if-Guards :
      {A : Type 0} (b : Bool) (m n : Action W A) → Guards m → Guards n → Guards (if b then m else n)
  if-Guards true m n h k = h
  if-Guards false m n h k = k

module _ {W : Type 0} where
  -- From `P`, if the action succeeds, `R` holds of its value and the world that it leaves.
  abbrev pub Yields : {A : Type 0} → (W → Type 0) → Action W A → (A → W → Type 0) → Type 0
  Yields {A} P m R = (w : W) → P w → (a : A) (w' : W) → m w ≡ (ok a, w') → R a w'

  pub bind-Yields :
      {A B : Type 0} (P : W → Type 0) (m : Action W A) (R : A → W → Type 0) (f : A → Action W B)
      (S : B → W → Type 0)
      → Yields P m R
      → ((a : A) → Yields (R a) (f a) S)
      → Yields P (m >>= f) S
  bind-Yields {A} P m R f S h k w p b w' e = go (m w) refl e
    where
      go : (x : Result A × W) → m w ≡ x → and_then x.0 f x.1 ≡ (ok b, w') → S b w'
      go (ok a, w₁) q e' = k a w₁ (h w p a w₁ q) b w' e'
      go (err x, w₁) q e' = cc
      go (panic, w₁) q e' = cc

  pub wrapping-Yields :
      {A : Type 0} (P : W → Type 0) (prefix : String) (m : Action W A) (R : A → W → Type 0)
      → Yields P m R
      → Yields P (wrapping prefix m) R
  wrapping-Yields {A} P prefix m R h w p a w' e = go (m w) refl e
    where
      go :
          (x : Result A × W)
          → m w ≡ x
          → ◌≡◌ {A = Result A × W} (wrapping_result prefix x.0, x.1) (ok a, w')
          → R a w'
      go (ok b, w₁) q e' = h w p a w' (q ∙ e')
      go (err x, w₁) q e' = cc
      go (panic, w₁) q e' = cc

  pub Keeps-Yields :
      {A : Type 0} (P : W → Type 0) (m : Action W A) → Keeps P m → Yields P m (λ _. P)
  Keeps-Yields P m keep w p a w' q = subst (λ x. P x.1) q (keep w p)

  pub attempt-Yields :
      {A B : Type 0} (P : W → Type 0) (m : Action W A) (E : Error → W → Type 0) (R : A → W → Type 0)
      (g : Error → Action W B) (f : A → Action W B) (S : B → W → Type 0)
      → ((w : W) → P w → (e : Error) (w' : W) → m w ≡ (err e, w') → E e w')
      → Yields P m R
      → ((e : Error) → Yields (E e) (g e) S)
      → ((a : A) → Yields (R a) (f a) S)
      → Yields P (attempt m g f) S
  attempt-Yields {A} P m E R g f S he h kg kf w p b w' e = go (m w) refl e
    where
      go : (x : Result A × W) → m w ≡ x → handle x.0 g f x.1 ≡ (ok b, w') → S b w'
      go (ok a, w₁) q e' = kf a w₁ (h w p a w₁ q) b w' e'
      go (err x, w₁) q e' = kg x w₁ (he w p x w₁ q) b w' e'
      go (panic, w₁) q e' = cc

  -- The same for an action that keeps `P` whatever its outcome.
  pub attempt-Kept-Yields :
      {A B : Type 0} (P : W → Type 0) (m : Action W A) (g : Error → Action W B) (f : A → Action W B)
      (S : B → W → Type 0)
      → Keeps P m
      → ((e : Error) → Yields P (g e) S)
      → ((a : A) → Yields P (f a) S)
      → Yields P (attempt m g f) S
  attempt-Kept-Yields P m g f S keep =
      attempt-Yields P m (λ _. P) (λ _. P) g f S (λ w p e w' q. subst (λ x. P x.1) q (keep w p))
        (λ w p a w' q. subst (λ x. P x.1) q (keep w p))

  -- From one world: both continuations start in the world that the call leaves.
  pub attempt-From-Yields :
      {A B : Type 0} (w : W) (m : Action W A) (g : Error → Action W B) (f : A → Action W B)
      (S : B → W → Type 0)
      → ((e : Error) → Yields (λ v. v ≡ (m w).1) (g e) S)
      → ((a : A) → Yields (λ v. v ≡ (m w).1) (f a) S)
      → Yields (λ v. v ≡ w) (attempt m g f) S
  attempt-From-Yields {A} w m g f S kg kf =
      attempt-Yields (λ v. v ≡ w) m (λ _ v. v ≡ (m w).1) (λ _ v. v ≡ (m w).1) g f S
        (λ v at e v' p. sym (ap (λ (x : Result A × W). x.1) p) ∙ ap (λ x. (m x).1) at)
        (λ v at a v' p. sym (ap (λ (x : Result A × W). x.1) p) ∙ ap (λ x. (m x).1) at) kg kf

  pub pure-Yields :
      {A : Type 0} (P : W → Type 0) (a : A) (R : A → W → Type 0)
      → ((w : W) → P w → R a w)
      → Yields P (pure a) R
  pure-Yields P a R h w p b w' e =
      let same : a ≡ b = cc in let at : w ≡ w' = cc in subst₂ R same at (h w p)

  pub lift-Yields :
      {A : Type 0} (P : W → Type 0) (r : Result A) → Yields P (lift r) (λ a w. P w × (r ≡ ok a))
  lift-Yields P r w p b w' e =
      let same : r ≡ ok b = cc in let at : w ≡ w' = cc in (subst P at p, same)

  pub modify-Yields :
      (P Q : W → Type 0) (f : W → W) → ((w : W) → P w → Q (f w)) → Yields P (modify f) (λ _. Q)
  modify-Yields P Q f h w p b w' e = let at : f w ≡ w' = cc in subst Q at (h w p)

  pub if-Yields :
      {A : Type 0} (P : W → Type 0) (b : Bool) (m n : Action W A) (R : A → W → Type 0)
      → (b ≡ true → Yields P m R)
      → (b ≡ false → Yields P n R)
      → Yields P (if b then m else n) R
  if-Yields P true m n R h k = h refl
  if-Yields P false m n R h k = k refl

-- What follows an action that does not succeed is not run.
pub bind-stops :
    {W A B : Type 0} (P : W → Type 0) (m : Action W A) (f : A → Action W B)
    → Keeps P m
    → Yields P m (λ _ _. ⊥)
    → (w : W) → P w
    → P ((m >>= f) w).1 × ((b : B) → (((m >>= f) w).0 ≢ ok b))
bind-stops {W} {A} {B} P m f keep never w p = go (m w) refl
  where
    go :
        (x : Result A × W)
        → m w ≡ x
        → P (and_then x.0 f x.1).1 × ((b : B) → (and_then x.0 f x.1).0 ≢ ok b)
    go (ok a, w₁) q = absurd (never w p a w₁ q)
    go (err e, w₁) q = (subst (λ y. P y.1) q (keep w p), λ b e'. cc)
    go (panic, w₁) q = (subst (λ y. P y.1) q (keep w p), λ b e'. cc)
