-- ===== src/Base/Results.antt =====
-- Go errors as values, and calls that act on the outside world.
-- `World` is whatever the calls act on: the API server, the metrics registry, the object store.
use Prim.Native.String.{String}
use Prim.Native.String
use mathlib.Core.Path.{◌≡◌, refl}
use mathlib.Core.Logic.{◌⊎◌, inl, inr}
use mathlib.Core.Bool.{Bool, true, false}

-- The reasons of Kubernetes API errors that the program tells apart, and any other error.
pub data Reason : Type 0 where
  not_found already_exists invalid other : Reason

-- `fmt.Errorf("prefix: %w", err)` keeps the reason, which `errors.As` finds below the wrapping.
pub record Error : Type 0 where
  pub reason : Reason
  pub message : String

abbrev pub wrap : String → Error → Error
wrap prefix e = record e { message = String.◌++◌ prefix (String.◌++◌ ": " e.message) }

-- A Go `(A, error)` pair, or a run-time panic such as the read through a nil pointer.
pub data Result (A : Type 0) : Type 0 where
  ok : A → Result A
  err : Error → Result A
  panic : Result A

pub Result-cases :
    {A : Type 0} (r : Result A) → ((a : A) × (r ≡ ok a)) ⊎ ((e : Error) × (r ≡ err e)) ⊎ (r ≡ panic)
Result-cases (ok a) = inl (a, refl)
Result-cases (err e) = inr (inl (e, refl))
Result-cases panic = inr (inr refl)

abbrev pub Action : Type 0 → Type 0 → Type 0
Action W A = W → Result A × W

abbrev pub wrapping_result : {A : Type 0} → String → Result A → Result A
wrapping_result prefix (ok a) = ok a
wrapping_result prefix (err e) = err (wrap prefix e)
wrapping_result prefix panic = panic

module _ {W A : Type 0} where
  abbrev pub pure : A → Action W A
  pure a w = (ok a, w)

  abbrev pub throw : Error → Action W A
  throw e w = (err e, w)

  abbrev pub lift : Result A → Action W A
  lift r w = (r, w)

  -- `if err != nil { return fmt.Errorf("prefix: %w", err) }` around a call
  abbrev pub wrapping : String → Action W A → Action W A
  wrapping prefix m w = let (r, w') = m w in (wrapping_result prefix r, w')

module _ {W A B : Type 0} where
  abbrev pub and_then : Result A → (A → Action W B) → Action W B
  and_then (ok a) f = f a
  and_then (err e) f = throw e
  and_then panic f = lift panic

  infixl 5 ◌>>=◌ ◌>>◌
  abbrev pub ◌>>=◌ : Action W A → (A → Action W B) → Action W B
  ◌>>=◌ m f w = let (r, w') = m w in and_then r f w'

  abbrev pub ◌>>◌ : Action W A → Action W B → Action W B
  m >> n = m >>= λ _. n

  -- The result is looked at by the caller, an error too; a panic goes on.
  abbrev pub handle : Result A → (Error → Action W B) → (A → Action W B) → Action W B
  handle (ok a) on_error f = f a
  handle (err e) on_error f = on_error e
  handle panic on_error f = lift panic

  abbrev pub attempt : Action W A → (Error → Action W B) → (A → Action W B) → Action W B
  attempt m on_error f w = let (r, w') = m w in handle r on_error f w'

-- A call that changes the world and cannot fail.
abbrev pub modify : {W : Type 0} → (W → W) → Action W Unit
modify f w = (ok tt, f w)

abbrev pub is_not_found : Reason → Bool
is_not_found not_found = true
is_not_found _ = false
