-- ===== src/Base/Loops.antt =====
-- The loops of the program over a ticker and the end of their context:
-- `for { select { case <-ctx.Done(): return nil; case <-ticker.C: … } }`.
use mathlib.Core.Path.{◌≡◌, refl}
use mathlib.Core.Logic.{◌≢◌, inl, inr}
use tsdb_operator.Base.Lists.{Any}
use mathlib.Core.Option.{Option, none, some}
use mathlib.Core.List.{List, [], ◌∷◌}
use tsdb_operator.Base.Results.{Result, ok, err, panic, Action}
use tsdb_operator.Base.Hoare.{Keeps}

pub data Wake : Type 0 where
  ticked cancelled : Wake

ticked-ne-cancelled : ticked ≢ cancelled
ticked-ne-cancelled e = cc

-- `none` for a loop that still runs. The body logs its errors.
abbrev pub Looping : Type 0 → Type 0
Looping W = W → Option (Result Unit) × W

module _ {W : Type 0} where
  abbrev pub go_on : Looping W → Result Unit × W → Option (Result Unit) × W
  go_on rest (ok a, w) = rest w
  go_on rest (err e, w) = rest w
  go_on rest (panic, w) = (some panic, w)

  -- The loop over what wakes it, in order.
  unfoldable pub ticker_loop : Action W Unit → List Wake → Looping W
  ticker_loop body [] w = (none, w)
  ticker_loop body (cancelled ∷ wakes) w = (some (ok tt), w)
  ticker_loop body (ticked ∷ wakes) w = go_on (ticker_loop body wakes) (body w)

  module _ (P : W → Type 0) where
    go_on-Keeps :
        (rest : Looping W) (x : Result Unit × W)
        → ((w : W) → P w → P (rest w).1)
        → P x.1
        → P (go_on rest x).1
    go_on-Keeps rest (ok a, w) h p = h w p
    go_on-Keeps rest (err e, w) h p = h w p
    go_on-Keeps rest (panic, w) h p = p

    -- What the body keeps, the loop keeps, however often it is woken.
    pub ticker_loop-Keeps :
        (body : Action W Unit)
        → Keeps P body
        → (wakes : List Wake) (w : W) → P w
        → P (ticker_loop body wakes w).1
    unfolding ticker_loop
    ticker_loop-Keeps body keep [] w p = p
    ticker_loop-Keeps body keep (cancelled ∷ wakes) w p = p
    ticker_loop-Keeps body keep (ticked ∷ wakes) w p =
        go_on-Keeps (ticker_loop body wakes) (body w) (ticker_loop-Keeps body keep wakes) (keep w p)

  go_on-ends :
      (rest : Looping W) (x : Result Unit × W)
      → x.0 ≢ panic
      → ((w : W) → (rest w).0 ≡ some (ok tt))
      → (go_on rest x).0 ≡ some (ok tt)
  go_on-ends rest (ok a, w) h k = k w
  go_on-ends rest (err e, w) h k = k w
  go_on-ends rest (panic, w) h k = absurd (h refl)

  -- With a body that does not panic, the loop ends without an error once its context is over.
  pub ticker_loop-ends :
      (body : Action W Unit)
      → ((w : W) → (body w).0 ≢ panic)
      → (wakes : List Wake) (w : W) → Any (λ k. k ≡ cancelled) wakes
      → (ticker_loop body wakes w).0 ≡ some (ok tt)
  unfolding ticker_loop
  ticker_loop-ends body h [] w m = elim m [ ]
  ticker_loop-ends body h (cancelled ∷ wakes) w m = refl
  ticker_loop-ends body h (ticked ∷ wakes) w (inl e) = absurd (ticked-ne-cancelled e)
  ticker_loop-ends body h (ticked ∷ wakes) w (inr m) =
      go_on-ends (ticker_loop body wakes) (body w) (h w) (λ v. ticker_loop-ends body h wakes v m)
