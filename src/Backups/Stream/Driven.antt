-- ===== src/Backups/Stream/Driven.antt =====
-- The worker first, then the caller: every run to an end comes to where this order does.
use tsdb_operator.Base.{
  ℕ, zero, suc, ◌≤◌, ◌≡◌, refl, sym, ap, ◌∙◌, subst, Option, none, some, arith, inl, inr,
  Option-cases,
}
use mathlib.Core.Option.{some_inj}
use tsdb_operator.Backups.Stream.{Uploader, State, of_worker, of_caller, step, Run, here, next}
use tsdb_operator.Backups.Stream.Diamond.{joins}

abbrev pub or_else : {A : Type 0} → Option A → Option A → Option A
or_else none o = o
or_else (some a) o = some a

abbrev pub or_stay : {A : Type 0} → Option A → A → A
or_stay none a = a
or_stay (some b) a = b

module _ {Byte : Type 0} (u : Uploader Byte) where
  -- The goroutine that runs the command goes first; the caller steps when that one cannot.
  abbrev pub in_turn : State Byte → Option (State Byte)
  in_turn s = or_else (step u of_worker s) (step u of_caller s)

  -- So many steps taken in that order, fewer if neither can go on.
  unfoldable pub drive : ℕ → State Byte → State Byte
  drive zero s = s
  drive (suc n) s = drive n (or_stay (in_turn s) s)

  -- Neither can take a step.
  abbrev pub IsStuck : State Byte → Type 0
  IsStuck s = (step u of_worker s ≡ none) × (step u of_caller s ≡ none)

  -- A run to the end that did not begin with the worker's step can be reordered to do so.
  ahead :
      {s t a : State Byte} {n : ℕ}
      → Run u s n t
      → IsStuck t
      → step u of_worker s ≡ some a
      → (m : ℕ) × (n ≡ suc m) × Run u a m t
  ahead here stuck p = absurd cc
  ahead {t} {a} (next {n = m} of_worker e run) stuck p =
      (m, refl, subst (λ x. Run u x m t) (some_inj.0 (sym e ∙ p)) run)
  ahead {t} {a} (next {n = m} of_caller e run) stuck p =
      let (v, by_caller, by_worker) = joins u _ _ _ p e in
      let (k, its, rest) = ahead run stuck by_worker in
      (m, refl, subst (λ j. Run u a j t) (sym its) (next of_caller by_caller rest))

  pub drive-IsStuck : (k : ℕ) (s : State Byte) → IsStuck s → drive k s ≡ s
  unfolding drive
  drive-IsStuck zero s h = refl
  drive-IsStuck (suc k) s h =
      ap (λ x. drive k (or_stay (or_else x (step u of_caller s)) s)) h.0
      ∙ ap (λ x. drive k (or_stay x s)) h.1
      ∙ drive-IsStuck k s h

  driven_by :
      (s v : State Byte) (k : ℕ) (t : State Byte)
      → in_turn s ≡ some v
      → drive k v ≡ t
      → drive (suc k) s ≡ t
  unfolding drive
  driven_by s v k t e h = ap (λ x. drive k (or_stay x s)) e ∙ h

  pub Run-drive :
      (k : ℕ) {s t : State Byte} {n : ℕ} → n ≤ k → Run u s n t → IsStuck t → drive k s ≡ t
  unfolding drive
  Run-drive k {s} h here stuck = drive-IsStuck k s stuck
  Run-drive zero h (next turn e run) stuck = absurd (omega arith)
  Run-drive (suc k) {s} {t} h (next of_worker e run) stuck =
      driven_by _ _ k t (ap (λ x. or_else x (step u of_caller s)) e)
        (Run-drive k (omega arith) run stuck)
  Run-drive (suc k) {s} {t} h (next of_caller e run) stuck =
      elim (Option-cases (step u of_worker s)) [
        | inl blocked ↦
            driven_by _ _ k t (ap (λ x. or_else x (step u of_caller s)) blocked ∙ e)
              (Run-drive k (omega arith) run stuck)
        | inr (a, p) ↦
            let (m, its, rest) = ahead (next of_caller e run) stuck p in
            driven_by _ _ k t (ap (λ x. or_else x (step u of_caller s)) p)
              (Run-drive k (omega (arith, its)) rest stuck)
      ]
