-- ===== src/Backups/Stream/Agreed.antt =====
-- The outcome does not depend on the order in which the two goroutines take their steps.
use tsdb_operator.Base.{
  ℕ, zero, suc, ◌≤◌, ◌≡◌, ◌≢◌, refl, sym, ap, ◌∙◌, subst, Option, some, List, arith, ◌⊎◌, inl, inr,
  Error, Option-cases,
}
use tsdb_operator.Backups.Stream.{
  Command, writes, returns, Read, Asked, asks, ends, Uploader, Worker, running, writing, closing,
  sending, gone, Caller, uploading, uploaded, waiting, finished, State, start, worker_step,
  read_from, asked, received, sent, caller_step, of_worker, of_caller, step, Run, here, next,
}
use tsdb_operator.Backups.Stream.Laws.{UploadLaws, OnSome, OnSome-some, at}
use tsdb_operator.Backups.Stream.Ends.{step_bound, remaining, IsOver, step-Less, moves, Run-ends}
use tsdb_operator.Backups.Stream.Driven.{
  or_else, or_stay, in_turn, drive, IsStuck, drive-IsStuck, Run-drive,
}

module _ {Byte : Type 0} (u : Uploader Byte) where
  -- The caller returns only after the worker has sent its error and is gone.
  abbrev HasSent : Worker Byte → Caller Byte → Type 0
  HasSent w (finished e put) = w ≡ gone e
  HasSent w _ = Unit

  abbrev IsSent : State Byte → Type 0
  IsSent s = HasSent s.worker s.caller

  going-HasSent :
      (w w' : Worker Byte) (k : Caller Byte)
      → ((e : Option Error) → w ≢ gone e)
      → HasSent w k
      → HasSent w' k
  going-HasSent w w' (uploading reads) n h = tt
  going-HasSent w w' (uploaded put) n h = tt
  going-HasSent w w' (waiting put) n h = tt
  going-HasSent w w' (finished e put) n h = absurd (n e h)

  worker_step-IsSent :
      (w : Worker Byte) (k : Caller Byte) (o : Option (List Byte))
      → HasSent w k
      → OnSome IsSent (worker_step w (at w k o))
  unfolding worker_step
  worker_step-IsSent (running (writes b a r)) k o h = going-HasSent _ _ k (λ e x. cc) h
  worker_step-IsSent (running (returns e)) k o h = going-HasSent _ _ k (λ e x. cc) h
  worker_step-IsSent (writing b a r) (uploading reads) o h = tt
  worker_step-IsSent (writing b a r) (uploaded put) o h = tt
  worker_step-IsSent (writing b a r) (waiting put) o h = tt
  worker_step-IsSent (writing b a r) (finished e put) o h = absurd cc
  worker_step-IsSent (closing e) k o h = going-HasSent _ _ k (λ e x. cc) h
  worker_step-IsSent (sending e) k o h = going-HasSent _ _ k (λ e x. cc) h
  worker_step-IsSent (gone e) k o h = tt

  read_from-IsSent :
      (w : Worker Byte) (room : ℕ) (reads : List (Read Byte)) (o : Option (List Byte))
      → OnSome IsSent (read_from w room reads (at w (uploading reads) o))
  read_from-IsSent (running c) room reads o = tt
  read_from-IsSent (writing b a r) room reads o = tt
  read_from-IsSent (closing e) room reads o = tt
  read_from-IsSent (sending e) room reads o = tt
  read_from-IsSent (gone e) room reads o = tt

  asked-IsSent :
      (a : Asked Byte) (w : Worker Byte) (reads : List (Read Byte)) (o : Option (List Byte))
      → OnSome IsSent (asked a reads (at w (uploading reads) o))
  asked-IsSent (asks room) w reads o = read_from-IsSent w room reads o
  asked-IsSent (ends put object) w reads o = tt

  received-IsSent :
      (w : Worker Byte) (put : Option Error) (o : Option (List Byte))
      → OnSome IsSent (received (sent w) put (at w (waiting put) o))
  received-IsSent (running c) put o = tt
  received-IsSent (writing b a r) put o = tt
  received-IsSent (closing e) put o = tt
  received-IsSent (sending e) put o = tt
  received-IsSent (gone e) put o = refl

  caller_step-IsSent :
      (w : Worker Byte) (k : Caller Byte) (o : Option (List Byte))
      → OnSome IsSent (caller_step u k (at w k o))
  unfolding caller_step
  caller_step-IsSent w (uploading reads) o = asked-IsSent (u reads) w reads o
  caller_step-IsSent w (uploaded put) o = tt
  caller_step-IsSent w (waiting put) o = received-IsSent w put o
  caller_step-IsSent w (finished e put) o = tt

  Run-IsSent : {s t : State Byte} {n : ℕ} → IsSent s → Run u s n t → IsSent t
  unfolding step
  Run-IsSent h here = h
  Run-IsSent {s} h (next of_worker e run) =
      Run-IsSent (OnSome-some IsSent e (worker_step-IsSent s.worker s.caller s.stored h)) run
  Run-IsSent {s} h (next of_caller e run) =
      Run-IsSent (OnSome-some IsSent e (caller_step-IsSent s.worker s.caller s.stored)) run

  over-IsStuck :
      (w : Worker Byte) (k : Caller Byte) (o : Option (List Byte))
      → HasSent w k
      → IsOver u (at w k o)
      → IsStuck u (at w k o)
  unfolding step worker_step caller_step
  over-IsStuck w (uploading reads) o h (r, e) = absurd cc
  over-IsStuck w (uploaded put) o h (r, e) = absurd cc
  over-IsStuck w (waiting put) o h (r, e) = absurd cc
  over-IsStuck w (finished e put) o h over =
      (ap (λ x. worker_step x (at x (finished e put) o)) h, refl)

  module _ (laws : UploadLaws u) where
    stuck-IsOver : (s : State Byte) → IsStuck u s → IsOver u s
    stuck-IsOver s h = elim (moves u s.worker s.caller s.stored) [
      | inl over ↦ over
      | inr (of_worker, t, e) ↦ absurd cc
      | inr (of_caller, t, e) ↦ absurd cc
    ]

    in_turn-cases :
        (s : State Byte)
        → IsStuck u s
          ⊎ ((v : State Byte) × (in_turn u s ≡ some v) × (suc (remaining v) ≤ remaining s))
    in_turn-cases s = elim (Option-cases (step u of_worker s)) [
      | inr (v, e) ↦
          inr (v, ap (λ x. or_else x (step u of_caller s)) e, step-Less u laws of_worker s v e)
      | inl blocked ↦ elim (Option-cases (step u of_caller s)) [
        | inr (v, e) ↦ inr (
          v,
          ap (λ x. or_else x (step u of_caller s)) blocked ∙ e,
          step-Less u laws of_caller s v e,
        )
        | inl done ↦ inl (blocked, done)
      ]
    ]

    drive-IsOver : (k : ℕ) (s : State Byte) → remaining s ≤ k → IsOver u (drive u k s)
    unfolding drive
    drive-IsOver zero s h = elim (in_turn-cases s) [
      | inl stuck ↦ stuck-IsOver s stuck
      | inr (v, e, less) ↦ absurd (omega (arith, less))
    ]
    drive-IsOver (suc k) s h = elim (in_turn-cases s) [
      | inl stuck ↦ subst (IsOver u) (sym (drive-IsStuck u (suc k) s stuck)) (stuck-IsOver s stuck)
      | inr (v, e, less) ↦
          subst (λ x. IsOver u (drive u k (or_stay x s))) (sym e)
            (drive-IsOver k v (omega (arith, less)))
    ]

    pub drive-ends : (c : Command Byte) → IsOver u (drive u (step_bound c) (start c))
    drive-ends c = drive-IsOver (step_bound c) (start c) (omega arith)

    -- In whatever order the two goroutines take their steps, once the caller has returned they are in
    -- the state in which the order ends that lets the worker go first as often as it can. The upload
    -- is relied on to read with some room and to stop reading at the end.
    pub Run-agrees :
        (c : Command Byte) {n : ℕ} {s : State Byte}
        → Run u (start c) n s
        → IsOver u s
        → s ≡ drive u (step_bound c) (start c)
    Run-agrees c {s} run over = sym (
        Run-drive u (step_bound c) (Run-ends u laws c run).0 run
          (over-IsStuck s.worker s.caller s.stored (Run-IsSent tt run) over))
