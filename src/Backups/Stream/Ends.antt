-- ===== src/Backups/Stream/Ends.antt =====
-- The two goroutines never block each other, and end.
use tsdb_operator.Base.{
  ℕ, zero, suc, ◌+◌, ◌≤◌, ◌≡◌, refl, Option, none, some, List, [], ◌∷◌, drop, take, length, arith,
  true, Result, ◌⊎◌, inl, inr, Error, length-drop,
}
use tsdb_operator.Backups.Stream.{
  Command, writes, returns, Read, got, ended, asks, Uploader, Worker, running, writing, closing,
  sending, gone, Caller, uploading, uploaded, waiting, finished, State, start, answer, is_closed,
  written, worker_step, read_from, caller_step, Turn, of_worker, of_caller, step, Run, here, next,
}
use tsdb_operator.Backups.Stream.Laws.{ending, UploadLaws, Asked-cases, OnSome, OnSome-some, at}

abbrev read_todo : Option (Option Error) → ℕ
read_todo none = 4
read_todo (some e) = 3

ended-todo : (e : Option (Option Error)) → 3 ≤ read_todo e
ended-todo none = omega arith
ended-todo (some e) = omega arith

module _ {Byte : Type 0} where
  -- An upper bound of the steps that a command leads to.
  abbrev todo : Command Byte → ℕ
  todo (writes chunk a r) = 2 + length chunk + todo a + todo r
  todo (returns e) = 3

  abbrev worker_todo : Worker Byte → ℕ
  worker_todo (running c) = todo c
  worker_todo (writing b a r) = 1 + length b + todo a + todo r
  worker_todo (closing e) = 2
  worker_todo (sending e) = 1
  worker_todo (gone e) = 0

  abbrev caller_todo : Caller Byte → ℕ
  caller_todo (uploading reads) = read_todo (ending reads)
  caller_todo (uploaded put) = 2
  caller_todo (waiting put) = 1
  caller_todo (finished e put) = 0

  abbrev pub remaining : State Byte → ℕ
  remaining s = worker_todo s.worker + caller_todo s.caller

  -- Enough steps for everything, by what the command writes.
  abbrev pub step_bound : Command Byte → ℕ
  step_bound c = todo c + 4

  abbrev pub Less : State Byte → State Byte → Type 0
  Less s t = suc (remaining t) ≤ remaining s

  worker_step-Less :
      (w : Worker Byte) (k : Caller Byte) (o : Option (List Byte))
      → OnSome (Less (at w k o)) (worker_step w (at w k o))
  unfolding worker_step
  worker_step-Less (running (writes b a r)) k o = omega arith
  worker_step-Less (running (returns e)) k o = omega arith
  worker_step-Less (writing b a r) (uploading reads) o = tt
  worker_step-Less (writing b a r) (uploaded put) o = tt
  worker_step-Less (writing b a r) (waiting put) o = omega arith
  worker_step-Less (writing b a r) (finished e put) o = omega arith
  worker_step-Less (closing e) k o = omega arith
  worker_step-Less (sending e) k o = omega arith
  worker_step-Less (gone e) k o = tt

  written-todo :
      (l : List Byte) (a r : Command Byte)
      → worker_todo (written l a r) ≤ 1 + length l + todo a + todo r
  written-todo [] a r = omega arith
  written-todo (x ∷ l) a r = omega arith

  copied-todo :
      (room : ℕ) (b : List Byte) (a r : Command Byte)
      → 1 ≤ room
      → suc (worker_todo (written (drop room b) a r)) ≤ 1 + length b + todo a + todo r
  copied-todo room [] a r h = omega arith
  copied-todo zero (x ∷ b) a r h = absurd (omega arith)
  copied-todo (suc room) (x ∷ b) a r h =
      omega (arith, written-todo (drop room b) a r, length-drop room b)

  module _ (u : Uploader Byte) where
    abbrev pub CanMove : State Byte → Type 0
    CanMove s = (turn : Turn) × (t : State Byte) × (step u turn s ≡ some t)

    -- The caller has returned.
    abbrev pub IsOver : State Byte → Type 0
    IsOver s = (r : Result Unit) × (answer s.caller ≡ some r)

    module _ (laws : UploadLaws u) where
      read_from-Less :
          (w : Worker Byte) (room : ℕ) (reads : List (Read Byte)) (o : Option (List Byte))
          → (1 ≤ room) × (ending reads ≡ none)
          → OnSome
              (Less (at w (uploading reads) o))
              (read_from w room reads (at w (uploading reads) o))
      read_from-Less (running c) room reads o h = tt
      read_from-Less (writing b a r) room reads o (some_room, unended) =
          rw unended (omega (arith, copied-todo room b a r some_room))
      read_from-Less (closing e) room reads o h = tt
      read_from-Less (sending e) room reads o h = rw h.1 (omega arith)
      read_from-Less (gone e) room reads o h = rw h.1 (omega arith)

      caller_step-Less :
          (w : Worker Byte) (k : Caller Byte) (o : Option (List Byte))
          → OnSome (Less (at w k o)) (caller_step u k (at w k o))
      unfolding caller_step
      caller_step-Less w (uploading reads) o = elim (Asked-cases (u reads)) [
        | inl (room, e) ↦ rw e (read_from-Less w room reads o (laws.reads_some reads room e))
        | inr (put, object, e) ↦ rw e (omega (arith, ended-todo (ending reads)))
      ]
      caller_step-Less w (uploaded put) o = omega arith
      caller_step-Less (gone e) (waiting put) o = omega arith
      caller_step-Less (running c) (waiting put) o = tt
      caller_step-Less (writing b a r) (waiting put) o = tt
      caller_step-Less (closing e) (waiting put) o = tt
      caller_step-Less (sending e) (waiting put) o = tt
      caller_step-Less w (finished e put) o = tt

      pub step-Less : (turn : Turn) (s t : State Byte) → step u turn s ≡ some t → Less s t
      unfolding step
      step-Less of_worker s t e =
          OnSome-some (Less s) e (worker_step-Less s.worker s.caller s.stored)
      step-Less of_caller s t e =
          OnSome-some (Less s) e (caller_step-Less s.worker s.caller s.stored)

      Run-remaining : {s t : State Byte} {n : ℕ} → Run u s n t → n + remaining t ≤ remaining s
      Run-remaining here = omega arith
      Run-remaining (next turn e run) = omega (arith, Run-remaining run, step-Less turn _ _ e)

    worker-CanMove :
        (w : Worker Byte) (k : Caller Byte) (o : Option (List Byte))
        → is_closed k ≡ true
        → ((e : Option Error) × (w ≡ gone e)) ⊎ CanMove (at w k o)
    unfolding step worker_step
    worker-CanMove (running (writes b a r)) k o e = inr (of_worker, _, refl)
    worker-CanMove (running (returns x)) k o e = inr (of_worker, _, refl)
    worker-CanMove (writing b a r) k o e = inr (of_worker, at (running r) k o, rw e refl)
    worker-CanMove (closing x) k o e = inr (of_worker, _, refl)
    worker-CanMove (sending x) k o e = inr (of_worker, _, refl)
    worker-CanMove (gone x) k o e = inl (x, refl)

    asks-CanMove :
        (w : Worker Byte) (reads : List (Read Byte)) (room : ℕ) (o : Option (List Byte))
        → u reads ≡ asks room
        → CanMove (at w (uploading reads) o)
    unfolding step worker_step caller_step
    asks-CanMove (running (writes b a r)) reads room o e = (of_worker, _, refl)
    asks-CanMove (running (returns x)) reads room o e = (of_worker, _, refl)
    asks-CanMove (writing b a r) reads room o e = (
      of_caller,
      at (written (drop room b) a r) (uploading (got (take room b) ∷ reads)) o,
      rw e refl,
    )
    asks-CanMove (closing x) reads room o e = (of_worker, _, refl)
    asks-CanMove (sending x) reads room o e = (of_worker, _, refl)
    asks-CanMove (gone x) reads room o e =
        (of_caller, at (gone x) (uploading (ended x ∷ reads)) o, rw e refl)

    waiting-CanMove :
        (w : Worker Byte) (put : Option Error) (o : Option (List Byte))
        → CanMove (at w (waiting put) o)
    unfolding step caller_step
    waiting-CanMove w put o = elim (worker-CanMove w (waiting put) o refl) [
      | inl (x, e) ↦ (of_caller, at w (finished x put) o, rw e refl)
      | inr can ↦ can
    ]

    pub moves :
        (w : Worker Byte) (k : Caller Byte) (o : Option (List Byte))
        → IsOver (at w k o) ⊎ CanMove (at w k o)
    unfolding step caller_step
    moves w (uploading reads) o = elim (Asked-cases (u reads)) [
      | inl (room, e) ↦ inr (asks-CanMove w reads room o e)
      | inr (put, object, e) ↦ inr (of_caller, at w (uploaded put) object, rw e refl)
    ]
    moves w (uploaded put) o = inr (of_caller, _, refl)
    moves w (waiting put) o = inr (waiting-CanMove w put o)
    moves w (finished e put) o = inl (_, refl)

    -- In whatever order the two goroutines take their steps, there is no deadlock: as long as the
    -- caller has not returned, one of them can take a step. And a run has at most a number of steps
    -- that the command gives, so the caller returns, also when the upload gives up early or the
    -- command ignores a refused write. The upload is relied on to read with some room and to stop
    -- reading at the end.
    pub Run-ends :
        UploadLaws u
        → (c : Command Byte) {n : ℕ} {s : State Byte} → Run u (start c) n s
        → (n ≤ step_bound c) × (IsOver s ⊎ CanMove s)
    Run-ends laws c {s} run =
        (omega (arith, Run-remaining laws run), moves s.worker s.caller s.stored)
