-- ===== src/Backups/Stream/Diamond.antt =====
-- A step of the one goroutine and a step of the other can be taken in either order.
use tsdb_operator.Base.{ℕ, ◌≡◌, refl, Option, none, some, List, ◌∷◌, inl, inr, Error}
use tsdb_operator.Backups.Stream.{
  writes, returns, Read, ended, asks, ends, Uploader, Worker, running, writing, closing, sending,
  gone, Caller, uploading, uploaded, waiting, finished, State, worker_step, read_from, received,
  sent, caller_step, of_worker, of_caller, step,
}
use tsdb_operator.Backups.Stream.Laws.{Asked-cases, OnSome, OnSome-some, at}

module _ {Byte : Type 0} (u : Uploader Byte) where
  -- A step of either leads to one and the same state after a step of the other.
  abbrev Joins : State Byte → State Byte → Type 0
  Joins a b = (v : State Byte) × (step u of_caller a ≡ some v) × (step u of_worker b ≡ some v)

  abbrev IsDiamond : Option (State Byte) → Option (State Byte) → Type 0
  IsDiamond x y = OnSome (λ a. OnSome (Joins a) y) x

  none-IsDiamond : (x : Option (State Byte)) → IsDiamond x none
  none-IsDiamond none = tt
  none-IsDiamond (some a) = tt

  asks-IsDiamond :
      (w : Worker Byte) (reads : List (Read Byte)) (room : ℕ) (o : Option (List Byte))
      → u reads ≡ asks room
      → let s = at w (uploading reads) o in IsDiamond (worker_step w s) (read_from w room reads s)
  unfolding worker_step caller_step step
  asks-IsDiamond (running (writes b a r)) reads room o e = tt
  asks-IsDiamond (running (returns x)) reads room o e = tt
  asks-IsDiamond (writing b a r) reads room o e = tt
  asks-IsDiamond (closing x) reads room o e = tt
  asks-IsDiamond (sending x) reads room o e =
      (at (gone x) (uploading (ended x ∷ reads)) o, rw e refl, refl)
  asks-IsDiamond (gone x) reads room o e = tt

  ends-IsDiamond :
      (w : Worker Byte) (reads : List (Read Byte)) (put : Option Error)
      (object o : Option (List Byte))
      → u reads ≡ ends put object
      → IsDiamond (worker_step w (at w (uploading reads) o)) (some (at w (uploaded put) object))
  unfolding worker_step caller_step step
  ends-IsDiamond (running (writes b a r)) reads put object o e =
      (at (writing b a r) (uploaded put) object, rw e refl, refl)
  ends-IsDiamond (running (returns x)) reads put object o e =
      (at (closing x) (uploaded put) object, rw e refl, refl)
  ends-IsDiamond (writing b a r) reads put object o e = tt
  ends-IsDiamond (closing x) reads put object o e =
      (at (sending x) (uploaded put) object, rw e refl, refl)
  ends-IsDiamond (sending x) reads put object o e =
      (at (gone x) (uploaded put) object, rw e refl, refl)
  ends-IsDiamond (gone x) reads put object o e = tt

  uploaded-IsDiamond :
      (w : Worker Byte) (put : Option Error) (o : Option (List Byte))
      → IsDiamond (worker_step w (at w (uploaded put) o)) (some (at w (waiting put) o))
  unfolding worker_step caller_step step
  uploaded-IsDiamond (running (writes b a r)) put o =
      (at (writing b a r) (waiting put) o, refl, refl)
  uploaded-IsDiamond (running (returns x)) put o = (at (closing x) (waiting put) o, refl, refl)
  uploaded-IsDiamond (writing b a r) put o = tt
  uploaded-IsDiamond (closing x) put o = (at (sending x) (waiting put) o, refl, refl)
  uploaded-IsDiamond (sending x) put o = (at (gone x) (waiting put) o, refl, refl)
  uploaded-IsDiamond (gone x) put o = tt

  waiting-IsDiamond :
      (w : Worker Byte) (put : Option Error) (o : Option (List Byte))
      → let s = at w (waiting put) o in IsDiamond (worker_step w s) (received (sent w) put s)
  unfolding worker_step
  waiting-IsDiamond (running (writes b a r)) put o = tt
  waiting-IsDiamond (running (returns x)) put o = tt
  waiting-IsDiamond (writing b a r) put o = tt
  waiting-IsDiamond (closing x) put o = tt
  waiting-IsDiamond (sending x) put o = tt
  waiting-IsDiamond (gone x) put o = tt

  diamond :
      (w : Worker Byte) (k : Caller Byte) (o : Option (List Byte))
      → IsDiamond (worker_step w (at w k o)) (caller_step u k (at w k o))
  unfolding caller_step
  diamond w (uploading reads) o = elim (Asked-cases (u reads)) [
    | inl (room, e) ↦ rw e (asks-IsDiamond w reads room o e)
    | inr (put, object, e) ↦ rw e (ends-IsDiamond w reads put object o e)
  ]
  diamond w (uploaded put) o = uploaded-IsDiamond w put o
  diamond w (waiting put) o = waiting-IsDiamond w put o
  diamond w (finished e put) o = none-IsDiamond _

  pub joins :
      (s a b : State Byte) → step u of_worker s ≡ some a → step u of_caller s ≡ some b → Joins a b
  unfolding step
  joins s a b p q = OnSome-some (Joins a) q (
      OnSome-some (λ x. OnSome (Joins x) (caller_step u s.caller s)) p
        (diamond s.worker s.caller s.stored))
