-- ===== src/Backups/Stream/Inside.antt =====
-- While the upload runs, what it has read and what is left to write make up the output.
use tsdb_operator.Base.{
  take, drop, ℕ, ◌≡◌, refl, sym, ap, ◌∙◌, Option, none, some, List, [], ◌∷◌, ◌++◌, Error, take-drop,
}
use mathlib.Core.List.{append_assoc}
use tsdb_operator.Backups.Stream.{
  Command, writes, returns, Read, got, Worker, running, writing, closing, sending, gone, Caller,
  uploading, uploaded, waiting, finished, State, closed_with, written, worker_step, read_end,
  read_from, received,
}
use tsdb_operator.Backups.Stream.Laws.{bytes, ending, output, verdict, OnSome}

module _ {Byte : Type 0} where
  -- What is still to be written, and what will be returned, if every write is accepted.
  abbrev pub left : Worker Byte → List Byte
  left (running c) = output c
  left (writing b a r) = b ++ output a
  left _ = []

  abbrev pub will : Worker Byte → Option Error
  will (running c) = verdict c
  will (writing b a r) = verdict a
  will (closing e) = e
  will (sending e) = e
  will (gone e) = e

  pub closed-left :
      (w : Worker Byte) (e : Option Error) → closed_with w ≡ some e → (left w ≡ []) × (will w ≡ e)
  closed-left (running c) e q = cc
  closed-left (writing b a r) e q = cc
  closed-left (closing x) e q = cc
  closed-left (sending x) e q = (refl, cc)
  closed-left (gone x) e q = (refl, cc)

  module _ (c : Command Byte) where
    -- An object in the store is all of the output of a command that succeeded.
    abbrev pub IsWhole : Option (List Byte) → Type 0
    IsWhole stored = (x : List Byte) → stored ≡ some x → (x ≡ output c) × (verdict c ≡ none)

    -- While the upload runs, what it has read and what is left make up the output.
    pub record Inside (w : Worker Byte) (reads : List (Read Byte)) : Type 0 where
      pub balanced : bytes reads ++ left w ≡ output c
      pub same : will w ≡ verdict c
      pub end : (e : Option Error) → ending reads ≡ some e → closed_with w ≡ some e

    abbrev pub Inv : Worker Byte → Caller Byte → Option (List Byte) → Type 0
    Inv w (uploading reads) stored = (stored ≡ none) × Inside w reads
    Inv w (uploaded put) stored = IsWhole stored × (put ≡ none → stored ≡ some (output c))
    Inv w (waiting put) stored = IsWhole stored × (put ≡ none → stored ≡ some (output c))
    Inv w (finished e put) stored = IsWhole stored × (put ≡ none → stored ≡ some (output c))

    abbrev pub Kept : State Byte → Type 0
    Kept s = Inv s.worker s.caller s.stored

    -- A step of the goroutine that changes neither, and does not undo the close.
    moved :
        (w w' : Worker Byte) (k : Caller Byte) (o : Option (List Byte))
        → left w' ≡ left w
        → will w' ≡ will w
        → ((e : Option Error) → closed_with w ≡ some e → closed_with w' ≡ some e)
        → Inv w k o
        → Inv w' k o
    moved w w' (uploading reads) o p q r (empty, inside) = (
      empty,
      record {
        balanced = ap (λ l. bytes reads ++ l) p ∙ inside.balanced;
        same = q ∙ inside.same;
        end = λ e x. r e (inside.end e x);
      },
    )
    moved w w' (uploaded put) o p q r h = h
    moved w w' (waiting put) o p q r h = h
    moved w w' (finished e put) o p q r h = h

    pub worker_step-Kept :
        (w : Worker Byte) (k : Caller Byte) (o : Option (List Byte))
        → Inv w k o
        → OnSome Kept (worker_step w (record { worker = w; caller = k; stored = o }))
    unfolding worker_step output verdict
    worker_step-Kept (running (writes b a r)) k o h =
        moved (running (writes b a r)) (writing b a r) k o refl refl (λ e x. cc) h
    worker_step-Kept (running (returns e)) k o h =
        moved (running (returns e)) (closing e) k o refl refl (λ e x. cc) h
    worker_step-Kept (writing b a r) (uploading reads) o h = tt
    worker_step-Kept (writing b a r) (uploaded put) o h = tt
    worker_step-Kept (writing b a r) (waiting put) o h = h
    worker_step-Kept (writing b a r) (finished e put) o h = h
    worker_step-Kept (closing e) k o h = moved (closing e) (sending e) k o refl refl (λ e x. cc) h
    worker_step-Kept (sending e) k o h = moved (sending e) (gone e) k o refl refl (λ e x. cc) h
    worker_step-Kept (gone e) k o h = tt

    left-written : (l : List Byte) (a r : Command Byte) → left (written l a r) ≡ l ++ output a
    left-written [] a r = refl
    left-written (x ∷ l) a r = refl

    will-written : (l : List Byte) (a r : Command Byte) → will (written l a r) ≡ verdict a
    will-written [] a r = refl
    will-written (x ∷ l) a r = refl

    copied :
        (room : ℕ) (b : List Byte) (a r : Command Byte) (reads : List (Read Byte))
        → Inside (writing b a r) reads
        → Inside (written (drop room b) a r) (got (take room b) ∷ reads)
    unfolding bytes
    copied room b a r reads inside = record {
      balanced =
          ap (λ l. (bytes reads ++ take room b) ++ l) (left-written (drop room b) a r)
          ∙ append_assoc (bytes reads) (take room b) (drop room b ++ output a)
          ∙ ap (λ l. bytes reads ++ l)
              (sym (append_assoc (take room b) (drop room b) (output a))
                ∙ ap (λ l. l ++ output a) (take-drop room b))
          ∙ inside.balanced;
      same = will-written (drop room b) a r ∙ inside.same;
      end = λ e x. cc;
    }

    read_end-Kept :
        (w : Worker Byte) (reads : List (Read Byte)) (o : Option (List Byte))
        (e : Option (Option Error))
        → closed_with w ≡ e
        → Inv w (uploading reads) o
        → OnSome Kept
            (read_end e reads (record { worker = w; caller = uploading reads; stored = o }))
    unfolding bytes
    read_end-Kept w reads o none q h = tt
    read_end-Kept w reads o (some e) q (empty, inside) =
        (empty, record { balanced = inside.balanced; same = inside.same; end = λ x p. cc })

    pub read_from-Kept :
        (w : Worker Byte) (room : ℕ) (reads : List (Read Byte)) (o : Option (List Byte))
        → Inv w (uploading reads) o
        → OnSome Kept
            (read_from w room reads (record { worker = w; caller = uploading reads; stored = o }))
    read_from-Kept (running x) room reads o h = tt
    read_from-Kept (writing b a r) room reads o (empty, inside) =
        (empty, copied room b a r reads inside)
    read_from-Kept (closing e) room reads o h = tt
    read_from-Kept (sending e) room reads o h = read_end-Kept (sending e) reads o (some e) refl h
    read_from-Kept (gone e) room reads o h = read_end-Kept (gone e) reads o (some e) refl h

    pub received-Kept :
        (w : Worker Byte) (put : Option Error) (o : Option (List Byte)) (e : Option (Option Error))
        → Inv w (waiting put) o
        → OnSome Kept (received e put (record { worker = w; caller = waiting put; stored = o }))
    received-Kept w put o none h = tt
    received-Kept w put o (some e) h = h
