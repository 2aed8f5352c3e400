-- ===== src/Backups/Stream/Whole.antt =====
-- What is in the object store after a backup was streamed.
use tsdb_operator.Base.{
  ℕ, ◌≡◌, refl, sym, ap, ◌∙◌, Option, none, some, List, ◌++◌, Error, ok, inl, inr,
}
use mathlib.Core.List.{append-nil}
use tsdb_operator.Backups.Stream.{
  Command, Read, ends, Uploader, Worker, Caller, uploading, uploaded, waiting, finished, State,
  start, answer, sent, caller_step, of_worker, of_caller, step, Run, here, next,
}
use tsdb_operator.Backups.Stream.Laws.{
  bytes, UploadLaws, output, verdict, Asked-cases, OnSome, OnSome-some,
}
use tsdb_operator.Backups.Stream.Inside.{
  closed-left, IsWhole, Inside, Inv, Kept, worker_step-Kept, read_from-Kept, received-Kept,
}

module _ {Byte : Type 0} where
  module _ (c : Command Byte) where
    module _ (u : Uploader Byte) (laws : UploadLaws u) where
      whole_object :
          (w : Worker Byte) (reads : List (Read Byte)) (put : Option Error) (x : List Byte)
          → u reads ≡ ends put (some x)
          → Inside c w reads
          → (x ≡ output c) × (verdict c ≡ none)
      whole_object w reads put x e inside =
          let (all, eof) = laws.stores_all reads put x e in
          let (nothing, success) = closed-left w none (inside.end none eof) in
          (
            all
                ∙ sym (append-nil (bytes reads))
                ∙ ap (λ l. bytes reads ++ l) (sym nothing)
                ∙ inside.balanced,
            sym inside.same ∙ success,
          )

      ends-Kept :
          (w : Worker Byte) (reads : List (Read Byte)) (put : Option Error)
          (object : Option (List Byte))
          → u reads ≡ ends put object
          → Inside c w reads
          → IsWhole c object × (put ≡ none → object ≡ some (output c))
      ends-Kept w reads put object e inside = (
        λ x q. whole_object w reads put x (e ∙ ap (λ o. ends put o) q) inside,
        λ q.
            let done : u reads ≡ ends none object = e ∙ ap (λ p. ends p object) q in
            let (x, its) = laws.stores_one reads object done in
            its ∙ ap some (whole_object w reads none x (done ∙ ap (λ o. ends none o) its) inside).0,
      )

      caller_step-Kept :
          (w : Worker Byte) (k : Caller Byte) (o : Option (List Byte))
          → Inv c w k o
          → OnSome (Kept c) (caller_step u k (record { worker = w; caller = k; stored = o }))
      unfolding caller_step
      caller_step-Kept w (uploading reads) o h = elim (Asked-cases (u reads)) [
        | inl (room, e) ↦ rw e (read_from-Kept c w room reads o h)
        | inr (put, object, e) ↦ rw e (ends-Kept w reads put object e h.1)
      ]
      caller_step-Kept w (uploaded put) o h = h
      caller_step-Kept w (waiting put) o h = received-Kept c w put o (sent w) h
      caller_step-Kept w (finished e put) o h = tt

      Run-Kept : {s t : State Byte} {n : ℕ} → Kept c s → Run u s n t → Kept c t
      unfolding step
      Run-Kept h here = h
      Run-Kept {s} h (next of_worker e run) =
          Run-Kept (OnSome-some (Kept c) e (worker_step-Kept c s.worker s.caller s.stored h)) run
      Run-Kept {s} h (next of_caller e run) =
          Run-Kept (OnSome-some (Kept c) e (caller_step-Kept s.worker s.caller s.stored h)) run

      finished-stored :
          (w : Worker Byte) (k : Caller Byte) (o : Option (List Byte))
          → Inv c w k o
          → answer k ≡ some (ok tt)
          → o ≡ some (output c)
      finished-stored w (uploading reads) o h e = cc
      finished-stored w (uploaded put) o h e = cc
      finished-stored w (waiting put) o h e = cc
      finished-stored w (finished none none) o h e = h.1 refl
      finished-stored w (finished none (some x)) o h e = absurd cc
      finished-stored w (finished (some x) put) o h e = absurd cc

      IsWhole-kept :
          (w : Worker Byte) (k : Caller Byte) (o : Option (List Byte)) → Inv c w k o → IsWhole c o
      IsWhole-kept w (uploading reads) o h = λ x e. cc
      IsWhole-kept w (uploaded put) o h = h.0
      IsWhole-kept w (waiting put) o h = h.0
      IsWhole-kept w (finished e put) o h = h.0

      Kept-start : Kept c (start c)
      unfolding bytes
      Kept-start = (refl, record { balanced = refl; same = refl; end = λ e x. cc })

    -- In whatever order the two goroutines take their steps: an object that the upload has stored is
    -- all of the output of the command, which then ended without an error; and when the caller
    -- returns no error, that object is stored. The upload is relied on to store an object only at
    -- the end of the pipe.
    pub Run-whole :
        (u : Uploader Byte)
        → UploadLaws u
        → {n : ℕ} {s : State Byte} → Run u (start c) n s
        → ((x : List Byte) → s.stored ≡ some x → (x ≡ output c) × (verdict c ≡ none))
          × (answer s.caller ≡ some (ok tt) → s.stored ≡ some (output c))
    Run-whole u laws {s} run =
        let h = Run-Kept u laws (Kept-start u laws) run in
        (
          IsWhole-kept u laws s.worker s.caller s.stored h,
          finished-stored u laws s.worker s.caller s.stored h,
        )
