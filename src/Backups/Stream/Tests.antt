-- ===== src/Backups/Stream/Tests.antt =====
-- Examples of a stream through the pipe.
use tsdb_operator.Base.{
  ℕ, ◌≤◌, ◌≡◌, refl, Option, none, some, List, [], ◌∷◌, Error, ok, ◌⊎◌, inr, arith, other,
}
use tsdb_operator.Kube.Memory.{Quantity}
use tsdb_operator.Samples.{cluster}
use tsdb_operator.Backups.{Services, tar_stream}
use tsdb_operator.Backups.Memory.{Objects, services}
use tsdb_operator.Backups.Stream.{
  Command, writes, returns, Read, got, ended, asks, ends, Uploader, State, start, answer,
  worker_step, caller_step, step, of_worker, of_caller, Run, here, next, finished, gone,
}
use tsdb_operator.Backups.Stream.Laws.{bytes, ending, UploadLaws, output, verdict}
use tsdb_operator.Backups.Stream.Whole.{Run-whole}
use tsdb_operator.Backups.Stream.Ends.{IsOver, CanMove, step_bound, Run-ends}
use tsdb_operator.Backups.Stream.Driven.{drive}
use tsdb_operator.Backups.Stream.Clients.{ClientGo, SpdyExecutor, exec, S3Client, stream_upload}
use tsdb_operator.Backups.Stream.Refined.{
  tar_command, tar_stream_to_s3, IsStreamed, tar_stream-agrees,
}

-- It reads two bytes at a time, and stores what it read at io.EOF.
abbrev manager : Uploader ℕ
manager [] = asks 2
manager (got b ∷ reads) = asks 2
manager (ended none ∷ reads) = ends none (some (bytes reads))
manager (ended (some e) ∷ reads) = ends (some e) none

manager-reads_some :
    (reads : List (Read ℕ)) (room : ℕ)
    → manager reads ≡ asks room
    → (1 ≤ room) × (ending reads ≡ none)
manager-reads_some [] room e = let its : 2 ≡ room = cc in (omega (arith, its), refl)
manager-reads_some (got b ∷ reads) room e = let its : 2 ≡ room = cc in (omega (arith, its), refl)
manager-reads_some (ended none ∷ reads) room e = absurd cc
manager-reads_some (ended (some x) ∷ reads) room e = absurd cc

manager-stores_all :
    (reads : List (Read ℕ)) (put : Option Error) (object : List ℕ)
    → manager reads ≡ ends put (some object)
    → (object ≡ bytes reads) × (ending reads ≡ some none)
unfolding bytes
manager-stores_all [] put object e = absurd cc
manager-stores_all (got b ∷ reads) put object e = absurd cc
manager-stores_all (ended none ∷ reads) put object e = (cc, refl)
manager-stores_all (ended (some x) ∷ reads) put object e = absurd cc

manager-stores_one :
    (reads : List (Read ℕ)) (object : Option (List ℕ))
    → manager reads ≡ ends none object
    → (x : List ℕ) × (object ≡ some x)
manager-stores_one [] object e = absurd cc
manager-stores_one (got b ∷ reads) object e = absurd cc
manager-stores_one (ended none ∷ reads) object e = (bytes reads, cc)
manager-stores_one (ended (some x) ∷ reads) object e = absurd cc

manager_laws : UploadLaws manager
manager_laws = record {
  reads_some = manager-reads_some;
  stores_all = manager-stores_all;
  stores_one = manager-stores_one;
}

abbrev broken : Error
broken = record { reason = other; message = "io: read/write on closed pipe" }

-- It writes three bytes.
abbrev tar : Command ℕ
tar = writes (1 ∷ 2 ∷ 3 ∷ []) (returns none) (returns (some broken))

abbrev archived : State ℕ
archived = record {
  worker = gone none;
  caller = finished none none;
  stored = some (1 ∷ 2 ∷ 3 ∷ []);
}

tar_steps : Run manager (start tar) 10 archived
unfolding step worker_step caller_step bytes
tar_steps = next of_worker refl (
    next of_caller refl (
      next of_caller refl (
        next of_worker refl (
          next of_worker refl (
            next of_caller refl (
              next of_caller refl
                (next of_caller refl (next of_worker refl (next of_caller refl here)))))))))

Run-whole_example :
    ((x : List ℕ) → some (1 ∷ 2 ∷ 3 ∷ []) ≡ some x → (x ≡ output tar) × (verdict tar ≡ none))
    × (answer archived.caller ≡ some (ok tt) → archived.stored ≡ some (output tar))
Run-whole_example = Run-whole tar manager manager_laws tar_steps

Run-ends_example : (10 ≤ step_bound tar) × (IsOver manager archived ⊎ CanMove manager archived)
Run-ends_example = Run-ends manager manager_laws tar tar_steps

-- The upload of a command that fails half-way stores nothing.
cut_short :
    drive manager 20 (start (writes (1 ∷ 2 ∷ []) (returns (some broken)) (returns none))) ≡ record {
      worker = gone (some broken);
      caller = finished (some broken) (some broken);
      stored = none;
    }
unfolding drive step worker_step caller_step bytes
cut_short = refl

abbrev k : ClientGo Unit Unit Unit ℕ
k = record {
  new_for_config = λ cfg. ok tt;
  url = λ cs r. "";
  new_executor = λ cfg method url. inr tt;
  stream_with_context = λ e. tar;
}

abbrev executor : SpdyExecutor Unit Unit
executor = record { config = tt; clientset = tt }

abbrev store : S3Client Unit ℕ
store = record { client = tt; multipart = λ bucket key. manager }

abbrev streaming : Services Quantity (Unit {0} × Objects)
streaming = services

in_turn_streamed : IsStreamed k executor store streaming
unfolding drive step worker_step caller_step bytes exec stream_upload
in_turn_streamed namespace pod container cmd bucket key w = refl

stream_steps :
    Run
      (stream_upload store "tsdb" "key")
      (tar_stream_to_s3 k executor store streaming cluster "snap-1")
      10
      archived
unfolding step worker_step caller_step bytes exec stream_upload tar_stream_to_s3
stream_steps = next of_worker refl (
    next of_caller refl (
      next of_caller refl (
        next of_worker refl (
          next of_worker refl (
            next of_caller refl (
              next of_caller refl
                (next of_caller refl (next of_worker refl (next of_caller refl here)))))))))

tar_stream-agrees_example :
    (some (ok tt) ≡ some (tar_stream streaming cluster "snap-1" "key" (tt, [])).0)
    × ((tar_stream streaming cluster "snap-1" "key" (tt, [])).0 ≡ ok tt
        → archived.stored ≡ some (output (tar_command k executor store streaming cluster "snap-1")))
tar_stream-agrees_example =
    tar_stream-agrees k executor store streaming (λ bucket key. manager_laws) in_turn_streamed
      cluster "snap-1" "key" (tt, []) stream_steps (ok tt, refl)
