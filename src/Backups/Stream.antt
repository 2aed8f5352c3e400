-- ===== src/Backups/Stream.antt =====
-- internal/backup/backup.go, exec.go, s3client.go: the output of a command in a pod, streamed through
-- a pipe into an upload. Two goroutines run at once; a step is what one of them does up to its next
-- use of the pipe or of the channel.
pub mod Laws
pub mod Inside
pub mod Whole
pub mod Ends
pub mod Diamond
pub mod Driven
pub mod Agreed
pub mod Clients
pub mod Refined
mod Tests
use tsdb_operator.Base.{
  take, drop, ◌+◌, ℕ, zero, suc, Option, none, some, List, [], ◌∷◌, ◌++◌, Bool, true, false,
  if◌then◌else◌, Error, Result, ok, err, length,
}
use tsdb_operator.Base.{◌≡◌}
use tsdb_operator.Backups.{stream_result}

-- What the remote command does with the writer it is given: it writes a chunk, and goes on in one way
-- if the write was accepted and in another if it was refused, or it returns an error or nil.
pub data Command (Byte : Type 0) : Type 0 where
  writes : (chunk : List Byte) → (accepted refused : Command Byte) → Command Byte
  returns : Option Error → Command Byte

-- What a read of the pipe gave: bytes, or its end, which is io.EOF (no error) or an error.
pub data Read (Byte : Type 0) : Type 0 where
  got : List Byte → Read Byte
  ended : Option Error → Read Byte

-- What the upload does next: it reads with room for so many bytes, or it ends with an error or nil
-- and with the object that it has stored, if any.
pub data Asked (Byte : Type 0) : Type 0 where
  asks : (room : ℕ) → Asked Byte
  ends : (put : Option Error) → (object : Option (List Byte)) → Asked Byte

-- The upload, by what its reads gave, the latest first.
abbrev pub Uploader : Type 0 → Type 0
Uploader Byte = List (Read Byte) → Asked Byte

-- Where the goroutine stands that runs the command.
pub data Worker (Byte : Type 0) : Type 0 where
  running : Command Byte → Worker Byte  -- in `Exec`
  writing : (rest : List Byte) → (accepted refused : Command Byte) → Worker Byte  -- in `pw.Write`
  closing : Option Error → Worker Byte  -- before `pw.CloseWithError(err)`
  sending : Option Error → Worker Byte  -- before `execErr <- err`
  gone : Option Error → Worker Byte  -- after it, with the error in the channel's buffer

-- Where the caller stands.
pub data Caller (Byte : Type 0) : Type 0 where
  uploading : List (Read Byte) → Caller Byte  -- in `StreamUpload`
  uploaded : (put : Option Error) → Caller Byte  -- before `pr.Close()`
  waiting : (put : Option Error) → Caller Byte  -- before `<-execErr`
  finished : (exec put : Option Error) → Caller Byte

pub record State (Byte : Type 0) : Type 0 where
  pub worker : Worker Byte
  pub caller : Caller Byte
  pub stored : Option (List Byte)

abbrev pub start : {Byte : Type 0} → Command Byte → State Byte
start c = record { worker = running c; caller = uploading []; stored = none }

abbrev returned : Option Error → Result Unit
returned none = ok tt
returned (some e) = err e

-- How both goroutines ended, and what the caller returns.
abbrev pub ends_of : {Byte : Type 0} → Caller Byte → Option (Result Unit × Result Unit)
ends_of (finished exec put) = some (returned exec, returned put)
ends_of _ = none

abbrev pub result_of : Option (Result Unit × Result Unit) → Option (Result Unit)
result_of none = none
result_of (some r) = some (stream_result r)

abbrev pub answer : {Byte : Type 0} → Caller Byte → Option (Result Unit)
answer c = result_of (ends_of c)

-- The error that the write end is closed with, from `CloseWithError` on.
abbrev pub closed_with : {Byte : Type 0} → Worker Byte → Option (Option Error)
closed_with (sending e) = some e
closed_with (gone e) = some e
closed_with _ = none

-- Whether the read end is closed, which it is from `pr.Close` on.
abbrev pub is_closed : {Byte : Type 0} → Caller Byte → Bool
is_closed (waiting put) = true
is_closed (finished exec put) = true
is_closed _ = false

-- What the channel holds.
abbrev pub sent : {Byte : Type 0} → Worker Byte → Option (Option Error)
sent (gone e) = some e
sent _ = none

-- A write goes on until all of its bytes are read.
abbrev pub written :
    {Byte : Type 0} → (left : List Byte) → (accepted refused : Command Byte) → Worker Byte
written [] accepted refused = running accepted
written (b ∷ bs) accepted refused = writing (b ∷ bs) accepted refused

-- A step of the goroutine that runs the command, `none` while it is blocked or gone. A write is
-- refused with io.ErrClosedPipe once the read end is closed.
unfoldable pub worker_step : {Byte : Type 0} → Worker Byte → State Byte → Option (State Byte)
worker_step (running (writes c a r)) s = some (record s { worker = writing c a r })
worker_step (running (returns e)) s = some (record s { worker = closing e })
worker_step (writing b a r) s =
    if is_closed s.caller then some (record s { worker = running r }) else none
worker_step (closing e) s = some (record s { worker = sending e })
worker_step (sending e) s = some (record s { worker = gone e })
worker_step (gone e) s = none

abbrev pub read_end :
    {Byte : Type 0} → Option (Option Error) → List (Read Byte) → State Byte → Option (State Byte)
read_end none reads s = none
read_end (some e) reads s = some (record s { caller = uploading (ended e ∷ reads) })

-- A read takes bytes of the write that is under way, or sees that the write end is closed; it blocks
-- as long as there is neither.
abbrev pub read_from :
    {Byte : Type 0} → Worker Byte → ℕ → List (Read Byte) → State Byte → Option (State Byte)
read_from (writing b a r) room reads s = some (record s {
  worker = written (drop room b) a r;
  caller = uploading (got (take room b) ∷ reads);
})
read_from w room reads s = read_end (closed_with w) reads s

abbrev pub asked :
    {Byte : Type 0} → Asked Byte → List (Read Byte) → State Byte → Option (State Byte)
asked (asks room) reads s = read_from s.worker room reads s
asked (ends put object) reads s = some (record s { caller = uploaded put; stored = object })

abbrev pub received :
    {Byte : Type 0} → Option (Option Error) → Option Error → State Byte → Option (State Byte)
received none put s = none
received (some e) put s = some (record s { caller = finished e put })

-- Whose turn it is.
pub data Turn : Type 0 where
  of_worker of_caller : Turn

module _ {Byte : Type 0} (u : Uploader Byte) where
  -- A step of the caller, `none` while it is blocked or has returned.
  unfoldable pub caller_step : Caller Byte → State Byte → Option (State Byte)
  caller_step (uploading reads) s = asked (u reads) reads s
  caller_step (uploaded put) s = some (record s { caller = waiting put })
  caller_step (waiting put) s = received (sent s.worker) put s
  caller_step (finished exec put) s = none

  unfoldable pub step : Turn → State Byte → Option (State Byte)
  unfolding worker_step caller_step
  step of_worker s = worker_step s.worker s
  step of_caller s = caller_step s.caller s

  -- So many steps of the two, in any order.
  pub data Run : State Byte → ℕ → State Byte → Type 0 where
    here : {s : State Byte} → Run s 0 s
    next :
        {s t v : State Byte} {n : ℕ} (turn : Turn)
        → step turn s ≡ some t
        → Run t n v
        → Run s (suc n) v
