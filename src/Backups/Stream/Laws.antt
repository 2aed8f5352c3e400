-- ===== src/Backups/Stream/Laws.antt =====
-- What the upload is relied on for, and what a command does when no write is refused.
use tsdb_operator.Base.{
  ℕ, ◌≤◌, ◌≡◌, subst, Option, none, some, List, [], ◌∷◌, ◌++◌, Error, ◌⊎◌, inl, inr, refl,
}
use tsdb_operator.Backups.Stream.{
  Command, writes, returns, Read, got, ended, Asked, asks, ends, Uploader, Worker, Caller, State,
}

module _ {Byte : Type 0} where
  -- All that the reads gave, and how the last of them ended.
  unfoldable pub bytes : List (Read Byte) → List Byte
  bytes [] = []
  bytes (got b ∷ reads) = bytes reads ++ b
  bytes (ended e ∷ reads) = bytes reads

  abbrev pub ending : List (Read Byte) → Option (Option Error)
  ending [] = none
  ending (got b ∷ reads) = none
  ending (ended e ∷ reads) = some e

  -- The multipart upload reads with some room, and not again after the end. It stores an object only
  -- at io.EOF, and then all that it read; without an error it has stored one.
  pub record UploadLaws (u : Uploader Byte) : Type 0 where
    pub reads_some :
        (reads : List (Read Byte)) (room : ℕ)
        → u reads ≡ asks room
        → (1 ≤ room) × (ending reads ≡ none)
    pub stores_all :
        (reads : List (Read Byte)) (put : Option Error) (object : List Byte)
        → u reads ≡ ends put (some object)
        → (object ≡ bytes reads) × (ending reads ≡ some none)
    pub stores_one :
        (reads : List (Read Byte)) (object : Option (List Byte))
        → u reads ≡ ends none object
        → (x : List Byte) × (object ≡ some x)

  -- What a command writes, and what it returns, when every write is accepted.
  unfoldable pub output : Command Byte → List Byte
  output (writes chunk accepted refused) = chunk ++ output accepted
  output (returns e) = []

  unfoldable pub verdict : Command Byte → Option Error
  verdict (writes chunk accepted refused) = verdict accepted
  verdict (returns e) = e

abbrev pub at : {Byte : Type 0} → Worker Byte → Caller Byte → Option (List Byte) → State Byte
at w k o = record { worker = w; caller = k; stored = o }

-- A predicate of the state after a step, if there is one.
abbrev pub OnSome : {A : Type 0} → (A → Type 0) → Option A → Type 0
OnSome P none = Unit
OnSome P (some a) = P a

pub OnSome-some :
    {A : Type 0} (P : A → Type 0) {o : Option A} {a : A} → o ≡ some a → OnSome P o → P a
OnSome-some P e h = subst (OnSome P) e h

pub Asked-cases :
    {Byte : Type 0} (a : Asked Byte)
    → ((room : ℕ) × (a ≡ asks room))
      ⊎ ((put : Option Error) × (object : Option (List Byte)) × (a ≡ ends put object))
Asked-cases (asks room) = inl (room, refl)
Asked-cases (ends put object) = inr (put, object, refl)
