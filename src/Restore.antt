-- ===== src/Restore.antt =====
-- cmd/tsdb-ctl/main.go: the command line tool, with its commands `list` and `restore`.
pub mod Newest
pub mod Command
pub mod Downloads
pub mod Empty
mod Tests
use tsdb_operator.Base.{
  Bool, String, List, [], ◌∷◌, Action, wrapping, pure, ◌>>=◌, if◌then◌else◌, map,
}
use tsdb_operator.Base.Int.{ℤ}
use tsdb_operator.Base.Clock.{long_stamp}
use tsdb_operator.Base.Order.{text_less, sort}
use tsdb_operator.Types.{Time}

-- An object as the store lists it.
pub record Object : Type 0 where
  pub key : String
  pub size : ℤ
  pub last_modified : Time

abbrev pub stamp_of : Object → String
stamp_of o = long_stamp o.last_modified

-- The comparison of `list`: newest first.
abbrev pub newer : Object → Object → Bool
newer a b = text_less (stamp_of b) (stamp_of a)

-- The order of objects with one stamp, which sort.Slice leaves open, is that of this sort.
unfoldable pub listed : List Object → List Object
listed objects = sort newer objects

-- `newest` and `newestStamp`, after an object was looked at.
abbrev pub later : String × String → Object → String × String
later (key, stamp) o = if text_less stamp (stamp_of o) then (o.key, stamp_of o) else (key, stamp)

-- The loop of `latestKey`.
unfoldable pub latest : String × String → List Object → String
latest best [] = best.0
latest best (o ∷ more) = latest (later best o) more

unfoldable pub latest_key :
    {W : Type 0}
    → ((bucket prefix : String) → Action W (List Object))
    → (bucket prefix : String) → Action W String
unfolding latest
latest_key list_objects bucket prefix = do
  objects ← wrapping "list objects" (list_objects bucket prefix)
  pure (latest ("", "") objects)
