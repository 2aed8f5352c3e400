-- ===== src/Backups/Entries.antt =====
-- The cron entries that the scheduler keeps.
use tsdb_operator.Base.{
  ℕ, String, none, some, List, [], ◌∷◌, ◌==◌, eq_iff, ◌≡◌, ◌≢◌, inl, inr, sym, ap, ◌∙◌,
  if◌then◌else◌, All, arith, nat_eq, Map, lookup, insert, lookup-insert, ok, err, panic, Result,
  Bool-cases, Option-cases, not, ◌||◌,
}
use tsdb_operator.Types.{PrometheusCluster}
use tsdb_operator.Backups.{Cron, entry_key, remove_old, added, register}

-- A cron entry that is in force.
pub record Job : Type 0 where
  pub id : ℕ
  pub schedule : String
  pub key : String

-- The entries without one number.
unfoldable pub without : ℕ → List Job → List Job
without id [] = []
without id (j ∷ js) = let rest = without id js in if nat_eq j.id id then rest else j ∷ rest

abbrev pub after_add : Result ℕ → (schedule key : String) → List Job → List Job
after_add (ok id) schedule key js = record { id = id; schedule = schedule; key = key } ∷ js
after_add (err e) schedule key js = js
after_add panic schedule key js = js

module _ {W : Type 0} (cron : Cron W) (jobs : W → List Job) where
  pub record CronLaws : Type 0 where
    pub removes : (id : ℕ) (w : W) → jobs (cron.remove id w) ≡ without id (jobs w)
    pub adds :
        (schedule ns name : String) (w : W)
        → jobs (cron.add_func schedule ns name w).1
          ≡ after_add (cron.add_func schedule ns name w).0 schedule (entry_key ns name) (jobs w)

  -- Every cron entry is the one that the scheduler has down for its cluster.
  abbrev pub IsKnown : Map ℕ → Job → Type 0
  IsKnown entries j = lookup j.key entries ≡ some j.id

  abbrev pub IsOnePerCluster : Map ℕ × W → Type 0
  IsOnePerCluster s = All (IsKnown s.0) (jobs s.1)

  -- Known, and not the entry of `key`.
  abbrev IsOther : String → Map ℕ → Job → Type 0
  IsOther key entries j = (lookup j.key entries ≡ some j.id) × (j.key ≢ key)

  without-IsOther :
      (key : String) (entries : Map ℕ) (id : ℕ) (js : List Job)
      → lookup key entries ≡ some id
      → All (IsKnown entries) js
      → All (IsOther key entries) (without id js)
  unfolding without
  without-IsOther key entries id [] e h = tt
  without-IsOther key entries id (j ∷ js) e h = elim (Bool-cases (nat_eq j.id id)) [
    | inl same ↦ rw same (without-IsOther key entries id js e h.1)
    | inr other ↦ rw other (
      (
        h.0,
        λ k.
            let q : some j.id ≡ some id = sym h.0 ∙ ap (λ x. lookup x entries) k ∙ e in
            let r : j.id ≡ id = ground arith in ground arith,
      ),
      without-IsOther key entries id js e h.1,
    )
  ]

  none-IsOther :
      (key : String) (entries : Map ℕ) (js : List Job)
      → lookup key entries ≡ none
      → All (IsKnown entries) js
      → All (IsOther key entries) js
  none-IsOther key entries [] e h = tt
  none-IsOther key entries (j ∷ js) e h = (
    (
      h.0,
      λ k. let q : some j.id ≡ none = sym h.0 ∙ ap (λ x. lookup x entries) k ∙ e in ground arith,
    ),
    none-IsOther key entries js e h.1,
  )

  other-IsKnown :
      (key : String) (entries : Map ℕ) (js : List Job)
      → All (IsOther key entries) js
      → All (IsKnown entries) js
  other-IsKnown key entries [] h = tt
  other-IsKnown key entries (j ∷ js) h = (h.0.0, other-IsKnown key entries js h.1)

  insert-IsKnown :
      (key : String) (id : ℕ) (entries : Map ℕ) (js : List Job)
      → All (IsOther key entries) js
      → All (IsKnown (insert key id entries)) js
  insert-IsKnown key id entries [] h = tt
  insert-IsKnown key id entries (j ∷ js) h = (
    ground (arith, lookup-insert key j.key id entries, eq_iff key j.key, h.0),
    insert-IsKnown key id entries js h.1,
  )

  module _ (laws : CronLaws) where
    removed-IsOther :
        (key : String) (entries : Map ℕ) (w : W)
        → All (IsKnown entries) (jobs w)
        → All (IsOther key entries) (jobs (remove_old cron (lookup key entries) w))
    removed-IsOther key entries w h = elim (Option-cases (lookup key entries)) [
      | inl e ↦ rw e (none-IsOther key entries (jobs w) e h)
      | inr (id, e) ↦ rw e (rw (laws.removes id w) (without-IsOther key entries id (jobs w) e h))
    ]

    added-IsOnePerCluster :
        (schedule key : String) (entries : Map ℕ) (js : List Job) (r : Result ℕ) (w : W)
        → All (IsOther key entries) js
        → jobs w ≡ after_add r schedule key js
        → IsOnePerCluster (added cron key entries (r, w)).1
    added-IsOnePerCluster schedule key entries js (ok id) w h e = rw e (
      ground (arith, lookup-insert key key id entries, eq_iff key key),
      insert-IsKnown key id entries js h,
    )
    added-IsOnePerCluster schedule key entries js (err x) w h e =
        rw e (other-IsKnown key entries js h)
    added-IsOnePerCluster schedule key entries js panic w h e =
        rw e (other-IsKnown key entries js h)

    -- If each cron entry in force is the one that the scheduler has down for its cluster, then so it
    -- is after a cluster was registered, on every outcome, also when its schedule is refused.
    pub register-IsOnePerCluster :
        {Q : Type 0} (pc : PrometheusCluster Q) (s : Map ℕ × W)
        → IsOnePerCluster s
        → IsOnePerCluster (register cron pc s).1
    unfolding register
    register-IsOnePerCluster pc (entries, w) h =
        elim (Bool-cases (not pc.spec.backup.enabled || pc.spec.backup.schedule == "")) [
          | inl off ↦ rw off h
          | inr on ↦ rw on (
              added-IsOnePerCluster pc.spec.backup.schedule
                (entry_key pc.meta.namespace pc.meta.name) entries _ _ _
                (removed-IsOther (entry_key pc.meta.namespace pc.meta.name) entries w h)
                (laws.adds pc.spec.backup.schedule pc.meta.namespace pc.meta.name _))
        ]
