-- ===== src/Backups/Schedules.antt =====
-- The scheduler as what it promises: a schedule for each cluster.
use tsdb_operator.Base.{
  ℕ, ◌<◌, ◌≤◌, String, Option, none, some, List, [], ◌∷◌, ◌==◌, eq_iff, not, ◌||◌, if◌then◌else◌,
  ◌≡◌, ◌≢◌, sym, ap, ◌∙◌, All, arith, nat_eq, Map, lookup, Result, ok, err, panic, Bool-cases, inl,
  inr,
}
use tsdb_operator.Types.{PrometheusCluster}
use tsdb_operator.Backups.{Cron, entry_key}
use tsdb_operator.Backups.Entries.{Job, without, IsKnown, IsOnePerCluster}

-- The schedule in force for a cluster.
unfoldable pub schedule_in : String → List Job → Option String
schedule_in key [] = none
schedule_in key (j ∷ js) =
    let rest = schedule_in key js in if j.key == key then some j.schedule else rest

-- What a registration promises: with backups on, the cluster's schedule is the new one, or none if it
-- was refused, and no other cluster's changes.
abbrev pub accepted : Result Unit → String → Option String
accepted (ok a) schedule = some schedule
accepted (err e) schedule = none
accepted panic schedule = none

abbrev pub promised :
    {Q : Type 0}
    → PrometheusCluster Q
    → Result Unit
    → (String → Option String)
    → String
    → Option String
promised pc r before k =
    if not pc.spec.backup.enabled || pc.spec.backup.schedule == ""
    then before k
    else if entry_key pc.meta.namespace pc.meta.name == k
    then accepted r pc.spec.backup.schedule
    else before k

module _ {W : Type 0} (cron : Cron W) (jobs : W → List Job) (counter : W → ℕ) where
  -- cron numbers its entries upwards, and never uses a number again.
  pub record NumberLaws : Type 0 where
    pub fresh :
        (schedule ns name : String) (w : W) (id : ℕ) (w' : W)
        → cron.add_func schedule ns name w ≡ (ok id, w')
        → (counter w ≤ id) × (id < counter w')
    pub grows :
        (schedule ns name : String) (w : W)
        → counter w ≤ counter (cron.add_func schedule ns name w).1
    pub stays : (id : ℕ) (w : W) → counter (cron.remove id w) ≡ counter w

  -- Every entry in force is the one down for its cluster, and the numbers down are apart.
  pub record IsTracked (s : Map ℕ × W) : Type 0 where
    pub one_per_cluster : IsOnePerCluster cron jobs s
    pub used : (k : String) (id : ℕ) → lookup k s.0 ≡ some id → id < counter s.1
    pub apart : (k k' : String) (id : ℕ) → lookup k s.0 ≡ some id → lookup k' s.0 ≡ some id → k ≡ k'

  pub some-injective : (a b : ℕ) → some a ≡ some b → a ≡ b
  some-injective a b e = cc

  -- Without the entry of a cluster, it has no schedule, and the others keep theirs.
  pub schedule_in-without :
      (entries : Map ℕ) (key k : String) (id : ℕ) (js : List Job)
      → lookup key entries ≡ some id
      → ((k k' : String) (id : ℕ)
          → lookup k entries ≡ some id
          → lookup k' entries ≡ some id
          → k ≡ k')
      → All (IsKnown cron jobs entries) js
      → schedule_in k (without id js) ≡ (if key == k then none else schedule_in k js)
  unfolding schedule_in without
  schedule_in-without entries key k id [] e apart h = ground arith
  schedule_in-without entries key k id (j ∷ js) e apart (known, h) =
      let rest = schedule_in-without entries key k id js e apart h in
      elim (Bool-cases (nat_eq j.id id)) [
        | inl gone ↦
            let same : j.id ≡ id = ground arith in
            let its : j.key ≡ key = apart j.key key id (known ∙ ap some same) e in
            rw gone (ground (arith, rest, its, eq_iff key k, eq_iff j.key k))
        | inr stays ↦
            let other : j.key ≢ key = λ q.
              let again : some j.id ≡ some id = sym known ∙ ap (λ x. lookup x entries) q ∙ e in
              let clash = some-injective j.id id again in ground (arith, clash, stays) in
            rw stays (ground (arith, rest, other, eq_iff key k, eq_iff j.key k))
      ]

  pub schedule_in-unknown :
      (entries : Map ℕ) (key k : String) (js : List Job)
      → lookup key entries ≡ none
      → All (IsKnown cron jobs entries) js
      → schedule_in k js ≡ (if key == k then none else schedule_in k js)
  unfolding schedule_in
  schedule_in-unknown entries key k [] e h = ground arith
  schedule_in-unknown entries key k (j ∷ js) e (known, h) =
      let other : j.key ≢ key = λ q.
        let again : some j.id ≡ none = sym known ∙ ap (λ x. lookup x entries) q ∙ e in
        let bad : ⊥ = cc in bad in
      ground (arith, schedule_in-unknown entries key k js e h, other, eq_iff key k, eq_iff j.key k)
