-- ===== src/Backups/Promised.antt =====
-- A registration does what the scheduler promises.
use tsdb_operator.Base.{
  ℕ, ◌<◌, ◌≤◌, String, Option, none, some, List, ◌==◌, eq_iff, not, ◌||◌, if◌then◌else◌, ◌≡◌, ◌⊎◌,
  refl, sym, ap, ◌∙◌, arith, Map, lookup, insert, lookup-insert, Result, ok, err, panic, Bool-cases,
  Option-cases, inl, inr,
}
use tsdb_operator.Types.{PrometheusCluster}
use tsdb_operator.Backups.{Cron, entry_key, remove_old, added, register}
use tsdb_operator.Backups.Entries.{Job, after_add, CronLaws, register-IsOnePerCluster}
use tsdb_operator.Backups.Schedules.{
  schedule_in, accepted, promised, NumberLaws, IsTracked, some-injective, schedule_in-without,
  schedule_in-unknown,
}

module _ {W : Type 0} (cron : Cron W) (jobs : W → List Job) (counter : W → ℕ)
    (laws : CronLaws cron jobs) (numbers : NumberLaws cron jobs counter) where
  removed :
      (key k : String) (entries : Map ℕ) (w : W)
      → IsTracked cron jobs counter (entries, w)
      → schedule_in k (jobs (remove_old cron (lookup key entries) w))
        ≡ (if key == k then none else schedule_in k (jobs w))
  removed key k entries w t = elim (Option-cases (lookup key entries)) [
    | inl e ↦
        rw e (schedule_in-unknown cron jobs counter entries key k (jobs w) e t.one_per_cluster)
    | inr (id, e) ↦ rw e (
        ap (schedule_in k) (laws.removes id w)
        ∙ schedule_in-without cron jobs counter entries key k id (jobs w) e t.apart
            t.one_per_cluster)
  ]

  counter-removed : (o : Option ℕ) (w : W) → counter (remove_old cron o w) ≡ counter w
  counter-removed none w = refl
  counter-removed (some id) w = numbers.stays id w

  -- After the call of cron, whatever its result.
  schedule_in-added :
      (schedule key k : String) (entries : Map ℕ) (before : Option String) (js : List Job)
      (r : Result ℕ) (w : W)
      → jobs w ≡ after_add r schedule key js
      → schedule_in k js ≡ (if key == k then none else before)
      → schedule_in k (jobs (added cron key entries (r, w)).1.1)
        ≡ (if key == k then accepted (added cron key entries (r, w)).0 schedule else before)
  unfolding schedule_in
  schedule_in-added schedule key k entries before js (ok id) w e h = rw e (ground (arith, h))
  schedule_in-added schedule key k entries before js (err x) w e h = rw e h
  schedule_in-added schedule key k entries before js panic w e h = rw e h

  insert-cases :
      (key k : String) (new id : ℕ) (entries : Map ℕ)
      → lookup k (insert key new entries) ≡ some id
      → ((k ≡ key) × (id ≡ new)) ⊎ (lookup k entries ≡ some id)
  insert-cases key k new id entries e =
      let at : ◌≡◌ {A = Option ℕ} (if key == k then some new else lookup k entries) (some id) =
        sym (lookup-insert key k new entries) ∙ e in
      elim (Bool-cases (key == k)) [
        | inl same ↦
            let its : new ≡ id = some-injective cron jobs counter new id (rw same at at) in
            inl (ground (arith, eq_iff key k), sym its)
        | inr other ↦ inr (rw other at at)
      ]

  added-used :
      (key : String) (entries : Map ℕ) (w₁ : W) (r : Result ℕ) (w : W)
      → ((id : ℕ) → r ≡ ok id → (counter w₁ ≤ id) × (id < counter w))
      → counter w₁ ≤ counter w
      → ((k : String) (id : ℕ) → lookup k entries ≡ some id → id < counter w₁)
      → (k : String) (id : ℕ) → lookup k (added cron key entries (r, w)).1.0 ≡ some id
      → id < counter (added cron key entries (r, w)).1.1
  added-used key entries w₁ (ok new) w fresh grows used k id e =
      elim (insert-cases key k new id entries e) [
        | inl (same, its) ↦ omega (arith, its, (fresh new refl).1)
        | inr old ↦ omega (arith, used k id old, grows)
      ]
  added-used key entries w₁ (err x) w fresh grows used k id e = omega (arith, used k id e, grows)
  added-used key entries w₁ panic w fresh grows used k id e = omega (arith, used k id e, grows)

  added-apart :
      (key : String) (entries : Map ℕ) (w₁ : W) (r : Result ℕ) (w : W)
      → ((id : ℕ) → r ≡ ok id → counter w₁ ≤ id)
      → ((k : String) (id : ℕ) → lookup k entries ≡ some id → id < counter w₁)
      → ((k k' : String) (id : ℕ)
          → lookup k entries ≡ some id
          → lookup k' entries ≡ some id
          → k ≡ k')
      → (k k' : String) (id : ℕ) → lookup k (added cron key entries (r, w)).1.0 ≡ some id
      → lookup k' (added cron key entries (r, w)).1.0 ≡ some id
      → k ≡ k'
  added-apart key entries w₁ (ok new) w fresh used apart k k' id e e' =
      elim (insert-cases key k new id entries e) [
        | inl (same, its) ↦ elim (insert-cases key k' new id entries e') [
          | inl (same', its') ↦ same ∙ sym same'
          | inr old ↦ absurd (omega (arith, its, used k' id old, fresh new refl))
        ]
        | inr old ↦ elim (insert-cases key k' new id entries e') [
          | inl (same, its) ↦ absurd (omega (arith, its, used k id old, fresh new refl))
          | inr old' ↦ apart k k' id old old'
        ]
      ]
  added-apart key entries w₁ (err x) w fresh used apart k k' id e e' = apart k k' id e e'
  added-apart key entries w₁ panic w fresh used apart k k' id e e' = apart k k' id e e'

  -- A registration does what is promised of it, on every outcome: the cluster has the new schedule
  -- if it succeeds and none if cron refuses it, the other clusters keep theirs, and nothing changes
  -- if backups are off. The entries stay tracked.
  pub register-promised :
      {Q : Type 0} (pc : PrometheusCluster Q) (s : Map ℕ × W)
      → IsTracked cron jobs counter s
      → IsTracked cron jobs counter (register cron pc s).1
        × ((k : String)
            → schedule_in k (jobs (register cron pc s).1.1)
              ≡ promised pc (register cron pc s).0 (λ c. schedule_in c (jobs s.1)) k)
  unfolding register
  register-promised pc (entries, w) t =
      let key = entry_key pc.meta.namespace pc.meta.name in
      let schedule = pc.spec.backup.schedule in
      let w₁ = remove_old cron (lookup key entries) w in
      let x = cron.add_func schedule pc.meta.namespace pc.meta.name w₁ in
      let known = register-IsOnePerCluster cron jobs laws pc (entries, w) t.one_per_cluster in
      let same = counter-removed (lookup key entries) w in
      let fresh : (id : ℕ) → x.0 ≡ ok id → (counter w₁ ≤ id) × (id < counter x.1) = λ id q.
        numbers.fresh schedule pc.meta.namespace pc.meta.name w₁ id x.1 (ap (λ r. (r, x.1)) q) in
      let used : (k : String) (id : ℕ) → lookup k entries ≡ some id → id < counter w₁ =
        λ k id q. omega (arith, same, t.used k id q) in
      elim (Bool-cases (not pc.spec.backup.enabled || schedule == "")) [
        | inl off ↦ rw off (t, λ k. refl)
        | inr on ↦
            let known_on = rw on at known in
            rw on (
              record {
                one_per_cluster = known_on;
                used =
                    added-used key entries w₁ x.0 x.1 fresh
                      (numbers.grows schedule pc.meta.namespace pc.meta.name w₁) used;
                apart = added-apart key entries w₁ x.0 x.1 (λ id q. (fresh id q).0) used t.apart;
              },
              λ k.
                  schedule_in-added schedule key k entries (schedule_in k (jobs w)) (jobs w₁) x.0
                    x.1 (laws.adds schedule pc.meta.namespace pc.meta.name w₁)
                    (removed key k entries w t),
            )
      ]
