-- ===== src/Backups/CronMemory.antt =====
-- A cron library in memory, and a scheduler that has one entry, for tests and examples.
use tsdb_operator.Base.{
  String, some, none, Option, ap, sym, ◌∙◌, suc, arith, Result, panic, Bool-cases, eq_iff, ◌==◌,
  inr, inl, ℕ, List, [], ◌∷◌, Map, ◌≡◌, refl, ok, lookup,
}
use tsdb_operator.Backups.{Cron, entry_key}
use tsdb_operator.Backups.Entries.{Job, without, CronLaws, IsOnePerCluster}
use tsdb_operator.Kube.Memory.{ok-injective}
use tsdb_operator.Backups.Schedules.{NumberLaws, IsTracked}

-- The cron entries in force, and the next number.
abbrev pub Jobs : Type 0
Jobs = List Job × ℕ

abbrev pub cron : Cron Jobs
cron = record {
  start = λ w. w;
  stop = λ w. w;
  remove = λ id w. (without id w.0, w.1);
  add_func = λ schedule ns name w.
      (ok w.1, (record { id = w.1; schedule = schedule; key = entry_key ns name } ∷ w.0, suc w.1));
}

abbrev pub old_job : Job
old_job = record { id = 3; schedule = "@daily"; key = "monitoring/edge" }

abbrev pub old_state : Map ℕ × Jobs
old_state = (("monitoring/edge", 3) ∷ [], (old_job ∷ [], 4))

pub cron_laws : CronLaws cron (λ w. w.0)
cron_laws = record { removes = λ id w. refl; adds = λ schedule ns name w. refl }

pub number_laws : NumberLaws cron (λ w. w.0) (λ w. w.1)
number_laws = record {
  fresh = λ schedule ns name w id w' e.
      let its : w.1 ≡ id = ok-injective w.1 id (ap (λ x. x.0) e) in
      let next : suc w.1 ≡ w'.1 = ap (λ x. x.1.1) e in
      (omega (arith, its), omega (arith, its, next));
  grows = λ schedule ns name w. omega arith;
  stays = λ id w. refl;
}

old_state-known : IsOnePerCluster cron (λ w. w.0) old_state
unfolding lookup
old_state-known = (refl, tt)

only_one :
    (k : String) (id : ℕ) → lookup k old_state.0 ≡ some id → ("monitoring/edge" ≡ k) × (3 ≡ id)
unfolding lookup
only_one k id e = elim (Bool-cases ("monitoring/edge" == k)) [
  | inl h ↦
      let found : some 3 ≡ some id = rw h at e in
      (ground (arith, eq_iff "monitoring/edge" k, h), ok-injective 3 id (ap ok_of found))
  | inr h ↦
      let missing : ◌≡◌ {A = Option ℕ} none (some id) = rw h at e in let bad : ⊥ = cc in absurd bad
]
  where
    ok_of : Option ℕ → Result ℕ
    ok_of none = panic
    ok_of (some n) = ok n

pub old_state-IsTracked : IsTracked cron (λ w. w.0) (λ w. w.1) old_state
unfolding lookup
old_state-IsTracked = record {
  one_per_cluster = old_state-known;
  used = λ k id e. omega (arith, only_one k id e);
  apart = λ k k' id e e'. sym (only_one k id e).0 ∙ (only_one k' id e').0;
}
