-- ===== src/Reconcile/Scheduled.antt =====
-- What a pass over a cluster does to the schedules of the backup scheduler.
mod Tests
use tsdb_operator.Base.{
  ℕ, Option, none, some, Bool, true, false, not, ◌==◌, ◌||◌, eq_iff, ◌≡◌, ◌≢◌, ◌⊎◌, inl, inr, refl,
  sym, ap, ◌∙◌, arith, Map, Result, ok, err, panic, Error, Action, pure, throw, lift, wrap,
  wrapping, wrapping_result, ◌>>=◌, attempt, handle, modify, is_not_found, if◌then◌else◌,
  Bool-cases, Option-cases,
}
use tsdb_operator.Base.Int.{ℤ}
use tsdb_operator.Base.Hoare.{
  Keeps, and_then-Keeps, Guards, Guards-Keeps, Keeps-Guards, bind-Guards, wrapping-Guards,
  pure-Guards, if-Guards, attempt-Guards,
}
use tsdb_operator.Types.{
  Key, PrometheusCluster, StatefulSet, ConfigMap, Service, is_zero_time, ClusterPhase,
}
use tsdb_operator.Kube.{Client}
use tsdb_operator.Metrics.{set_phase, delete_cluster}
use tsdb_operator.Backups.{Cron, entry_key, register}
use tsdb_operator.Reconcile.{
  Reconciler, Next, done, finalizer_name, reconcile_config_map, reconcile_headless_service,
  update_phase, finalize, create_stateful_set, sync_replicas, sync_stateful_set,
  reconcile_stateful_set, register_backup, reconcile_children, add_finalizer, reconcile_found,
  reconcile,
}
use tsdb_operator.Reconcile.Apart.{
  SchedulerApart, Same, children_after_register, children-Keeps, finalize-Guards,
  add_finalizer-Guards,
}

settled :
    {A : Type 0} (b : Bool) (x y z : A)
    → (b ≡ true → x ≡ z)
    → (b ≡ false → y ≡ z)
    → (if b then x else y) ≡ z
settled true x y z h k = h refl
settled false x y z h k = k refl

module _ {Q U C : Type 0} (cron : Cron C) (r : Reconciler Q U) (scheduler : U → Map ℕ × C) where
  -- The reconciler's registrar is the scheduler's `Register`, on the scheduler's part of the world.
  pub record RegistersWith (reg : PrometheusCluster Q → Action U Unit) : Type 0 where
    pub set : r.register ≡ some reg
    pub leaves :
        (pc : PrometheusCluster Q) (u : U)
        → scheduler (reg pc u).1 ≡ (register cron pc (scheduler u)).1

  -- The cluster is taken through the steps of its children.
  pub record IsTaken (pc : PrometheusCluster Q) : Type 0 where
    pub live : is_zero_time pc.meta.deletion_timestamp ≡ true
    pub held : r.tools.contains_finalizer pc.meta finalizer_name ≡ true

  module _ (apart : SchedulerApart r scheduler) (reg : PrometheusCluster Q → Action U Unit)
      (registers : RegistersWith reg) where
    off_register :
        (pc : PrometheusCluster Q) (s : Map ℕ × C)
        → pc.spec.backup.enabled ≡ false
        → register cron pc s ≡ (ok tt, s)
    unfolding register
    off_register pc s off = rw off refl

    switched :
        (b : Bool) (m : Action U Unit) (u : U)
        → scheduler ((if b then wrapping "register backup" m else pure tt) u).1
          ≡ (if b then scheduler (m u).1 else scheduler u)
    switched true m u = refl
    switched false m u = refl

    registered :
        (pc : PrometheusCluster Q) (u : U)
        → scheduler (register_backup r pc u).1 ≡ (register cron pc (scheduler u)).1
    unfolding register_backup
    registered pc u =
        rw (registers.set, register_backup)
          (switched pc.spec.backup.enabled (reg pc) u
            ∙ settled pc.spec.backup.enabled _ _ _ (λ _. registers.leaves pc u)
                (λ off. sym (ap (λ x. x.1) (off_register pc (scheduler u) off))))

    children_schedules :
        (pc : PrometheusCluster Q) (u : U)
        → scheduler (reconcile_children r pc u).1 ≡ (register cron pc (scheduler u)).1
    unfolding reconcile_children children_after_register
    children_schedules pc u =
        let before = scheduler (register_backup r pc u).1 in
        and_then-Keeps (Same r scheduler apart before) (register_backup r pc u).0
          (λ _. children_after_register r scheduler apart before pc) (register_backup r pc u).1
          (λ _. children-Keeps r scheduler apart before pc) refl
        ∙ registered pc u

    taken_schedules :
        (pc : PrometheusCluster Q) (u : U)
        → IsTaken pc
        → scheduler (reconcile_found r pc u).1 ≡ (register cron pc (scheduler u)).1
    unfolding reconcile_found
    taken_schedules pc u taken =
        rw (taken.live, taken.held, reconcile_found) (children_schedules pc u)

    untaken_schedules :
        (pc : PrometheusCluster Q) (u : U)
        → (is_zero_time pc.meta.deletion_timestamp ≡ false)
          ⊎ ((r.tools.contains_finalizer pc.meta finalizer_name ≡ false)
              ⊎ (pc.spec.backup.enabled ≡ false))
        → scheduler (reconcile_found r pc u).1 ≡ scheduler u
    unfolding reconcile_found
    untaken_schedules pc u why = elim (Bool-cases (is_zero_time pc.meta.deletion_timestamp)) [
      | inr deleted ↦
          rw (deleted, reconcile_found)
            (Guards-Keeps (Same r scheduler apart (scheduler u)) (finalize r pc)
              (finalize-Guards r scheduler apart (scheduler u) pc) u refl)
      | inl live ↦ elim (Bool-cases (r.tools.contains_finalizer pc.meta finalizer_name)) [
        | inr bare ↦
            rw (live, bare, reconcile_found)
              (Guards-Keeps (Same r scheduler apart (scheduler u)) (add_finalizer r pc)
                (add_finalizer-Guards r scheduler apart (scheduler u) pc) u refl)
        | inl held ↦
            let off : pc.spec.backup.enabled ≡ false = ground (arith, why) in
            taken_schedules pc u (record { live = live; held = held })
            ∙ ap (λ x. x.1) (off_register pc (scheduler u) off)
      ]
    ]

    -- After the cluster was read.
    found_schedules :
        (key : Key) (pc : PrometheusCluster Q) (u u₁ : U)
        → r.client.get_cluster key u ≡ (ok pc, u₁)
        → (scheduler u₁ ≡ scheduler u) × (reconcile r key u ≡ reconcile_found r pc u₁)
    unfolding reconcile
    found_schedules key pc u u₁ e = (
      sym (ap (λ x. scheduler x.1) e) ∙ apart.get_cluster key u,
      ap
          (λ x.
            handle x.0
              (λ e.
                if is_not_found e.reason then pure done else throw (wrap "get PrometheusCluster" e))
              (reconcile_found r) x.1)
          e,
    )

    -- A pass over a cluster that is being deleted, that has no finalizer yet, or whose backups are off
    -- leaves the scheduler as it was: a schedule that the cluster had stays in force.
    pub reconcile-keeps_schedules :
        (key : Key) (pc : PrometheusCluster Q) (u u₁ : U)
        → r.client.get_cluster key u ≡ (ok pc, u₁)
        → (is_zero_time pc.meta.deletion_timestamp ≡ false)
          ⊎ ((r.tools.contains_finalizer pc.meta finalizer_name ≡ false)
              ⊎ (pc.spec.backup.enabled ≡ false))
        → scheduler (reconcile r key u).1 ≡ scheduler u
    reconcile-keeps_schedules key pc u u₁ e why =
        let (same, found) = found_schedules key pc u u₁ e in
        ap (λ x. scheduler x.1) found ∙ untaken_schedules pc u₁ why ∙ same
