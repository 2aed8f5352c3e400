-- ===== src/Reconcile/Scheduled/Tests.antt =====
-- Examples of passes with a scheduler.
use tsdb_operator.Base.{ℕ, none, some, [], ok, false, ◌≡◌, refl, ap, subst, inl, inr, Map, Action}
use tsdb_operator.Types.{PrometheusCluster, StatefulSet}
use mathlib.Core.Option.{some-injective}
use tsdb_operator.Base.Int.{pos}
use tsdb_operator.Base.Total.{Returns}
use tsdb_operator.Workload.{build_stateful_set}
use tsdb_operator.Kube.Memory.{Quantity, World, memory, put, put_set, AsSent, tools-OwnerKeepsKey}
use tsdb_operator.Kube.Memory.Up.{
  memory-reads, memory-updates, memory-looks_up, memory-stores, memory-writes_map,
  memory-writes_service, tools-finalizer,
}
use tsdb_operator.Kube.Memory.Beside.{
  server, server_view, server-Frames, server-Effects, server-Returns,
}
use tsdb_operator.Reconcile.Steps.{PhasesApart, RegisterApart}
use tsdb_operator.Reconcile.Settled.{IsSettled}
use tsdb_operator.Reconcile.Converges.{reconcile-IsSettled}
use tsdb_operator.Reconcile.Available.{IsAvailable, IsAccepted}
use tsdb_operator.Reconcile.BringsUp.{with_finalizer, reconcile-brings_up}
use tsdb_operator.Metrics.{set_phase, set_phases, delete_cluster}
use tsdb_operator.Backups.{register}
use tsdb_operator.Backups.CronMemory.{Jobs, cron, old_state}
use tsdb_operator.Reconcile.{Reconciler, requeue, done, finalizer_name, reconcile}
use tsdb_operator.Reconcile.Scheduled.{RegistersWith, reconcile-keeps_schedules}
use tsdb_operator.Reconcile.Apart.{SchedulerApart}
use tsdb_operator.Samples.{cluster, cluster_key, reconciler, no_metrics, world, empty_world}

-- The API server, and the scheduler's entries with cron.
abbrev Both : Type 0
Both = World × (Map ℕ × Jobs)

abbrev on_scheduler : {A : Type 0} → Action (Map ℕ × Jobs) A → Action Both A
on_scheduler m b = let (r, s) = m b.1 in (r, (b.0, s))

abbrev registrar : PrometheusCluster Quantity → Action Both Unit
registrar pc = on_scheduler (register cron pc)

abbrev backing_up : Reconciler Quantity Both
backing_up = record {
  client = server;
  tools = reconciler.tools;
  quantities = reconciler.quantities;
  registry = no_metrics;
  register = some registrar;
  table = reconciler.table;
}

apart : SchedulerApart backing_up (λ b. b.1)
unfolding set_phase set_phases delete_cluster
apart = record {
  get_cluster = λ k u. refl;
  update_cluster = λ pc u. refl;
  update_cluster_status = λ pc u. refl;
  get_stateful_set = λ k u. refl;
  create_stateful_set = λ s u. refl;
  update_stateful_set = λ s u. refl;
  config_map = λ cm f u. refl;
  service = λ s f u. refl;
  phase = λ ns name p u. refl;
  series = λ ns name u. refl;
}

registers : RegistersWith cron backing_up (λ b. b.1) registrar
registers = record { set = refl; leaves = λ pc u. refl }

abbrev running : Both
running = (world, old_state)

-- The sample, being deleted.
abbrev leaving : PrometheusCluster Quantity
leaving = record cluster {
  meta = record cluster.meta { deletion_timestamp = some 63844806896000000000 };
}

abbrev with_leaving : Both
with_leaving = (record world { clusters = put cluster_key leaving world.clusters }, old_state)

keeps_schedules_example : (reconcile backing_up cluster_key with_leaving).1.1 ≡ old_state
keeps_schedules_example =
    reconcile-keeps_schedules cron backing_up (λ b. b.1) apart registrar registers cluster_key
      leaving with_leaving with_leaving refl (inl refl)

phases_apart : PhasesApart backing_up server_view
unfolding set_phase set_phases
phases_apart ns c phase b = refl

registering : RegisterApart backing_up server_view
registering register on pc b =
    let same : registrar ≡ register = some-injective registrar register on in
    subst (λ f. server_view (f pc b).1 ≡ server_view b) same refl

-- The cluster runs with one replica of the two that it asks for now.
abbrev one_replica : StatefulSet Quantity
one_replica = record (build_stateful_set reconciler.quantities cluster) {
  meta = cluster.meta;
  replicas = some (pos 1);
  ready_replicas = pos 1;
}

abbrev growing : Both
growing =
    (record world { stateful_sets = put cluster_key one_replica world.stateful_sets }, old_state)

abbrev grown : Both
grown = (reconcile backing_up cluster_key growing).1

grown_ok : reconcile backing_up cluster_key growing ≡ (ok done, grown)
unfolding reconcile register build_stateful_set
grown_ok = refl

reconcile-IsSettled_example :
    IsSettled AsSent backing_up cluster
      ((server_view growing).stateful_sets cluster_key)
      (server_view grown)
reconcile-IsSettled_example =
    reconcile-IsSettled AsSent backing_up server_view cluster server-Frames server-Effects
      (tools-OwnerKeepsKey (λ a b. false)) phases_apart registering cluster_key growing done grown
      refl refl refl grown_ok

up : IsAvailable backing_up server_view
up = record {
  reads = λ k b pc there. (b, ap (λ p. (p.0, (p.1, b.1))) (memory-reads k b.0 pc there));
  updates = λ pc b. (_, refl, memory-updates pc b.0);
  updates_status = λ pc b. (_, _, refl, tt);
  looks_up = λ k b. elim (memory-looks_up k b.0) [
    | inl (s, w, q, set) ↦ inl (s, (w, b.1), ap (λ p. (p.0, (p.1, b.1))) q, set)
    | inr (e, w, q, gone) ↦ inr (e, (w, b.1), ap (λ p. (p.0, (p.1, b.1))) q, gone)
  ];
  creates = λ s n set. server-Returns (put_set s) _ (memory-stores s n set);
  replaces = λ s n set. server-Returns (put_set s) _ (memory-stores s n set);
  writes_map = λ cm f h.
      server-Returns (memory.create_or_update_config_map cm f) _ (memory-writes_map cm f h);
  writes_service =
      λ s f h. server-Returns (memory.create_or_update_service s f) _ (memory-writes_service s f h);
  owns = λ owner m. (_, refl);
  adds_finalizer = λ m. (tools-finalizer (λ a b. false) m finalizer_name, refl, refl);
}

-- The cluster before its first pass.
abbrev new : PrometheusCluster Quantity
new = record cluster { meta = record cluster.meta { finalizers = [] } }

abbrev new_world : Both
new_world = (record empty_world { clusters = put cluster_key new empty_world.clusters }, old_state)

-- Cron takes its schedule.
accepted : IsAccepted backing_up server_view (with_finalizer backing_up new)
unfolding register
accepted register on enabled =
    let same : registrar ≡ register = some-injective registrar register on in
    subst (λ f. Returns (f (with_finalizer backing_up new)) (λ _. Unit)) same
      (λ b. (tt, _, refl, tt))

reconcile-brings_up_example :
    (w₁ w₂ : Both) × (reconcile backing_up cluster_key new_world ≡ (ok requeue, w₁))
    × (reconcile backing_up cluster_key w₁ ≡ (ok done, w₂))
    × IsSettled AsSent backing_up (with_finalizer backing_up new) none (server_view w₂)
reconcile-brings_up_example =
    reconcile-brings_up AsSent backing_up server_view server-Frames server-Effects
      (tools-OwnerKeepsKey (λ a b. false)) phases_apart registering up new new_world refl refl refl
      accepted
