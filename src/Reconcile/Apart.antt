-- ===== src/Reconcile/Apart.antt =====
-- Which part of the world the steps of a pass over a cluster leave alone: that of the backup
-- scheduler, once the cluster was registered.
use tsdb_operator.Base.{
  String, ◌≡◌, inl, inr, ◌∙◌, Result, panic, Action, throw, lift, wrapping, ◌>>=◌, modify,
  is_not_found, Option-cases,
}
use tsdb_operator.Base.Int.{ℤ}
use tsdb_operator.Base.Hoare.{
  Keeps, Guards, Guards-Keeps, Keeps-Guards, bind-Guards, wrapping-Guards, pure-Guards, if-Guards,
  attempt-Guards,
}
use tsdb_operator.Types.{Key, PrometheusCluster, StatefulSet, ConfigMap, Service, ClusterPhase}
use tsdb_operator.Metrics.{set_phase, delete_cluster}
use tsdb_operator.Reconcile.{
  Reconciler, Next, done, finalizer_name, reconcile_config_map, reconcile_headless_service,
  update_phase, finalize, create_stateful_set, sync_replicas, sync_stateful_set,
  reconcile_stateful_set, add_finalizer,
}

module _ {Q U S : Type 0} (r : Reconciler Q U) (scheduler : U → S) where
  -- The calls of the API server and of the metrics do not touch the scheduler.
  pub record SchedulerApart : Type 0 where
    pub get_cluster : (k : Key) (u : U) → scheduler (r.client.get_cluster k u).1 ≡ scheduler u
    pub update_cluster :
        (pc : PrometheusCluster Q) (u : U)
        → scheduler (r.client.update_cluster pc u).1 ≡ scheduler u
    pub update_cluster_status :
        (pc : PrometheusCluster Q) (u : U)
        → scheduler (r.client.update_cluster_status pc u).1 ≡ scheduler u
    pub get_stateful_set :
        (k : Key) (u : U) → scheduler (r.client.get_stateful_set k u).1 ≡ scheduler u
    pub create_stateful_set :
        (s : StatefulSet Q) (u : U) → scheduler (r.client.create_stateful_set s u).1 ≡ scheduler u
    pub update_stateful_set :
        (s : StatefulSet Q) (u : U) → scheduler (r.client.update_stateful_set s u).1 ≡ scheduler u
    pub config_map :
        (cm : ConfigMap) (f : ConfigMap → Result ConfigMap) (u : U)
        → scheduler (r.client.create_or_update_config_map cm f u).1 ≡ scheduler u
    pub service :
        (s : Service) (f : Service → Result Service) (u : U)
        → scheduler (r.client.create_or_update_service s f u).1 ≡ scheduler u
    pub phase :
        (ns name : String) (p : ClusterPhase) (u : U)
        → scheduler (set_phase r.registry ns name p u) ≡ scheduler u
    pub series :
        (ns name : String) (u : U) → scheduler (delete_cluster r.registry ns name u) ≡ scheduler u

  module _ (apart : SchedulerApart) (s : S) where
    abbrev pub Same : U → Type 0
    Same u = scheduler u ≡ s

    calls :
        {A : Type 0} (m : Action U A) → ((u : U) → scheduler (m u).1 ≡ scheduler u) → Keeps Same m
    calls m same u h = same u ∙ h

    status-Guards :
        (pc : PrometheusCluster Q) (phase : ClusterPhase) (ready : ℤ)
        → Guards Same (update_phase r pc phase ready)
    unfolding update_phase
    status-Guards pc phase ready =
        bind-Guards Same _ _
          (wrapping-Guards Same _ _
            (calls (r.client.update_cluster_status _) (apart.update_cluster_status _)))
          (λ stored.
            bind-Guards Same _ _
              (Keeps-Guards Same
                (modify (set_phase r.registry stored.meta.namespace stored.meta.name phase))
                (λ u h. apart.phase stored.meta.namespace stored.meta.name phase u ∙ h))
              (λ _. pure-Guards Same done))

    config_map-Guards : (pc : PrometheusCluster Q) → Guards Same (reconcile_config_map r pc)
    unfolding reconcile_config_map
    config_map-Guards pc =
        bind-Guards Same _ _
          (Keeps-Guards Same (r.client.create_or_update_config_map _ _)
            (calls (r.client.create_or_update_config_map _ _) (apart.config_map _ _)))
          (λ op. pure-Guards Same _)

    service-Guards : (pc : PrometheusCluster Q) → Guards Same (reconcile_headless_service r pc)
    unfolding reconcile_headless_service
    service-Guards pc =
        bind-Guards Same _ _
          (Keeps-Guards Same (r.client.create_or_update_service _ _)
            (calls (r.client.create_or_update_service _ _) (apart.service _ _)))
          (λ op. pure-Guards Same tt)

    create-Guards : (pc : PrometheusCluster Q) → Guards Same (create_stateful_set r pc)
    unfolding create_stateful_set
    create-Guards pc = bind-Guards Same _ _ (wrapping-Guards Same _ (lift _) (λ u h. h)) (λ owned.
        bind-Guards Same _ _
          (wrapping-Guards Same _ (r.client.create_stateful_set _)
            (calls (r.client.create_stateful_set _) (apart.create_stateful_set _)))
          (λ _. status-Guards pc _ _))

    sync_replicas-Guards :
        (pc : PrometheusCluster Q) (current : StatefulSet Q) (n : ℤ)
        → Guards Same (sync_replicas r pc current n)
    unfolding sync_replicas
    sync_replicas-Guards pc current n =
        bind-Guards Same _ _
          (if-Guards Same _ _ _
            (wrapping-Guards Same _ (r.client.update_stateful_set _)
              (calls (r.client.update_stateful_set _) (apart.update_stateful_set _)))
            (pure-Guards Same current))
          (λ now. status-Guards pc _ _)

    sync-Guards :
        (pc : PrometheusCluster Q) (current : StatefulSet Q)
        → Guards Same (sync_stateful_set r pc current)
    unfolding sync_stateful_set
    sync-Guards pc current = elim (Option-cases current.replicas) [
      | inl e ↦ rw (e, sync_stateful_set) (Keeps-Guards Same (lift panic) (λ u h. h))
      | inr (n, e) ↦ rw (e, sync_stateful_set) (sync_replicas-Guards pc current n)
    ]

    stateful_set-Guards : (pc : PrometheusCluster Q) → Guards Same (reconcile_stateful_set r pc)
    unfolding reconcile_stateful_set
    stateful_set-Guards pc =
        attempt-Guards Same (r.client.get_stateful_set _) _ _
          (calls (r.client.get_stateful_set _) (apart.get_stateful_set _))
          (λ e.
            if-Guards Same (is_not_found e.reason) _ _ (create-Guards pc)
              (Keeps-Guards Same (throw _) (λ u h. h)))
          (sync-Guards pc)

    pub finalize-Guards : (pc : PrometheusCluster Q) → Guards Same (finalize r pc)
    unfolding finalize
    finalize-Guards pc =
        if-Guards Same (r.tools.contains_finalizer pc.meta finalizer_name) _ _
          (bind-Guards Same _ _
            (wrapping-Guards Same _ (r.client.update_cluster _)
              (calls (r.client.update_cluster _) (apart.update_cluster _)))
            (λ stored.
              bind-Guards Same _ _
                (Keeps-Guards Same
                  (modify (delete_cluster r.registry stored.meta.namespace stored.meta.name))
                  (λ u h. apart.series stored.meta.namespace stored.meta.name u ∙ h))
                (λ _. pure-Guards Same done)))
          (pure-Guards Same done)

    pub add_finalizer-Guards : (pc : PrometheusCluster Q) → Guards Same (add_finalizer r pc)
    unfolding add_finalizer
    add_finalizer-Guards pc =
        bind-Guards Same _ _
          (wrapping-Guards Same _ (r.client.update_cluster _)
            (calls (r.client.update_cluster _) (apart.update_cluster _)))
          (λ stored. pure-Guards Same _)

    unfoldable pub children_after_register : PrometheusCluster Q → Action U Next
    children_after_register pc = wrapping "reconcile configmap" (reconcile_config_map r pc) >>= λ _.
        wrapping "reconcile service" (reconcile_headless_service r pc) >>= λ _.
        reconcile_stateful_set r pc

    pub children-Keeps : (pc : PrometheusCluster Q) → Keeps Same (children_after_register pc)
    unfolding children_after_register
    children-Keeps pc = Guards-Keeps Same _ (
        bind-Guards Same _ _
          (wrapping-Guards Same _ (reconcile_config_map r pc)
            (Guards-Keeps Same _ (config_map-Guards pc)))
          (λ _.
            bind-Guards Same _ _
              (wrapping-Guards Same _ (reconcile_headless_service r pc)
                (Guards-Keeps Same _ (service-Guards pc)))
              (λ _. stateful_set-Guards pc)))
