-- ===== src/Reconcile/Available.antt =====
-- While the API server takes every write, two passes bring up a new cluster.
use tsdb_operator.Base.{
  insert, [], ◌∷◌, some, true, ◌≡◌, ◌⊎◌, refl, inl, inr, not, ◌||◌, Option-cases, Result, ok, err,
  Error, Action, lift, is_not_found,
}
use tsdb_operator.Base.Int.{ℤ, pos, eqb_ℤ}
use tsdb_operator.Base.Total.{
  Returns, bind-Returns, wrapping-Returns, pure-Returns, lift-Returns, if-Returns, if-Returns-known,
  attempt-Returns, modify-Returns,
}
use tsdb_operator.Types.{
  Key, key_of, ObjectMeta, PrometheusCluster, StatefulSet, ConfigMap, Service, ClusterPhase,
  phase_provisioning,
}
use tsdb_operator.Workload.{build_stateful_set}
use tsdb_operator.Config.{render_config}
use tsdb_operator.Metrics.{set_phase}
use tsdb_operator.Kube.Laws.{Store, remaining}
use tsdb_operator.Reconcile.{
  with_scrape_file, data_of, Reconciler, Next, done, finalizer_name, mutate_config_map,
  mutate_service, reconcile_config_map, reconcile_headless_service, update_phase,
  create_stateful_set, sync_stateful_set, sync_replicas, reconcile_stateful_set, register_backup,
  reconcile_children, phase_for,
}

module _ {Q W : Type 0} (r : Reconciler Q W) (view : W → Store Q) where
  -- Every write of an object with its replicas set goes through, and a read tells what is there;
  -- StatefulSets have their replicas set. An update lets an object go that is being deleted and has
  -- no finalizers left.
  pub record IsAvailable : Type 0 where
    pub reads :
        (k : Key) (w : W) (pc : PrometheusCluster Q)
        → (view w).clusters k ≡ some pc
        → (w' : W) × (r.client.get_cluster k w ≡ (ok pc, w'))
    pub updates :
        (pc : PrometheusCluster Q) (w : W)
        → (w' : W) × (r.client.update_cluster pc w ≡ (ok pc, w'))
          × ((view w').clusters (key_of pc.meta) ≡ remaining pc)
    pub updates_status :
        (pc : PrometheusCluster Q) → Returns (r.client.update_cluster_status pc) (λ _. Unit)
    pub looks_up :
        (k : Key) (w : W)
        → ((s : StatefulSet Q) × (w' : W) × (r.client.get_stateful_set k w ≡ (ok s, w'))
            × ((n : ℤ) × (s.replicas ≡ some n)))
          ⊎ ((e : Error) × (w' : W) × (r.client.get_stateful_set k w ≡ (err e, w'))
              × (is_not_found e.reason ≡ true))
    pub creates :
        (s : StatefulSet Q) (n : ℤ)
        → s.replicas ≡ some n
        → Returns (r.client.create_stateful_set s) (λ _. Unit)
    pub replaces :
        (s : StatefulSet Q) (n : ℤ)
        → s.replicas ≡ some n
        → Returns (r.client.update_stateful_set s) (λ _. Unit)
    pub writes_map :
        (cm : ConfigMap) (f : ConfigMap → Result ConfigMap)
        → ((before : ConfigMap) → (after : ConfigMap) × (f before ≡ ok after))
        → Returns (r.client.create_or_update_config_map cm f) (λ _. Unit)
    pub writes_service :
        (s : Service) (f : Service → Result Service)
        → ((before : Service) → (after : Service) × (f before ≡ ok after))
        → Returns (r.client.create_or_update_service s f) (λ _. Unit)
    pub owns :
        (owner m : ObjectMeta)
        → (owned : ObjectMeta) × (r.tools.set_controller_reference owner m ≡ ok owned)
    pub adds_finalizer :
        (m : ObjectMeta)
        → (r.tools.contains_finalizer (r.tools.add_finalizer m finalizer_name) finalizer_name
            ≡ true)
          × (key_of (r.tools.add_finalizer m finalizer_name) ≡ key_of m)
          × ((r.tools.add_finalizer m finalizer_name).deletion_timestamp ≡ m.deletion_timestamp)

  -- The scheduler, if there is one, takes the registration of a cluster that has backups on.
  abbrev pub IsAccepted : PrometheusCluster Q → Type 0
  IsAccepted pc =
      (register : PrometheusCluster Q → Action W Unit)
      → r.register ≡ some register
      → pc.spec.backup.enabled ≡ true
      → Returns (register pc) (λ _. Unit)

  wanted_replicas :
      (pc : PrometheusCluster Q)
      → (build_stateful_set r.quantities pc).replicas ≡ some pc.spec.replicas
  unfolding build_stateful_set
  wanted_replicas pc = refl

  module _ (up : IsAvailable) (pc : PrometheusCluster Q) (accepted : IsAccepted pc) where
    register-Returns : Returns (register_backup r pc) (λ _. Unit)
    unfolding register_backup
    register-Returns = elim (Option-cases r.register) [
      | inl off ↦ rw off (pure-Returns tt _ tt)
      | inr (register, on) ↦ rw on (
          if-Returns-known pc.spec.backup.enabled _ _ _
            (λ enabled.
              wrapping-Returns "register backup" (register pc) _ (accepted register on enabled))
            (λ disabled. pure-Returns tt _ tt))
    ]

    filled : (before : ConfigMap) → (after : ConfigMap) × (mutate_config_map r pc before ≡ ok after)
    unfolding mutate_config_map
    filled before =
        let (owned, q) = up.owns pc.meta before.meta in
        (
          record {
            meta = owned;
            contents = some (
                with_scrape_file pc.spec.additional_scrape_configs
                  (insert "prometheus.yml" (render_config r.table pc) (data_of before.contents)));
          },
          rw (q, mutate_config_map) refl,
        )

    config_map-Returns : Returns (reconcile_config_map r pc) (λ _. Unit)
    unfolding reconcile_config_map
    config_map-Returns =
        bind-Returns _ (λ _. Unit) _ _ (up.writes_map _ (mutate_config_map r pc) filled)
          (λ op u. pure-Returns _ _ tt)

    served : (before : Service) → (after : Service) × (mutate_service r pc before ≡ ok after)
    unfolding mutate_service
    served before =
        let (owned, q) = up.owns pc.meta before.meta in
        (
          record {
            meta = owned;
            cluster_ip = "None";
            selector = ("app.kubernetes.io/instance", pc.meta.name) ∷ [];
            ports = record { name = "http"; port = 9090; target_port = 9090 } ∷ [];
          },
          rw (q, mutate_service) refl,
        )

    service-Returns : Returns (reconcile_headless_service r pc) (λ _. Unit)
    unfolding reconcile_headless_service
    service-Returns =
        bind-Returns _ (λ _. Unit) _ _ (up.writes_service _ (mutate_service r pc) served)
          (λ op u. pure-Returns tt _ tt)

    abbrev IsDone : Next → Type 0
    IsDone n = n ≡ done

    update_phase-Returns :
        (phase : ClusterPhase) (ready : ℤ) → Returns (update_phase r pc phase ready) IsDone
    unfolding update_phase
    update_phase-Returns phase ready =
        bind-Returns _ (λ _. Unit) _ _ (wrapping-Returns "update status" _ _ (up.updates_status _))
          (λ stored u.
            bind-Returns _ (λ _. Unit) _ _
              (modify-Returns (set_phase r.registry stored.meta.namespace stored.meta.name phase) _
                tt)
              (λ a u. pure-Returns done _ refl))

    create-Returns : Returns (create_stateful_set r pc) IsDone
    unfolding create_stateful_set
    create-Returns =
        let desired = build_stateful_set r.quantities pc in
        let (owned, q) = up.owns pc.meta desired.meta in
        bind-Returns _ (λ _. Unit) _ _
          (wrapping-Returns "set owner ref"
            (lift (r.tools.set_controller_reference pc.meta desired.meta)) _
            (lift-Returns _ owned _ q tt))
          (λ m u.
            bind-Returns _ (λ _. Unit) _ _
              (wrapping-Returns "create statefulset" _ _
                (up.creates _ pc.spec.replicas (wanted_replicas pc)))
              (λ s u. update_phase-Returns phase_provisioning (pos 0)))

    sync_replicas-Returns : (s : StatefulSet Q) (n : ℤ) → Returns (sync_replicas r pc s n) IsDone
    unfolding sync_replicas
    sync_replicas-Returns s n =
        let desired = build_stateful_set r.quantities pc in
        let replicas_changed = not (eqb_ℤ n pc.spec.replicas) in
        let template_changed = not (r.tools.semantic_equal s.template.spec desired.template.spec) in
        bind-Returns _ (λ _. Unit)
          (λ now.
            update_phase r pc (phase_for replicas_changed now.ready_replicas pc.spec.replicas)
              now.ready_replicas)
          IsDone
          (if-Returns (replicas_changed || template_changed) _ _ _
            (wrapping-Returns "update statefulset" _ _ (up.replaces _ pc.spec.replicas refl))
            (pure-Returns s _ tt))
          (λ now u.
            update_phase-Returns (phase_for replicas_changed now.ready_replicas pc.spec.replicas)
              now.ready_replicas)

    sync-Returns :
        (s : StatefulSet Q) (n : ℤ)
        → s.replicas ≡ some n
        → Returns (sync_stateful_set r pc s) IsDone
    unfolding sync_stateful_set
    sync-Returns s n there = rw (there, sync_stateful_set) (sync_replicas-Returns s n)

    stateful_set-Returns : Returns (reconcile_stateful_set r pc) IsDone
    unfolding reconcile_stateful_set
    stateful_set-Returns =
        attempt-Returns
          (r.client.get_stateful_set (key_of (build_stateful_set r.quantities pc).meta))
          (λ s. (n : ℤ) × (s.replicas ≡ some n)) (λ e. is_not_found e.reason ≡ true) _ _ IsDone
          (up.looks_up (key_of (build_stateful_set r.quantities pc).meta))
          (λ e missing. rw missing create-Returns) (λ s (n, there). sync-Returns s n there)

    pub children-Returns : Returns (reconcile_children r pc) IsDone
    unfolding reconcile_children
    children-Returns =
        bind-Returns _ (λ _. Unit) _ _ register-Returns
          (λ a u.
            bind-Returns _ (λ _. Unit) _ _
              (wrapping-Returns "reconcile configmap" _ _ config_map-Returns)
              (λ op u.
                bind-Returns _ (λ _. Unit) _ _
                  (wrapping-Returns "reconcile service" _ _ service-Returns)
                  (λ a u. stateful_set-Returns)))
