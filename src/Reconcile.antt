-- ===== src/Reconcile.antt =====
-- internal/controller/prometheuscluster_controller.go: the reconciler of PrometheusCluster.
pub mod Objects
pub mod Guarded
pub mod Settled
pub mod Steps
pub mod StatefulSets
pub mod Converges
pub mod Available
pub mod BringsUp
pub mod Finalizes
pub mod Apart
pub mod Scheduled
mod Tests
use tsdb_operator.Base.{
  ℕ, String, Option, none, some, List, [], ◌∷◌, Bool, true, false, ◌==◌, if◌then◌else◌, not, ◌||◌,
  ◌&&◌, Map, insert, erase, Error, Result, ok, err, panic, Action, pure, throw, lift, wrap,
  wrapping, ◌>>=◌, ◌>>◌, attempt, modify, is_not_found, Reason,
}
use tsdb_operator.Base.Int.{ℤ, pos, ltb_ℤ, eqb_ℤ}
use tsdb_operator.Types.{
  Key, key_of, is_zero_time, ObjectMeta, PrometheusCluster, AdditionalScrapeConfigs, ClusterPhase,
  phase_provisioning, phase_active, phase_scaling, StatefulSet, ConfigMap, Service, ServicePort,
}
use tsdb_operator.Config.{additional_scrape_file, wrap_scrape_configs, render_config}
use tsdb_operator.Workload.{Quantities, named, config_map_name, build_stateful_set}
use tsdb_operator.Kube.{Client, Tools, OperationResult, updated}
use tsdb_operator.Metrics.{Registry, set_phase, delete_cluster}

abbrev pub finalizer_name : String
finalizer_name = "observability.merlionos.org/finalizer"

-- ctrl.Result
pub data Next : Type 0 where
  done requeue : Next

-- PrometheusClusterReconciler, with the packages that it calls. `register` is the optional
-- BackupRegistrar, and `table` the part of `strconv.IsPrint` above code point 0xFF.
pub record Reconciler (Q W : Type 0) : Type 0 where
  pub client : Client Q W
  pub tools : Tools Q
  pub quantities : Quantities Q
  pub registry : Registry W
  pub register : Option (PrometheusCluster Q → Action W Unit)
  pub table : ℕ → Bool

-- `cm.Data`, made first if it is nil.
abbrev pub data_of : Option (Map String) → Map String
data_of none = []
data_of (some m) = m

unfoldable pub with_scrape_file : Option AdditionalScrapeConfigs → Map String → Map String
with_scrape_file none m = erase additional_scrape_file m
with_scrape_file (some asc) m =
    if asc.inline == ""
    then erase additional_scrape_file m
    else insert additional_scrape_file (wrap_scrape_configs asc.inline) m

unfoldable pub phase_for : (replicas_changed : Bool) → (ready wanted : ℤ) → ClusterPhase
phase_for replicas_changed ready wanted =
    if replicas_changed
    then phase_scaling
    else if ltb_ℤ ready wanted
    then phase_provisioning
    else phase_active

module _ {Q W : Type 0} (r : Reconciler Q W) where
  open r use {client, tools, quantities, registry, table}

  -- The closure of `reconcileConfigMap`.
  unfoldable pub mutate_config_map : PrometheusCluster Q → ConfigMap → Result ConfigMap
  mutate_config_map pc cm =
      let filled =
        with_scrape_file pc.spec.additional_scrape_configs
          (insert "prometheus.yml" (render_config table pc) (data_of cm.contents)) in
      elim (tools.set_controller_reference pc.meta cm.meta) [
        | ok m ↦ ok (record { meta = m; contents = some filled })
        | err e ↦ err e
        | panic ↦ panic
      ]

  unfoldable pub reconcile_config_map : PrometheusCluster Q → Action W Bool
  unfolding mutate_config_map
  reconcile_config_map pc = do
    op ←
        client.create_or_update_config_map
          (record { meta = named pc.meta.namespace (config_map_name pc); contents = none })
          (mutate_config_map pc)
    pure (elim op [ updated ↦ true | _ ↦ false ])

  -- The closure of `reconcileHeadlessService`.
  unfoldable pub mutate_service : PrometheusCluster Q → Service → Result Service
  mutate_service pc svc = elim (tools.set_controller_reference pc.meta svc.meta) [
    | ok m ↦ ok (record {
      meta = m;
      cluster_ip = "None";
      selector = ("app.kubernetes.io/instance", pc.meta.name) ∷ [];
      ports = record { name = "http"; port = 9090; target_port = 9090 } ∷ [];
    })
    | err e ↦ err e
    | panic ↦ panic
  ]

  unfoldable pub reconcile_headless_service : PrometheusCluster Q → Action W Unit
  unfolding mutate_service
  reconcile_headless_service pc = do
    _ ←
        client.create_or_update_service
          (record {
            meta = named pc.meta.namespace pc.meta.name;
            cluster_ip = "";
            selector = [];
            ports = [];
          })
          (mutate_service pc)
    pure tt

  -- `pc` is what the server returned once the update is through.
  unfoldable pub update_phase : PrometheusCluster Q → ClusterPhase → ℤ → Action W Next
  update_phase pc phase ready = do
    stored ← wrapping "update status" (
        client.update_cluster_status
          (record pc { status = record pc.status { phase = phase; ready_replicas = ready } }))
    modify (set_phase registry stored.meta.namespace stored.meta.name phase)
    pure done

  unfoldable pub finalize : PrometheusCluster Q → Action W Next
  finalize pc =
      if tools.contains_finalizer pc.meta finalizer_name
      then (do
        stored ← wrapping "remove finalizer" (
            client.update_cluster
              (record pc { meta = tools.remove_finalizer pc.meta finalizer_name }))
        modify (delete_cluster registry stored.meta.namespace stored.meta.name)
        pure done)
      else pure done

  unfoldable pub create_stateful_set : PrometheusCluster Q → Action W Next
  unfolding update_phase
  create_stateful_set pc =
      let desired = build_stateful_set quantities pc in
      do
        owned ←
            wrapping "set owner ref" (lift (tools.set_controller_reference pc.meta desired.meta))
        _ ←
            wrapping "create statefulset"
              (client.create_stateful_set (record desired { meta = owned }))
        update_phase pc phase_provisioning (pos 0)

  -- From the comparison with the desired object on, for a current object with `replicas`.
  unfoldable pub sync_replicas : PrometheusCluster Q → StatefulSet Q → ℤ → Action W Next
  unfolding update_phase
  sync_replicas pc current replicas =
      let desired = build_stateful_set quantities pc in
      let replicas_changed = not (eqb_ℤ replicas pc.spec.replicas) in
      let template_changed =
        not (tools.semantic_equal current.template.spec desired.template.spec) in
      do
        now ←
            if replicas_changed || template_changed
            then wrapping "update statefulset" (
                client.update_stateful_set (record current {
                  replicas = some pc.spec.replicas;
                  template = desired.template;
                }))
            else pure current
        update_phase pc (phase_for replicas_changed now.ready_replicas pc.spec.replicas)
            now.ready_replicas

  -- `*current.Spec.Replicas` panics on a nil pointer.
  unfoldable pub sync_stateful_set : PrometheusCluster Q → StatefulSet Q → Action W Next
  unfolding sync_replicas
  sync_stateful_set pc current = elim current.replicas [
    | none ↦ lift panic
    | some replicas ↦ sync_replicas pc current replicas
  ]

  unfoldable pub reconcile_stateful_set : PrometheusCluster Q → Action W Next
  unfolding create_stateful_set sync_stateful_set
  reconcile_stateful_set pc =
      attempt (client.get_stateful_set (key_of (build_stateful_set quantities pc).meta))
        (λ e.
          if is_not_found e.reason
          then create_stateful_set pc
          else throw (wrap "get statefulset" e))
        (sync_stateful_set pc)

  unfoldable pub register_backup : PrometheusCluster Q → Action W Unit
  register_backup pc = elim r.register [
    | none ↦ pure tt
    | some register ↦
        if pc.spec.backup.enabled then wrapping "register backup" (register pc) else pure tt
  ]

  unfoldable pub reconcile_children : PrometheusCluster Q → Action W Next
  unfolding register_backup reconcile_config_map reconcile_headless_service reconcile_stateful_set
  reconcile_children pc = do
    register_backup pc
    _ ← wrapping "reconcile configmap" (reconcile_config_map pc)
    wrapping "reconcile service" (reconcile_headless_service pc)
    reconcile_stateful_set pc

  unfoldable pub add_finalizer : PrometheusCluster Q → Action W Next
  add_finalizer pc = do
    _ ←
        wrapping "add finalizer"
          (client.update_cluster (record pc { meta = tools.add_finalizer pc.meta finalizer_name }))
    pure requeue

  unfoldable pub reconcile_found : PrometheusCluster Q → Action W Next
  unfolding finalize add_finalizer reconcile_children
  reconcile_found pc =
      if not (is_zero_time pc.meta.deletion_timestamp)
      then finalize pc
      else if not (tools.contains_finalizer pc.meta finalizer_name)
      then add_finalizer pc
      else reconcile_children pc

  unfoldable pub reconcile : Key → Action W Next
  unfolding reconcile_found
  reconcile key =
      attempt (client.get_cluster key)
        (λ e. if is_not_found e.reason then pure done else throw (wrap "get PrometheusCluster" e))
        reconcile_found
