-- ===== src/Reconcile/Steps.antt =====
-- The steps of a pass before the StatefulSet, and the write of the status after it.
use tsdb_operator.Base.{String, Option, none, some, [], Action, ◌≡◌, sym, ap, ◌∙◌, subst, Result}
use tsdb_operator.Base.Hoare.{Yields, bind-Yields, wrapping-Yields, pure-Yields, modify-Yields}
use tsdb_operator.Base.Int.{ℤ}
use tsdb_operator.Types.{PrometheusCluster, PodTemplate, ClusterPhase, StatefulSet}
use tsdb_operator.Workload.{config_map_name, named}
use tsdb_operator.Config.{additional_scrape_file}
use tsdb_operator.Kube.{OperationResult}
use tsdb_operator.Kube.Laws.{Store, SameChildren, Frames, Effects}
use tsdb_operator.Metrics.{set_phase}
use tsdb_operator.Reconcile.{
  Reconciler, done, mutate_config_map, mutate_service, reconcile_config_map,
  reconcile_headless_service, update_phase,
}
use tsdb_operator.Reconcile.Objects.{lookup-mutate_config_map, mutate_service_fields}
use tsdb_operator.Reconcile.Settled.{
  Reports, child_key, HasConfigMap, HasService, HasStatefulSet, IsSettled,
}

module _ {Q W : Type 0} (r : Reconciler Q W) (view : W → Store Q) where
  -- Setting the phase gauges leaves the API server alone.
  abbrev pub PhasesApart : Type 0
  PhasesApart =
      (ns cluster phase : String) (w : W) → view (set_phase r.registry ns cluster phase w) ≡ view w

  -- Registering a cluster with the backup scheduler leaves the API server alone.
  abbrev pub RegisterApart : Type 0
  RegisterApart =
      (register : PrometheusCluster Q → Action W Unit)
      → r.register ≡ some register
      → (pc : PrometheusCluster Q) (w : W) → view (register pc w).1 ≡ view w

module _ {Q W : Type 0} (Defaulted : PodTemplate Q → PodTemplate Q → Type 0) (r : Reconciler Q W)
    (view : W → Store Q) (pc : PrometheusCluster Q) (found : Option (StatefulSet Q)) where
  -- The StatefulSet of the cluster is the one that was there before the pass.
  abbrev pub Untouched : W → Type 0
  Untouched w = (view w).stateful_sets (child_key pc pc.meta.name) ≡ found

  abbrev pub Configured : W → Type 0
  Configured w = HasConfigMap Defaulted r pc (view w).config_maps × Untouched w

  abbrev pub Served : W → Type 0
  Served w =
      (HasConfigMap Defaulted r pc (view w).config_maps
        × HasService Defaulted r pc (view w).services)
      × Untouched w

  -- `now` is the StatefulSet after the pass.
  abbrev pub Running : StatefulSet Q → W → Type 0
  Running now w =
      (HasConfigMap Defaulted r pc (view w).config_maps
        × HasService Defaulted r pc (view w).services)
      × HasStatefulSet Defaulted r pc (view w).stateful_sets now

  abbrev pub Settled : W → Type 0
  Settled w = IsSettled Defaulted r pc found (view w)

module _ {Q W : Type 0} (Defaulted : PodTemplate Q → PodTemplate Q → Type 0) (r : Reconciler Q W)
    (view : W → Store Q) (pc : PrometheusCluster Q) (found : Option (StatefulSet Q))
    (frames : Frames view r.client) (effects : Effects Defaulted view r.client) where
  abbrev First : W → Type 0
  First = Untouched Defaulted r view pc found

  abbrev Before : W → Type 0
  Before = Configured Defaulted r view pc found

  abbrev Then : W → Type 0
  Then = Served Defaulted r view pc found

  abbrev Last : StatefulSet Q → W → Type 0
  Last = Running Defaulted r view pc found

  abbrev End : W → Type 0
  End = Settled Defaulted r view pc found

  pub config_map-Yields : Yields First (reconcile_config_map r pc) (λ _. Before)
  unfolding reconcile_config_map
  config_map-Yields =
      bind-Yields First _ (λ _. Before) _ (λ _. Before) written
        (λ op. pure-Yields Before _ (λ _. Before) (λ w h. h))
    where
      written :
          Yields First
            (r.client.create_or_update_config_map
              (record { meta = named pc.meta.namespace (config_map_name pc); contents = none })
              (mutate_config_map r pc))
            (λ _. Before)
      written w h op w' e =
          let (before, after, ran, there) = effects.config_map_written _ _ w op w' e in
          let left = frames.config_map_sets _ (mutate_config_map r pc) w in
          let kept : (view w').stateful_sets ≡ (view w).stateful_sets =
            ap (λ (x : Result OperationResult × W). (view x.1).stateful_sets) (sym e) ∙ left in
          (
            (
              after,
              there,
              lookup-mutate_config_map r pc before after "prometheus.yml" ran,
              lookup-mutate_config_map r pc before after additional_scrape_file ran,
            ),
            ap (λ sets. sets (child_key pc pc.meta.name)) kept ∙ h,
          )

  pub service-Yields : Yields Before (reconcile_headless_service r pc) (λ _. Then)
  unfolding reconcile_headless_service
  service-Yields =
      bind-Yields Before _ (λ _. Then) _ (λ _. Then) written
        (λ op. pure-Yields Then tt (λ _. Then) (λ w h. h))
    where
      written :
          Yields Before
            (r.client.create_or_update_service
              (record {
                meta = named pc.meta.namespace pc.meta.name;
                cluster_ip = "";
                selector = [];
                ports = [];
              })
              (mutate_service r pc))
            (λ _. Then)
      written w h op w' e =
          let (before, after, ran, there) = effects.service_written _ _ w op w' e in
          let (ip, selector, ports) = mutate_service_fields r pc before after ran in
          let left = frames.service_maps _ (mutate_service r pc) w in
          let kept : (view w').config_maps ≡ (view w).config_maps =
            ap (λ (x : Result OperationResult × W). (view x.1).config_maps) (sym e) ∙ left in
          let sets = frames.service_sets _ (mutate_service r pc) w in
          let same : (view w').stateful_sets ≡ (view w).stateful_sets =
            ap (λ (x : Result OperationResult × W). (view x.1).stateful_sets) (sym e) ∙ sets in
          (
            (
              subst (HasConfigMap Defaulted r pc) (sym kept) h.0,
              (after, there, ip, selector, ports),
            ),
            ap (λ x. x (child_key pc pc.meta.name)) same ∙ h.1,
          )

  -- Writing the status leaves the objects, and records the phase.
  pub update_phase-Yields :
      PhasesApart r view
      → (now : StatefulSet Q) (phase : ClusterPhase) (ready : ℤ)
      → Reports pc.spec.replicas found now phase ready
      → Yields (Last now) (update_phase r pc phase ready) (λ _. End)
  unfolding update_phase
  update_phase-Yields apart now phase ready good =
      bind-Yields (Last now) _ (λ _. End) _ (λ _. End)
        (wrapping-Yields (Last now) _ _ (λ _. End) written)
        λ stored.
          bind-Yields End _ (λ _. End) _ (λ _. End)
            (modify-Yields End End _
              (λ w h. subst (IsSettled Defaulted r pc found) (sym (apart _ _ phase w)) h))
            (λ _. pure-Yields End done (λ _. End) (λ w h. h))
    where
      written :
          Yields
            (Last now)
            (r.client.update_cluster_status
              (record pc { status = record pc.status { phase = phase; ready_replicas = ready } }))
            (λ _. End)
      written w h stored w' e =
          let (there, status) = effects.status_written _ w stored w' e in
          let left =
            frames.update_cluster_status
              (record pc { status = record pc.status { phase = phase; ready_replicas = ready } })
              w in
          let same : SameChildren (view w) (view w') =
            subst (λ (x : Result (PrometheusCluster Q) × W). SameChildren (view w) (view x.1)) e
              left in
          record {
            config_map = subst (HasConfigMap Defaulted r pc) (sym same.config_maps) h.0.0;
            service = subst (HasService Defaulted r pc) (sym same.services) h.0.1;
            now = now;
            stateful_set =
                subst (λ sets. HasStatefulSet Defaulted r pc sets now) (sym same.stateful_sets) h.1;
            status = (
              stored,
              there,
              subst (λ t. Reports pc.spec.replicas found now t.phase t.ready_replicas) (sym status)
                  good,
            );
          }
