-- ===== src/Reconcile/Settled.antt =====
-- The state of the API server that the reconciler works towards.
use mathlib.Core.Option.{some-injective}
use tsdb_operator.Base.{
  String, Option, none, some, [], ◌∷◌, true, ◌≡◌, ◌≢◌, ◌⊎◌, lookup, arith, not, Bool-cases, inl,
  inr, refl, sym, ap, ◌∙◌,
}
use tsdb_operator.Base.Int.{ℤ, pos, ◌≤ℤ◌, ◌<ℤ◌, eqb_ℤ, ltb_ℤ, eqb_ℤ→eq, eqb_ℤ_refl}
use tsdb_operator.Types.{
  Key, key_of, PrometheusCluster, StatefulSet, ConfigMap, Service, PodTemplate, phase_provisioning,
  phase_active, phase_scaling, ClusterPhase,
}
use tsdb_operator.Config.{additional_scrape_file, render_config}
use tsdb_operator.Workload.{config_map_name, build_stateful_set}
use tsdb_operator.Kube.Laws.{Store}
use tsdb_operator.Reconcile.{Reconciler, data_of, phase_for}
use tsdb_operator.Reconcile.Objects.{wanted_file}

abbrev pub child_key : {Q : Type 0} → PrometheusCluster Q → String → Key
child_key pc name = record { namespace = pc.meta.namespace; name = name }

-- What the status tells of a pass, by the StatefulSet before it and the one after it. Without one
-- before: Provisioning and no ready replicas. With one: its ready replicas, and Scaling if it had
-- other replicas than are wanted; if not, Provisioning while fewer are ready than wanted, or else
-- Active.
abbrev pub Reports :
    {Q : Type 0} → (wanted : ℤ) → Option (StatefulSet Q) → StatefulSet Q → ClusterPhase → ℤ → Type 0
Reports wanted none now phase ready = (phase ≡ phase_provisioning) × (ready ≡ pos 0)
Reports wanted (some before) now phase ready =
    (ready ≡ now.ready_replicas)
    × (((before.replicas ≢ some wanted) × (phase ≡ phase_scaling))
        ⊎ ((before.replicas ≡ some wanted)
            × (((now.ready_replicas <ℤ wanted) × (phase ≡ phase_provisioning))
                ⊎ ((wanted ≤ℤ now.ready_replicas) × (phase ≡ phase_active)))))

module _ {Q W : Type 0} (Defaulted : PodTemplate Q → PodTemplate Q → Type 0) (r : Reconciler Q W)
    (pc : PrometheusCluster Q) where
  abbrev pub HasConfigMap : (Key → Option ConfigMap) → Type 0
  HasConfigMap maps =
      (cm : ConfigMap) × (maps (child_key pc (config_map_name pc)) ≡ some cm)
      × (lookup "prometheus.yml" (data_of cm.contents) ≡ some (render_config r.table pc))
      × (lookup additional_scrape_file (data_of cm.contents)
          ≡ wanted_file pc.spec.additional_scrape_configs)

  abbrev pub HasService : (Key → Option Service) → Type 0
  HasService services =
      (svc : Service) × (services (child_key pc pc.meta.name) ≡ some svc)
      × (svc.cluster_ip ≡ "None")
      × (svc.selector ≡ ("app.kubernetes.io/instance", pc.meta.name) ∷ [])
      × (svc.ports ≡ record { name = "http"; port = 9090; target_port = 9090 } ∷ [])

  -- The pod template is the desired one as the server completes it, or equal to it for Kubernetes.
  abbrev pub Matches : PodTemplate Q → Type 0
  Matches t =
      let desired = (build_stateful_set r.quantities pc).template in
      (r.tools.semantic_equal t.spec desired.spec ≡ true) ⊎ Defaulted desired t

  -- `now` is the StatefulSet of the cluster.
  abbrev pub HasStatefulSet : (Key → Option (StatefulSet Q)) → StatefulSet Q → Type 0
  HasStatefulSet sets now =
      (sets (child_key pc pc.meta.name) ≡ some now)
      × (now.replicas ≡ some pc.spec.replicas)
      × Matches now.template

  abbrev pub HasStatus :
      Option (StatefulSet Q) → StatefulSet Q → (Key → Option (PrometheusCluster Q)) → Type 0
  HasStatus before now clusters =
      (stored : PrometheusCluster Q) × (clusters (key_of pc.meta) ≡ some stored)
      × Reports pc.spec.replicas before now stored.status.phase stored.status.ready_replicas

  -- `before` is the StatefulSet of the cluster before the pass, if there was one.
  pub record IsSettled (before : Option (StatefulSet Q)) (s : Store Q) : Type 0 where
    pub config_map : HasConfigMap s.config_maps
    pub service : HasService s.services
    pub now : StatefulSet Q
    pub stateful_set : HasStatefulSet s.stateful_sets now
    pub status : HasStatus before now s.clusters

pub phase_for-Reports :
    {Q : Type 0} (before now : StatefulSet Q) (n wanted : ℤ)
    → before.replicas ≡ some n
    → Reports wanted
        (some before)
        now
        (phase_for (not (eqb_ℤ n wanted)) now.ready_replicas wanted)
        now.ready_replicas
unfolding phase_for
phase_for-Reports before now n wanted has = (
  refl,
  elim (Bool-cases (eqb_ℤ n wanted)) [
    | inr other ↦ inl (
      λ same.
          let equal : n ≡ wanted = some-injective n wanted (sym has ∙ same) in
          let bad : eqb_ℤ n wanted ≡ true = ap (eqb_ℤ n) (sym equal) ∙ eqb_ℤ_refl n in cc,
      ground arith,
    )
    | inl same ↦ inr (
      has ∙ ap some (eqb_ℤ→eq n wanted same),
      elim (Bool-cases (ltb_ℤ now.ready_replicas wanted)) [
        | inl few ↦ inl (ground arith, ground arith)
        | inr enough ↦ inr (ground arith, ground arith)
      ],
    )
  ],
)
