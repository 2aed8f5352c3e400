-- ===== src/Workload/Mounts.antt =====
-- What the containers mount: every mount has a volume behind it, names and paths do not clash, and
-- the scrape secret is where prometheus.yml looks for it.
use tsdb_operator.Base.{
  String, some, List, [], ◌∷◌, ◌++◌, true, ◌≡◌, ◌⊎◌, refl, map, All, Any, IsDistinct, distinct,
  distinct_sound, arith,
}
use tsdb_operator.Base.Text.{◌<>◌}
use tsdb_operator.Types.{
  PrometheusCluster, AdditionalScrapeConfigs, VolumeMount, StatefulSet, SecretKeySelector,
  secret_volume, RemoteWriteSpec,
}
use tsdb_operator.Config.{additional_scrape_path, extra_secret_mount}
use tsdb_operator.Workload.{Quantities, build_stateful_set}

-- A mount names a volume of the pod, or a claim template.
abbrev pub IsBacked : {Q : Type 0} → StatefulSet Q → VolumeMount → Type 0
IsBacked s m =
    Any (λ v. v.name ≡ m.name) s.template.spec.volumes
    ⊎ Any (λ c. c.name ≡ m.name) s.volume_claim_templates

abbrev pub container_list : List String
container_list = "config-reloader" ∷ "prometheus" ∷ "thanos-sidecar" ∷ []

abbrev pub volume_list : List String
volume_list = "config" ∷ "thanos-objstore" ∷ "extra-scrape-secret" ∷ "data" ∷ []

abbrev pub path_list : List String
path_list = "/prometheus" ∷ "/etc/prometheus" ∷ extra_secret_mount ∷ "/etc/thanos/objstore" ∷ []

pub names_differ : IsDistinct container_list × IsDistinct volume_list × IsDistinct path_list
unfolding distinct
names_differ = (
  distinct_sound container_list refl,
  distinct_sound volume_list refl,
  distinct_sound path_list refl,
)

-- Kubernetes refuses a pod with two containers, two volumes or two mounts of a container alike.
abbrev pub HasNoClash : {Q : Type 0} → StatefulSet Q → Type 0
HasNoClash s =
    IsDistinct (map (λ c. c.name) s.template.spec.containers)
    × IsDistinct
        (map (λ v. v.name) s.template.spec.volumes ++ map (λ c. c.name) s.volume_claim_templates)
    × All (λ c. IsDistinct (map (λ m. m.mount_path) c.volume_mounts)) s.template.spec.containers

-- A container named `prometheus` mounts the secret read-only at the directory.
abbrev pub MountsSecret : {Q : Type 0} → StatefulSet Q → (secret path : String) → Type 0
MountsSecret s secret path =
    Any
      (λ c.
        (c.name ≡ "prometheus")
        × Any
            (λ m.
              (m.mount_path ≡ path)
              × (m.read_only ≡ true)
              × Any (λ v. (v.name ≡ m.name) × (v.source ≡ secret_volume secret))
                  s.template.spec.volumes)
            c.volume_mounts)
      s.template.spec.containers

module _ {Q : Type 0} (qs : Quantities Q) (pc : PrometheusCluster Q) where
  -- Every volume mount of every container of the StatefulSet names one of the pod's volumes or the
  -- claim template, with and without Thanos, its object store and the scrape secret.
  pub build_stateful_set-IsBacked :
      All
        (λ c. All (IsBacked (build_stateful_set qs pc)) c.volume_mounts)
        (build_stateful_set qs pc).template.spec.containers
  unfolding build_stateful_set
  build_stateful_set-IsBacked = ground arith

  -- The containers of the pods have different names, so have the volumes and the claim template,
  -- and no container mounts two volumes at one path.
  pub build_stateful_set-HasNoClash : HasNoClash (build_stateful_set qs pc)
  unfolding build_stateful_set
  build_stateful_set-HasNoClash = ground (arith, names_differ)

  -- Where prometheus.yml names a file of the scrape secret, the Prometheus container has that
  -- secret mounted, read-only, at the directory of the file.
  pub scrape_secret-MountsSecret :
      (asc : AdditionalScrapeConfigs) (ref : SecretKeySelector)
      → pc.spec.additional_scrape_configs ≡ some asc
      → asc.secret_ref ≡ some ref
      → additional_scrape_path pc ≡ extra_secret_mount <> "/" <> ref.key
      → MountsSecret (build_stateful_set qs pc) ref.name extra_secret_mount
  unfolding build_stateful_set
  scrape_secret-MountsSecret asc ref h k e = ground arith

  -- The StatefulSet is the same whatever the remote-write targets are: in particular, no secret
  -- that they name is mounted for their sake.
  pub build_stateful_set-remote_write :
      (targets : List RemoteWriteSpec)
      → build_stateful_set qs (record pc { spec = record pc.spec { remote_write = targets } })
        ≡ build_stateful_set qs pc
  unfolding build_stateful_set
  build_stateful_set-remote_write targets = refl
