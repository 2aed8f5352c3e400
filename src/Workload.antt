-- ===== src/Workload.antt =====
-- internal/controller/prometheuscluster_controller.go: the StatefulSet of a cluster, with the
-- reloader and Thanos sidecars.
pub mod Mounts
pub mod Shape
mod Tests
use tsdb_operator.Base.{
  ℕ, String, Option, none, some, List, [], ◌∷◌, ◌++◌, Bool, true, false, ◌==◌, if◌then◌else◌, map,
  Map,
}
use tsdb_operator.Base.Int.{ℤ, pos}
use tsdb_operator.Base.Text.{◌<>◌}
use tsdb_operator.Types.{
  PrometheusCluster, ThanosSpec, AdditionalScrapeConfigs, LocalObjectReference, SecretKeySelector,
  ObjectMeta, VolumeMount, VolumeSource, config_map_volume, secret_volume, Volume, Container,
  ContainerPort, EnvVar, Probe, ResourceRequirements, StatefulSet, PodTemplate, PodSpec,
  VolumeClaim,
}
use tsdb_operator.Config.{extra_secret_mount}

-- k8s.io/apimachinery/pkg/api/resource: parsing a quantity, parsing a constant that is one
-- (`MustParse`), the zero quantity and the test for it.
pub record Quantities (Q : Type 0) : Type 0 where
  pub parse : String → Option Q
  pub must_parse : String → Q
  pub zero_quantity : Q
  pub is_zero : Q → Bool

-- Names are relative to the object's own namespace; everything else of the metadata is nil.
abbrev pub named : (namespace name : String) → ObjectMeta
named ns n = record {
  name = n;
  namespace = ns;
  labels = [];
  annotations = none;
  finalizers = [];
  deletion_timestamp = none;
  owners = [];
}

abbrev pub or_default : String → String → String
or_default default s = if s == "" then default else s

abbrev pub mount : (name path : String) → Bool → VolumeMount
mount n path ro = record { name = n; mount_path = path; read_only = ro }

unfoldable pub config_map_name : {Q : Type 0} → PrometheusCluster Q → String
config_map_name pc = pc.meta.name <> "-config"

abbrev pub http_probe : String → ℕ → Option Probe
http_probe path port = some (record { path = path; port = port })

abbrev pub no_resources : {Q : Type 0} → ResourceRequirements Q
no_resources = record { limits = []; requests = [] }

module _ {Q : Type 0} (qs : Quantities Q) where
  pub resource_must_parse_or_zero : String → Q
  resource_must_parse_or_zero s = elim (qs.parse s) [ none ↦ qs.zero_quantity | some q ↦ q ]

  unfoldable pub build_reloader_sidecar : Container Q
  unfolding resource_must_parse_or_zero
  build_reloader_sidecar = record {
    name = "config-reloader";
    image = "ghcr.io/jimmidyson/configmap-reload:v0.13.1";
    args =
        "--volume-dir=/etc/prometheus" ∷ "--webhook-method=POST"
        ∷ "--webhook-url=http://127.0.0.1:9090/-/reload" ∷ [];
    env = [];
    ports = [];
    readiness_probe = none;
    liveness_probe = none;
    volume_mounts = mount "config" "/etc/prometheus" true ∷ [];
    resources = record {
      limits = [];
      requests =
          ("cpu", resource_must_parse_or_zero "10m")
          ∷ ("memory", resource_must_parse_or_zero "16Mi")
          ∷ [];
    };
  }

abbrev objstore_args : Option LocalObjectReference → List String
objstore_args none = []
objstore_args (some ref) = "--objstore.config-file=/etc/thanos/objstore/objstore.yml" ∷ []

abbrev objstore_mounts : Option LocalObjectReference → List VolumeMount
objstore_mounts none = []
objstore_mounts (some ref) = mount "thanos-objstore" "/etc/thanos/objstore" true ∷ []

abbrev objstore_volume : Option LocalObjectReference → Option Volume
objstore_volume none = none
objstore_volume (some ref) =
    some (record { name = "thanos-objstore"; source = secret_volume ref.name })

unfoldable pub build_thanos_sidecar : {Q : Type 0} → ThanosSpec → Container Q × Option Volume
build_thanos_sidecar t = (
  record {
    name = "thanos-sidecar";
    image = or_default "quay.io/thanos/thanos:v0.37.2" t.image;
    args =
        ("sidecar" ∷ "--tsdb.path=/prometheus" ∷ "--prometheus.url=http://localhost:9090"
          ∷ "--http-address=0.0.0.0:10902" ∷ "--grpc-address=0.0.0.0:10901" ∷ [])
        ++ objstore_args t.object_storage_config_secret_ref;
    env = [];
    ports =
        record { name = "thanos-http"; container_port = 10902 }
        ∷ record { name = "thanos-grpc"; container_port = 10901 }
        ∷ [];
    readiness_probe = http_probe "/-/ready" 10902;
    liveness_probe = none;
    volume_mounts =
        mount "data" "/prometheus" false ∷ objstore_mounts t.object_storage_config_secret_ref;
    resources = no_resources;
  },
  objstore_volume t.object_storage_config_secret_ref,
)

abbrev pub option_list {ℓ} : {A : Type ℓ} → Option A → List A
option_list none = []
option_list (some a) = a ∷ []

unfoldable pub prometheus_args : (retention : String) (backup thanos : Bool) → List String
prometheus_args retention backup thanos =
    ("--config.file=/etc/prometheus/prometheus.yml"
      ∷ "--storage.tsdb.path=/prometheus"
      ∷ ("--storage.tsdb.retention.time=" <> retention)
      ∷ "--web.enable-lifecycle"
      ∷ [])
    ++ ((if backup then "--web.enable-admin-api" ∷ [] else [])
        ++ (if thanos
            then "--storage.tsdb.min-block-duration=2h" ∷ "--storage.tsdb.max-block-duration=2h"
              ∷ "--enable-feature=expand-external-labels" ∷ []
            else []))

abbrev pub extra_mount : VolumeMount
extra_mount = mount "extra-scrape-secret" extra_secret_mount true

abbrev pub mount_on_prometheus : {Q : Type 0} → Container Q → Container Q
mount_on_prometheus c =
    if c.name == "prometheus"
    then record c { volume_mounts = c.volume_mounts ++ extra_mount ∷ [] }
    else c

-- The additional scrape secret: a volume, and a mount on the Prometheus container.
abbrev pub scrape_secret : Option AdditionalScrapeConfigs → Option SecretKeySelector
scrape_secret none = none
scrape_secret (some asc) = asc.secret_ref

abbrev pub secret_volumes : Option SecretKeySelector → List Volume
secret_volumes none = []
secret_volumes (some ref) =
    record { name = "extra-scrape-secret"; source = secret_volume ref.name } ∷ []

abbrev pub with_secret_mount :
    {Q : Type 0} → Option SecretKeySelector → List (Container Q) → List (Container Q)
with_secret_mount none cs = cs
with_secret_mount (some ref) cs = map mount_on_prometheus cs

module _ {Q : Type 0} (pc : PrometheusCluster Q) where
  abbrev pub pod_labels : Map String
  pod_labels =
      ("app.kubernetes.io/name", "prometheus") ∷ ("app.kubernetes.io/instance", pc.meta.name) ∷ []

  unfoldable pub prometheus_container : Container Q
  unfolding prometheus_args
  prometheus_container = record {
    name = "prometheus";
    image = or_default "prom/prometheus:v2.55.1" pc.spec.image;
    args =
        prometheus_args (or_default "15d" pc.spec.retention) pc.spec.backup.enabled
          pc.spec.thanos.enabled;
    env = record { name = "POD_NAME"; field_path = "metadata.name" } ∷ [];
    ports = record { name = "http"; container_port = 9090 } ∷ [];
    readiness_probe = http_probe "/-/ready" 9090;
    liveness_probe = http_probe "/-/healthy" 9090;
    volume_mounts = mount "data" "/prometheus" false ∷ mount "config" "/etc/prometheus" false ∷ [];
    resources = pc.spec.resources;
  }

  -- The sidecar's container and volume, when Thanos is enabled.
  unfoldable pub thanos_parts : List (Container Q) × List Volume
  unfolding build_thanos_sidecar
  thanos_parts =
      let (sidecar, extra) = build_thanos_sidecar {Q = Q} pc.spec.thanos in
      if pc.spec.thanos.enabled then (sidecar ∷ [], option_list extra) else ([], [])

  unfoldable pub pod_volumes : List Volume
  unfolding thanos_parts config_map_name
  pod_volumes =
      record { name = "config"; source = config_map_volume (config_map_name pc) }
      ∷ (thanos_parts.1 ++ secret_volumes (scrape_secret pc.spec.additional_scrape_configs))

module _ {Q : Type 0} (qs : Quantities Q) (pc : PrometheusCluster Q) where
  unfoldable pub pod_containers : List (Container Q)
  unfolding prometheus_container thanos_parts build_reloader_sidecar
  pod_containers =
      with_secret_mount (scrape_secret pc.spec.additional_scrape_configs)
        (build_reloader_sidecar qs ∷ prometheus_container pc ∷ (thanos_parts pc).0)

  unfoldable pub data_claim : VolumeClaim Q
  data_claim = record {
    name = "data";
    access_modes = "ReadWriteOnce" ∷ [];
    storage_class_name = pc.spec.storage.storage_class_name;
    requests =
        (
          "storage",
          if qs.is_zero pc.spec.storage.size then qs.must_parse "20Gi" else pc.spec.storage.size,
        )
        ∷ [];
  }

  unfoldable pub build_stateful_set : StatefulSet Q
  unfolding pod_containers pod_volumes data_claim
  build_stateful_set = record {
    meta = record (named pc.meta.namespace pc.meta.name) { labels = pod_labels pc };
    service_name = pc.meta.name;
    replicas = some pc.spec.replicas;
    selector = pod_labels pc;
    template = record {
      labels = pod_labels pc;
      spec = record { containers = pod_containers; volumes = pod_volumes pc };
    };
    volume_claim_templates = data_claim ∷ [];
    ready_replicas = pos 0;
  }
