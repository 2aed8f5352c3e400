-- ===== src/Samples.antt =====
-- Clusters and packages for tests and examples: quantities that are all alike, a registry that
-- keeps the phase gauge, and a reconciler over the API server in memory.
use tsdb_operator.Base.{ℕ, String, Option, none, some, [], ◌∷◌, true, false, if◌then◌else◌}
use tsdb_operator.Base.Int.{pos}
use tsdb_operator.Types.{
  Key, PrometheusCluster, S3BackupSpec, RemoteWriteSpec, AdditionalScrapeConfigs, SecretKeySelector,
}
use tsdb_operator.Workload.{Quantities}
use tsdb_operator.Kube.Memory.{Quantity, World, memory, tools, put}
use tsdb_operator.Metrics.{Registry}
use tsdb_operator.Metrics.Phases.{same_series}
use tsdb_operator.Reconcile.{Reconciler, finalizer_name}

abbrev pub quantities : Quantities Quantity
quantities = record {
  parse = λ s. some tt;
  must_parse = λ s. tt;
  zero_quantity = tt;
  is_zero = λ q. false;
}

abbrev pub backup : S3BackupSpec
backup = record {
  enabled = true;
  bucket = "tsdb";
  region = "";
  endpoint = "";
  prefix = "prod";
  schedule = "0 2 * * *";
  credentials_secret_ref = none;
}

abbrev pub target : RemoteWriteSpec
target = record {
  url = "https://store/api/v1/write";
  name = "long-term";
  basic_auth_secret_ref = some (record { name = "store-auth" });
  bearer_token_secret_ref = none;
}

abbrev pub scrape_ref : SecretKeySelector
scrape_ref = record { name = "extra"; key = "scrape.yml" }

abbrev pub scrape_from_secret : AdditionalScrapeConfigs
scrape_from_secret = record { inline = ""; secret_ref = some scrape_ref }

abbrev pub cluster : PrometheusCluster Quantity
cluster = record {
  meta = record {
    name = "edge";
    namespace = "monitoring";
    labels = [];
    annotations = none;
    finalizers = finalizer_name ∷ [];
    deletion_timestamp = none;
    owners = [];
  };
  spec = record {
    replicas = pos 2;
    image = "";
    retention = "";
    storage = record { storage_class_name = none; size = tt };
    resources = record { limits = []; requests = [] };
    backup = backup;
    remote_write = target ∷ [];
    thanos = record { enabled = true; image = ""; object_storage_config_secret_ref = none };
    additional_scrape_configs = some scrape_from_secret;
  };
  status = record {
    phase = "";
    ready_replicas = pos 0;
    last_backup_time = none;
    last_failover_time = none;
  };
}

abbrev pub cluster_key : Key
cluster_key = record { namespace = "monitoring"; name = "edge" }

-- Metrics that leave the world alone.
abbrev pub no_metrics : {W : Type 0} → Registry W
no_metrics = record {
  set_cluster_phase = λ ns c p v w. w;
  delete_cluster_phase = λ ns c w. w;
  inc_backup_total = λ ns c res w. w;
  delete_backup_total = λ ns c w. w;
  inc_failover_total = λ ns c w. w;
  delete_failover_total = λ ns c w. w;
  inc_audit_record_total = λ c res w. w;
  add_audit_prune_total = λ n w. w;
  set_audit_rows = λ n w. w;
}

abbrev pub Gauges : Type 0
Gauges = String → String → String → Option ℕ

-- The phase gauge as a function of its labels.
abbrev pub gauges : Registry Gauges
gauges = record {
  set_cluster_phase =
      λ ns c p v g. λ ns' c' p'. if same_series ns c p ns' c' p' then some v else g ns' c' p';
  delete_cluster_phase = λ ns c g. g;
  inc_backup_total = λ ns c res g. g;
  delete_backup_total = λ ns c g. g;
  inc_failover_total = λ ns c g. g;
  delete_failover_total = λ ns c g. g;
  inc_audit_record_total = λ c res g. g;
  add_audit_prune_total = λ n g. g;
  set_audit_rows = λ n g. g;
}

abbrev pub reconciler : Reconciler Quantity World
reconciler = record {
  client = memory;
  tools = tools (λ a b. false);
  quantities = quantities;
  registry = no_metrics;
  register = none;
  table = λ n. false;
}

abbrev pub empty_world : World
empty_world = record {
  clusters = λ k. none;
  stateful_sets = λ k. none;
  config_maps = λ k. none;
  services = λ k. none;
}

-- The API server with the cluster and nothing else.
abbrev pub world : World
world = record empty_world { clusters = put cluster_key cluster empty_world.clusters }
