-- ===== src/Registration.antt =====
-- What the packages register before the start: the metrics (internal/metrics/metrics.go), the kinds of
-- the API (api/v1), and what the two controllers watch (internal/controller).
mod Tests
use tsdb_operator.Base.{String, List, [], ◌∷◌, Action, ◌>>◌}
use tsdb_operator.Types.{Key}
use tsdb_operator.Sets.{SetReconciler, enqueue_all_sets}

-- A gauge or counter, or a vector of them, with its labels.
pub record Collector : Type 0 where
  pub name : String
  pub help : String
  pub labels : List String

abbrev pub cluster_phase : Collector
cluster_phase = record {
  name = "tsdb_operator_cluster_phase";
  help = "Current lifecycle phase of a PrometheusCluster (1 = active phase).";
  labels = "namespace" ∷ "cluster" ∷ "phase" ∷ [];
}

abbrev pub backup_total : Collector
backup_total = record {
  name = "tsdb_operator_backup_total";
  help = "Total number of backup attempts by result.";
  labels = "namespace" ∷ "cluster" ∷ "result" ∷ [];
}

abbrev pub failover_total : Collector
failover_total = record {
  name = "tsdb_operator_failover_total";
  help = "Total number of replica failovers triggered.";
  labels = "namespace" ∷ "cluster" ∷ [];
}

abbrev pub audit_record_total : Collector
audit_record_total = record {
  name = "tsdb_operator_audit_record_total";
  help = "Total audit entries recorded.";
  labels = "cluster" ∷ "result" ∷ [];
}

abbrev audit_prune_total : Collector
audit_prune_total = record {
  name = "tsdb_operator_audit_prune_total";
  help = "Total audit rows deleted by the retention pruner.";
  labels = [];
}

abbrev audit_rows : Collector
audit_rows = record {
  name = "tsdb_operator_audit_rows";
  help = "Current number of rows in the audit_log table.";
  labels = [];
}

abbrev pub collectors : List Collector
collectors =
    cluster_phase ∷ backup_total ∷ failover_total ∷ audit_record_total ∷ audit_prune_total
    ∷ audit_rows ∷ []

pub record GroupVersion : Type 0 where
  pub group : String
  pub version : String

abbrev pub group_version : GroupVersion
group_version = record { group = "observability.merlionos.org"; version = "v1" }

-- The kinds that the two init functions of api/v1 hand to the scheme builder.
abbrev pub api_kinds : List String
api_kinds =
    "PrometheusCluster" ∷ "PrometheusClusterList" ∷ "PrometheusClusterSet"
    ∷ "PrometheusClusterSetList" ∷ []

-- A controller, as it is built for the manager: the kind that it is for, those that it owns, and
-- those whose changes ask for the requests of a call.
pub record Controller (W : Type 0) : Type 0 where
  pub name : String
  pub for_kind : String
  pub owns : List String
  pub watches : List (String × Action W (List Key))

-- The registry of controller-runtime, the scheme with `utilruntime.Must`, and `Complete`.
pub record Registrar (W : Type 0) : Type 0 where
  pub must_register : List Collector → Action W Unit
  pub must_add_client_go : Action W Unit
  pub must_add : GroupVersion → List String → Action W Unit
  pub complete : Controller W → Action W Unit

abbrev pub cluster_controller : {W : Type 0} → Controller W
cluster_controller = record {
  name = "prometheuscluster";
  for_kind = "PrometheusCluster";
  owns = "StatefulSet" ∷ "Service" ∷ "ConfigMap" ∷ [];
  watches = [];
}

unfoldable pub set_controller :
    {Q Sel Selector W : Type 0} → SetReconciler Q Sel Selector W → Controller W
unfolding enqueue_all_sets
set_controller r = record {
  name = "prometheusclusterset";
  for_kind = "PrometheusClusterSet";
  owns = [];
  watches = ("PrometheusCluster", enqueue_all_sets r) ∷ [];
}

module _ {W : Type 0} (reg : Registrar W) where
  abbrev pub register_metrics : Action W Unit
  register_metrics = reg.must_register collectors

  abbrev pub register_kinds : Action W Unit
  register_kinds = reg.must_add_client_go >> reg.must_add group_version api_kinds

  abbrev pub set_up_clusters : Action W Unit
  set_up_clusters = reg.complete cluster_controller

  abbrev pub set_up_cluster_sets :
      {Q Sel Selector : Type 0} → SetReconciler Q Sel Selector W → Action W Unit
  set_up_cluster_sets r = reg.complete (set_controller r)
