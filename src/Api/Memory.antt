-- ===== src/Api/Memory.antt =====
-- An API server with one cluster, for tests and examples.
use tsdb_operator.Base.{none, [], ◌∷◌, ok}
use tsdb_operator.Base.Int.{pos}
use tsdb_operator.Types.{PrometheusClusterSet}
use tsdb_operator.Kube.Memory.{Quantity}
use tsdb_operator.Samples.{cluster}
use tsdb_operator.Api.{ApiClient}

abbrev pub client : {W : Type 0} → ApiClient Quantity Unit W
client = record {
  list_clusters = λ ns w. (ok (cluster ∷ []), w);
  get_cluster = λ k w. (ok cluster, w);
  create_cluster = λ pc w. (ok pc, w);
  delete_cluster = λ m w. (ok tt, w);
  list_sets = λ w. (ok [], w);
  get_set = λ k w. (ok no_set, w);
}
  where
    no_set : PrometheusClusterSet Unit
    no_set = record {
      meta = cluster.meta;
      spec = record { cluster_selector = none; namespace_selector = none; backup_template = none };
      status = record { member_count = pos 0; phase_count = []; members = [] };
    }
