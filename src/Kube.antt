-- ===== src/Kube.antt =====
-- The Kubernetes API as the program sees it: client.Client and controllerutil of
-- controller-runtime, and the equality of apimachinery. Each call takes the world it is made in,
-- and leaves one behind, with the object as the server returned it, or an error. Other clients may
-- act between two calls, so nothing is assumed here; what the theorems rely on is in `Kube.Laws`.
pub mod Laws
pub mod Memory
use tsdb_operator.Base.{String, Bool, Result, Action}
use tsdb_operator.Types.{
  Key, ObjectMeta, PrometheusCluster, StatefulSet, ConfigMap, Service, PodSpec,
}

-- controllerutil.OperationResult
pub data OperationResult : Type 0 where
  unchanged created updated : OperationResult

pub record Client (Q W : Type 0) : Type 0 where
  pub get_cluster : Key → Action W (PrometheusCluster Q)
  pub update_cluster : PrometheusCluster Q → Action W (PrometheusCluster Q)
  pub update_cluster_status : PrometheusCluster Q → Action W (PrometheusCluster Q)
  pub get_stateful_set : Key → Action W (StatefulSet Q)
  pub create_stateful_set : StatefulSet Q → Action W (StatefulSet Q)
  pub update_stateful_set : StatefulSet Q → Action W (StatefulSet Q)
  pub create_or_update_config_map :
      ConfigMap → (ConfigMap → Result ConfigMap) → Action W OperationResult
  pub create_or_update_service : Service → (Service → Result Service) → Action W OperationResult

-- controllerutil and equality, on values.
pub record Tools (Q : Type 0) : Type 0 where
  pub contains_finalizer : ObjectMeta → String → Bool
  pub add_finalizer : ObjectMeta → String → ObjectMeta
  pub remove_finalizer : ObjectMeta → String → ObjectMeta
  pub set_controller_reference : (owner controlled : ObjectMeta) → Result ObjectMeta
  pub semantic_equal : PodSpec Q → PodSpec Q → Bool
