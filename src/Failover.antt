-- ===== src/Failover.antt =====
-- internal/ha/ha.go: the health checks of the replicas, and the failover of those that fail.
pub mod Only
mod Tests
use tsdb_operator.Base.{
  ℕ, String, Option, none, some, List, [], ◌∷◌, Bool, ◌==◌, if◌then◌else◌, leb, Map, Error, Action,
  pure, wrapping, modify, attempt, ◌>>=◌, ◌>>◌,
}
use tsdb_operator.Base.Text.{◌<>◌}
use tsdb_operator.Base.Loops.{Wake, Looping, ticker_loop}
use tsdb_operator.Types.{Time, PrometheusCluster}
use tsdb_operator.Metrics.{Registry}

pub record Pod : Type 0 where
  pub name : String
  pub namespace : String
  pub ip : String

-- HealthChecker, with what it calls: client.Client, the event recorder, the HTTP client and the
-- clock. A probe answers with its status code.
pub record Checker (Q W : Type 0) : Type 0 where
  pub list_clusters : Action W (List (PrometheusCluster Q))
  pub list_pods : (namespace : String) → (labels : Map String) → Action W (List Pod)
  pub delete_pod : Pod → Action W Unit
  pub update_cluster_status : PrometheusCluster Q → Action W (PrometheusCluster Q)
  pub event : PrometheusCluster Q → (reason message : String) → W → W
  pub get : (url : String) → Action W ℕ
  pub now : W → Time
  pub registry : Registry W

abbrev pub ready_url : Pod → String
ready_url pod = "http://" <> pod.ip <> ":9090/-/ready"

abbrev pub failure_reason : Option Error → String
failure_reason none = "Unreachable"
failure_reason (some e) = e.message

module _ {Q W : Type 0} (h : Checker Q W) where
  abbrev pub failed_over : Time → PrometheusCluster Q → PrometheusCluster Q
  failed_over at pc = record pc { status = record pc.status { last_failover_time = some at } }

  -- The write of the time of the failover. Errors are logged.
  unfoldable pub record_failover : PrometheusCluster Q → Action W (PrometheusCluster Q)
  record_failover pc w =
      let marked = failed_over (h.now w) pc in
      attempt (h.update_cluster_status marked) (λ e. pure marked) pure w

  -- The result is the cluster as the call leaves it.
  unfoldable pub trigger_failover :
      PrometheusCluster Q → Pod → Option Error → Action W (PrometheusCluster Q)
  unfolding record_failover
  trigger_failover pc pod cause = do
    modify (h.registry.inc_failover_total pc.meta.namespace pc.meta.name)
    modify (
        h.event pc "FailoverTriggered" (
          "replica "
          <> pod.name
          <> " failed health check: "
          <> failure_reason cause
          <> " — deleting pod to trigger rescheduling"))
    attempt (h.delete_pod pod) (λ e. pure pc) (λ _. record_failover pc)

  -- The body of the loop over the pods.
  unfoldable pub check_pod : PrometheusCluster Q → Pod → Action W (PrometheusCluster Q)
  unfolding trigger_failover
  check_pod pc pod =
      if pod.ip == ""
      then pure pc
      else attempt (h.get (ready_url pod)) (λ e. trigger_failover pc pod (some e))
          (λ code. if leb 500 code then trigger_failover pc pod none else pure pc)

  unfoldable pub check_pods : PrometheusCluster Q → List Pod → Action W (PrometheusCluster Q)
  unfolding check_pod
  check_pods pc [] = pure pc
  check_pods pc (pod ∷ pods) = check_pod pc pod >>= λ current. check_pods current pods

  unfoldable pub check_cluster : PrometheusCluster Q → Action W (PrometheusCluster Q)
  unfolding check_pods
  check_cluster pc =
      attempt (h.list_pods pc.meta.namespace (("app.kubernetes.io/instance", pc.meta.name) ∷ []))
        (λ e. pure pc) (check_pods pc)

  unfoldable pub check_clusters : List (PrometheusCluster Q) → Action W Unit
  unfolding check_cluster
  check_clusters [] = pure tt
  check_clusters (pc ∷ pcs) = check_cluster pc >>= λ _. check_clusters pcs

  unfoldable pub check_all : Action W Unit
  unfolding check_clusters
  check_all = wrapping "list clusters" h.list_clusters >>= check_clusters

  -- The loop of `Start`: errors of a round are logged.
  unfoldable pub start : List Wake → Looping W
  unfolding check_all
  start = ticker_loop (attempt check_all (λ e. pure tt) pure)
