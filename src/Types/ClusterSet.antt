-- ===== src/Types/ClusterSet.antt =====
-- api/v1/prometheusclusterset_types.go. `Sel` is the type of label selectors
-- (metav1.LabelSelector), which the program only hands to the library.
use tsdb_operator.Base.{String, Option, List, Map}
use tsdb_operator.Base.Int.{ℤ}
use tsdb_operator.Types.Meta.{ObjectMeta}
use tsdb_operator.Types.Cluster.{ClusterPhase, S3BackupSpec}

pub record PrometheusClusterSetSpec (Sel : Type 0) : Type 0 where
  pub cluster_selector : Option Sel
  pub namespace_selector : Option Sel
  pub backup_template : Option S3BackupSpec

pub record SetMember : Type 0 where
  pub namespace : String
  pub name : String
  pub phase : ClusterPhase

pub record PrometheusClusterSetStatus : Type 0 where
  pub member_count : ℤ
  pub phase_count : Map ℤ
  pub members : List SetMember

pub record PrometheusClusterSet (Sel : Type 0) : Type 0 where
  pub meta : ObjectMeta
  pub spec : PrometheusClusterSetSpec Sel
  pub status : PrometheusClusterSetStatus
