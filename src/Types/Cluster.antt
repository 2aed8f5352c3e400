-- ===== src/Types/Cluster.antt =====
-- api/v1/prometheuscluster_types.go. Status conditions, which no code reads or writes, are left
-- out.
use tsdb_operator.Base.{String, Option, List, Bool}
use tsdb_operator.Base.Int.{ℤ}
use tsdb_operator.Types.Meta.{ObjectMeta, LocalObjectReference, SecretKeySelector, Time}
use tsdb_operator.Types.Pod.{ResourceRequirements}

-- A Go string with four named values.
abbrev pub ClusterPhase : Type 0
ClusterPhase = String

abbrev pub phase_provisioning : ClusterPhase
phase_provisioning = "Provisioning"

abbrev pub phase_active : ClusterPhase
phase_active = "Active"

abbrev pub phase_scaling : ClusterPhase
phase_scaling = "Scaling"

abbrev pub phase_failed : ClusterPhase
phase_failed = "Failed"

pub record S3BackupSpec : Type 0 where
  pub enabled : Bool
  pub bucket : String
  pub region : String
  pub endpoint : String
  pub prefix : String
  pub schedule : String
  pub credentials_secret_ref : Option LocalObjectReference

pub record RemoteWriteSpec : Type 0 where
  pub url : String
  pub name : String
  pub basic_auth_secret_ref : Option LocalObjectReference
  pub bearer_token_secret_ref : Option LocalObjectReference

pub record ThanosSpec : Type 0 where
  pub enabled : Bool
  pub image : String
  pub object_storage_config_secret_ref : Option LocalObjectReference

pub record StorageSpec (Q : Type 0) : Type 0 where
  pub storage_class_name : Option String
  pub size : Q

pub record AdditionalScrapeConfigs : Type 0 where
  pub inline : String
  pub secret_ref : Option SecretKeySelector

pub record PrometheusClusterSpec (Q : Type 0) : Type 0 where
  pub replicas : ℤ
  pub image : String
  pub retention : String
  pub storage : StorageSpec Q
  pub resources : ResourceRequirements Q
  pub backup : S3BackupSpec
  pub remote_write : List RemoteWriteSpec
  pub thanos : ThanosSpec
  pub additional_scrape_configs : Option AdditionalScrapeConfigs

pub record PrometheusClusterStatus : Type 0 where
  pub phase : ClusterPhase
  pub ready_replicas : ℤ
  pub last_backup_time : Option Time
  pub last_failover_time : Option Time

pub record PrometheusCluster (Q : Type 0) : Type 0 where
  pub meta : ObjectMeta
  pub spec : PrometheusClusterSpec Q
  pub status : PrometheusClusterStatus
