-- ===== src/Types/Pod.antt =====
-- Containers, volumes and the objects that the operator creates for a cluster, with the fields
-- that it sets.
use tsdb_operator.Base.{ℕ, String, Option, List, Bool, Map}
use tsdb_operator.Base.Int.{ℤ}
use tsdb_operator.Types.Meta.{ObjectMeta}

pub record VolumeMount : Type 0 where
  pub name : String
  pub mount_path : String
  pub read_only : Bool

pub data VolumeSource : Type 0 where
  config_map_volume : (name : String) → VolumeSource
  secret_volume : (name : String) → VolumeSource

pub record Volume : Type 0 where
  pub name : String
  pub source : VolumeSource

-- An environment variable filled from a field of the pod.
pub record EnvVar : Type 0 where
  pub name : String
  pub field_path : String

pub record ContainerPort : Type 0 where
  pub name : String
  pub container_port : ℕ

-- An HTTP GET probe.
pub record Probe : Type 0 where
  pub path : String
  pub port : ℕ

pub record ResourceRequirements (Q : Type 0) : Type 0 where
  pub limits : Map Q
  pub requests : Map Q

pub record Container (Q : Type 0) : Type 0 where
  pub name : String
  pub image : String
  pub args : List String
  pub env : List EnvVar
  pub ports : List ContainerPort
  pub readiness_probe : Option Probe
  pub liveness_probe : Option Probe
  pub volume_mounts : List VolumeMount
  pub resources : ResourceRequirements Q

pub record PodSpec (Q : Type 0) : Type 0 where
  pub containers : List (Container Q)
  pub volumes : List Volume

pub record PodTemplate (Q : Type 0) : Type 0 where
  pub labels : Map String
  pub spec : PodSpec Q

pub record VolumeClaim (Q : Type 0) : Type 0 where
  pub name : String
  pub access_modes : List String
  pub storage_class_name : Option String
  pub requests : Map Q

pub record StatefulSet (Q : Type 0) : Type 0 where
  pub meta : ObjectMeta
  pub service_name : String
  pub replicas : Option ℤ
  pub selector : Map String
  pub template : PodTemplate Q
  pub volume_claim_templates : List (VolumeClaim Q)
  pub ready_replicas : ℤ

pub record ConfigMap : Type 0 where
  pub meta : ObjectMeta
  pub contents : Option (Map String)

pub record ServicePort : Type 0 where
  pub name : String
  pub port : ℕ
  pub target_port : ℕ

pub record Service : Type 0 where
  pub meta : ObjectMeta
  pub cluster_ip : String
  pub selector : Map String
  pub ports : List ServicePort
