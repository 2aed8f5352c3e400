-- ===== src/Kube/Laws.antt =====
-- What the theorems rely on of the Kubernetes API: what a call that succeeds leaves in the store,
-- and that a call leaves objects of other kinds alone. They describe the API while no other client
-- writes between the calls of one pass.
use tsdb_operator.Base.{
  if◌then◌else◌, not, ◌&&◌, List, [], ◌∷◌, Bool, false, Option, none, some, true, ◌≡◌, Result, ok,
  err, Error, is_not_found,
}
use tsdb_operator.Types.{
  is_zero_time, Key, key_of, ObjectMeta, PrometheusCluster, StatefulSet, ConfigMap, Service,
  PodTemplate,
}
use tsdb_operator.Kube.{Client, Tools, OperationResult}

abbrev pub is_empty : {A : Type 0} → List A → Bool
is_empty [] = true
is_empty (x ∷ xs) = false

-- The objects of the API server, by kind.
pub record Store (Q : Type 0) : Type 0 where
  pub clusters : Key → Option (PrometheusCluster Q)
  pub stateful_sets : Key → Option (StatefulSet Q)
  pub config_maps : Key → Option ConfigMap
  pub services : Key → Option Service

pub record SameChildren {Q : Type 0} (s t : Store Q) : Type 0 where
  pub stateful_sets : t.stateful_sets ≡ s.stateful_sets
  pub config_maps : t.config_maps ≡ s.config_maps
  pub services : t.services ≡ s.services

-- The server stored what was sent, with its defaults filled into the pod template.
pub record IsStored {Q : Type 0} (Defaulted : PodTemplate Q → PodTemplate Q → Type 0)
    (sent stored : StatefulSet Q) (found : Option (StatefulSet Q)) : Type 0 where
  pub there : found ≡ some stored
  pub replicas : stored.replicas ≡ sent.replicas
  pub template : Defaulted sent.template stored.template

-- The owner reference is added to the metadata; name and namespace stay.
abbrev pub OwnerKeepsKey : {Q : Type 0} → Tools Q → Type 0
OwnerKeepsKey tools =
    (owner m owned : ObjectMeta)
    → tools.set_controller_reference owner m ≡ ok owned
    → key_of owned ≡ key_of m

-- What an update leaves of the object that it sent: an object that is being deleted goes away with
-- its last finalizer.
abbrev pub remaining : {Q : Type 0} → PrometheusCluster Q → Option (PrometheusCluster Q)
remaining pc =
    if not (is_zero_time pc.meta.deletion_timestamp) && is_empty pc.meta.finalizers
    then none
    else some pc

module _ {Q W : Type 0} (view : W → Store Q) (c : Client Q W) where
  -- What a call leaves alone, on every outcome.
  pub record Frames : Type 0 where
    pub get_cluster : (k : Key) (w : W) → view (c.get_cluster k w).1 ≡ view w
    pub get_stateful_set : (k : Key) (w : W) → view (c.get_stateful_set k w).1 ≡ view w
    pub update_cluster :
        (pc : PrometheusCluster Q) (w : W) → SameChildren (view w) (view (c.update_cluster pc w).1)
    pub update_cluster_status :
        (pc : PrometheusCluster Q) (w : W)
        → SameChildren (view w) (view (c.update_cluster_status pc w).1)
    pub create_stateful_set_maps :
        (s : StatefulSet Q) (w : W)
        → (view (c.create_stateful_set s w).1).config_maps ≡ (view w).config_maps
    pub create_stateful_set_services :
        (s : StatefulSet Q) (w : W)
        → (view (c.create_stateful_set s w).1).services ≡ (view w).services
    pub update_stateful_set_maps :
        (s : StatefulSet Q) (w : W)
        → (view (c.update_stateful_set s w).1).config_maps ≡ (view w).config_maps
    pub update_stateful_set_services :
        (s : StatefulSet Q) (w : W)
        → (view (c.update_stateful_set s w).1).services ≡ (view w).services
    pub config_map_sets :
        (cm : ConfigMap) (f : ConfigMap → Result ConfigMap) (w : W)
        → (view (c.create_or_update_config_map cm f w).1).stateful_sets ≡ (view w).stateful_sets
    pub service_sets :
        (s : Service) (f : Service → Result Service) (w : W)
        → (view (c.create_or_update_service s f w).1).stateful_sets ≡ (view w).stateful_sets
    pub service_maps :
        (s : Service) (f : Service → Result Service) (w : W)
        → (view (c.create_or_update_service s f w).1).config_maps ≡ (view w).config_maps

module _ {Q W : Type 0} (Defaulted : PodTemplate Q → PodTemplate Q → Type 0) (view : W → Store Q)
    (c : Client Q W) where
  -- What a call that succeeds leaves in the store, or tells of it.
  pub record Effects : Type 0 where
    pub cluster_found :
        (k : Key) (w : W) (pc : PrometheusCluster Q) (w' : W)
        → c.get_cluster k w ≡ (ok pc, w')
        → (view w).clusters k ≡ some pc
    pub cluster_missing :
        (k : Key) (w : W) (e : Error) (w' : W)
        → c.get_cluster k w ≡ (err e, w')
        → is_not_found e.reason ≡ true
        → (view w).clusters k ≡ none
    pub stateful_set_found :
        (k : Key) (w : W) (s : StatefulSet Q) (w' : W)
        → c.get_stateful_set k w ≡ (ok s, w')
        → ((view w).stateful_sets k ≡ some s) × (key_of s.meta ≡ k)
    pub stateful_set_missing :
        (k : Key) (w : W) (e : Error) (w' : W)
        → c.get_stateful_set k w ≡ (err e, w')
        → is_not_found e.reason ≡ true
        → (view w).stateful_sets k ≡ none
    pub stateful_set_created :
        (s : StatefulSet Q) (w : W) (t : StatefulSet Q) (w' : W)
        → c.create_stateful_set s w ≡ (ok t, w')
        → IsStored Defaulted s t ((view w').stateful_sets (key_of s.meta))
    pub stateful_set_updated :
        (s : StatefulSet Q) (w : W) (t : StatefulSet Q) (w' : W)
        → c.update_stateful_set s w ≡ (ok t, w')
        → IsStored Defaulted s t ((view w').stateful_sets (key_of s.meta))
    -- The closure ran on the object that was there, or on the one given if there was none.
    pub config_map_written :
        (cm : ConfigMap) (f : ConfigMap → Result ConfigMap) (w : W) (op : OperationResult) (w' : W)
        → c.create_or_update_config_map cm f w ≡ (ok op, w')
        → (before after : ConfigMap) × (f before ≡ ok after)
          × ((view w').config_maps (key_of cm.meta) ≡ some after)
    pub service_written :
        (s : Service) (f : Service → Result Service) (w : W) (op : OperationResult) (w' : W)
        → c.create_or_update_service s f w ≡ (ok op, w')
        → (before after : Service) × (f before ≡ ok after)
          × ((view w').services (key_of s.meta) ≡ some after)
    pub status_written :
        (pc : PrometheusCluster Q) (w : W) (stored : PrometheusCluster Q) (w' : W)
        → c.update_cluster_status pc w ≡ (ok stored, w')
        → ((view w').clusters (key_of pc.meta) ≡ some stored) × (stored.status ≡ pc.status)
