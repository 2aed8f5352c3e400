-- ===== src/Kube/Memory/Up.antt =====
-- The API server in memory answers every call, and takes every write.
use tsdb_operator.Base.{
  false, is_some, ◌⊎◌, is_not_found, String, Option, none, some, List, [], ◌∷◌, ◌++◌, Bool, true,
  eq_iff, ◌≡◌, refl, ap, ◌&&◌, Result, ok, err, Error, not_found, arith, Bool-cases, inl, inr,
}
use tsdb_operator.Base.Int.{ℤ}
use tsdb_operator.Base.Total.{Returns}
use tsdb_operator.Types.{
  ObjectMeta, PrometheusCluster, Key, key_of, StatefulSet, ConfigMap, Service, PodSpec,
}
use tsdb_operator.Kube.{updated}
use tsdb_operator.Kube.Laws.{remaining}
use tsdb_operator.Kube.Memory.{
  without, Quantity, World, memory, tools, put, key_eq, has_text, assign_same, put_set, put_with,
  reply, at_own_key, or_else,
}

has_text-append : (s : String) (ts : List String) → has_text s (ts ++ s ∷ []) ≡ true
has_text-append s [] = ground (arith, eq_iff s s)
has_text-append s (t ∷ ts) = ground (arith, has_text-append s ts)

pub tools-finalizer :
    (equal : PodSpec Quantity → PodSpec Quantity → Bool) (m : ObjectMeta) (f : String)
    → (tools equal).contains_finalizer ((tools equal).add_finalizer m f) f ≡ true
tools-finalizer equal m f = has_text-append f m.finalizers

pub memory-reads :
    (k : Key) (w : World) (pc : PrometheusCluster Quantity)
    → w.clusters k ≡ some pc
    → memory.get_cluster k w ≡ (ok pc, w)
memory-reads k w pc there = rw there refl

pub memory-updates :
    (pc : PrometheusCluster Quantity) (w : World)
    → (memory.update_cluster pc w).1.clusters (key_of pc.meta) ≡ remaining pc
memory-updates pc w = assign_same (key_of pc.meta) (remaining pc) w.clusters

-- A StatefulSet with its replicas set is taken.
pub memory-stores :
    (s : StatefulSet Quantity) (n : ℤ) → s.replicas ≡ some n → Returns (put_set s) (λ _. Unit)
memory-stores s n has w = (
  s,
  record w { stateful_sets = put (key_of s.meta) s w.stateful_sets },
  ap (λ o. put_with s o w) has,
  tt,
)

replicas_set :
    (k : Key) (o : Option (StatefulSet Quantity)) (w : World)
    → ((s : StatefulSet Quantity) × (w' : World) × (reply (at_own_key k o) w ≡ (ok s, w'))
        × ((n : ℤ) × (s.replicas ≡ some n)))
      ⊎ ((e : Error) × (w' : World) × (reply (at_own_key k o) w ≡ (err e, w'))
          × (is_not_found e.reason ≡ true))
replicas_set k none w = inr (record { reason = not_found; message = "not found" }, w, refl, refl)
replicas_set k (some s) w = elim (Bool-cases (key_eq (key_of s.meta) k && is_some s.replicas)) [
  | inl y ↦ inl (s, w, rw y refl, has_replicas s.replicas (ground arith))
  | inr n ↦ inr (record { reason = not_found; message = "not found" }, w, rw n refl, refl)
]
  where
    has_replicas : (o : Option ℤ) → is_some o ≡ true → (n : ℤ) × (o ≡ some n)
    has_replicas none h = let bad : ⊥ = cc in absurd bad
    has_replicas (some n) h = (n, refl)

-- A StatefulSet is found with its replicas, or is not there.
pub memory-looks_up :
    (k : Key) (w : World)
    → ((s : StatefulSet Quantity) × (w' : World) × (memory.get_stateful_set k w ≡ (ok s, w'))
        × ((n : ℤ) × (s.replicas ≡ some n)))
      ⊎ ((e : Error) × (w' : World) × (memory.get_stateful_set k w ≡ (err e, w'))
          × (is_not_found e.reason ≡ true))
memory-looks_up k w = replicas_set k (w.stateful_sets k) w

pub memory-writes_map :
    (cm : ConfigMap) (f : ConfigMap → Result ConfigMap)
    → ((before : ConfigMap) → (after : ConfigMap) × (f before ≡ ok after))
    → Returns (memory.create_or_update_config_map cm f) (λ _. Unit)
memory-writes_map cm f h w =
    let (after, q) = h (or_else cm (w.config_maps (key_of cm.meta))) in
    (updated, record w { config_maps = put (key_of cm.meta) after w.config_maps }, rw q refl, tt)

pub memory-writes_service :
    (s : Service) (f : Service → Result Service)
    → ((before : Service) → (after : Service) × (f before ≡ ok after))
    → Returns (memory.create_or_update_service s f) (λ _. Unit)
memory-writes_service s f h w =
    let (after, q) = h (or_else s (w.services (key_of s.meta))) in
    (updated, record w { services = put (key_of s.meta) after w.services }, rw q refl, tt)

has_text-without : (s : String) (ts : List String) → has_text s (without s ts) ≡ false
has_text-without s [] = refl
has_text-without s (t ∷ ts) = ground (arith, has_text-without s ts)

pub tools-removes :
    (equal : PodSpec Quantity → PodSpec Quantity → Bool) (m : ObjectMeta) (f : String)
    → (tools equal).contains_finalizer ((tools equal).remove_finalizer m f) f ≡ false
tools-removes equal m f = has_text-without f m.finalizers
