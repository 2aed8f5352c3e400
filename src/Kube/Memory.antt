-- ===== src/Kube/Memory.antt =====
-- An API server in memory that takes every object, if its replicas are set, for tests and examples: it
-- shows that the laws can hold.
pub mod Up
pub mod Beside
use tsdb_operator.Base.{
  is_some, ◌⊎◌, is_not_found, String, Option, none, some, List, [], ◌∷◌, ◌++◌, Bool, true, false,
  ◌==◌, eq_iff, ◌≡◌, refl, ◌&&◌, if◌then◌else◌, Result, ok, err, panic, Error, not_found, invalid,
  Action, arith, sym, ap, Bool-cases, inl, inr, ◌∙◌, subst,
}
use tsdb_operator.Base.Int.{ℤ}
use tsdb_operator.Base.Total.{Returns}
use tsdb_operator.Types.{
  ObjectMeta, PrometheusCluster, Key, key_of, StatefulSet, ConfigMap, Service, PodTemplate, PodSpec,
}
use tsdb_operator.Kube.{Client, Tools, OperationResult, updated}
use tsdb_operator.Kube.Laws.{Store, remaining, IsStored, Frames, Effects, OwnerKeepsKey}

abbrev pub Quantity : Type 0
Quantity = Unit

abbrev pub World : Type 0
World = Store Quantity

abbrev pub key_eq : Key → Key → Bool
key_eq a b = a.namespace == b.namespace && a.name == b.name

key_eq→eq : (a b : Key) → key_eq a b ≡ true → a ≡ b
key_eq→eq a b h = ground (arith, eq_iff a.namespace b.namespace, eq_iff a.name b.name)

key_eq_refl : (a : Key) → key_eq a a ≡ true
key_eq_refl a = ground (arith, eq_iff a.namespace a.namespace, eq_iff a.name a.name)

abbrev pub put : {A : Type 0} → Key → A → (Key → Option A) → Key → Option A
put k v f j = if key_eq k j then some v else f j

abbrev pub assign : {A : Type 0} → Key → Option A → (Key → Option A) → Key → Option A
assign k o f j = if key_eq k j then o else f j

abbrev absent : {A : Type 0} → Result A
absent = err (record { reason = not_found; message = "not found" })

abbrev invalid_set : {A : Type 0} → Result A
invalid_set = err (record { reason = invalid; message = "no replicas" })

abbrev answer : {A : Type 0} → Option A → Result A
answer none = absent
answer (some a) = ok a

abbrev or_else : {A : Type 0} → A → Option A → A
or_else a none = a
or_else a (some b) = b

-- The object, if it is stored under its own key, with its replicas set.
abbrev at_own_key : Key → Option (StatefulSet Quantity) → Result (StatefulSet Quantity)
at_own_key k none = absent
at_own_key k (some s) = if key_eq (key_of s.meta) k && is_some s.replicas then ok s else absent

-- The StatefulSet, if it can be read back.
abbrev readable : Key → Option (StatefulSet Quantity) → Option (StatefulSet Quantity)
readable k none = none
readable k (some s) = if key_eq (key_of s.meta) k && is_some s.replicas then some s else none

abbrev put_with : StatefulSet Quantity → (replicas : Option ℤ) → Action World (StatefulSet Quantity)
put_with s none w = (invalid_set, w)
put_with s (some n) w = (ok s, record w { stateful_sets = put (key_of s.meta) s w.stateful_sets })

-- A StatefulSet is only stored with its replicas set.
abbrev pub put_set : StatefulSet Quantity → Action World (StatefulSet Quantity)
put_set s = put_with s s.replicas

abbrev written : {A : Type 0} → Result A → (A → World) → World → Result OperationResult × World
written (ok a) f w = (ok updated, f a)
written (err e) f w = (err e, w)
written panic f w = (panic, w)

abbrev pub memory : Client Quantity World
memory = record {
  get_cluster = λ k w. (answer (w.clusters k), w);
  update_cluster =
      λ pc w. (ok pc, record w { clusters = assign (key_of pc.meta) (remaining pc) w.clusters });
  update_cluster_status =
      λ pc w. (ok pc, record w { clusters = put (key_of pc.meta) pc w.clusters });
  get_stateful_set = λ k w. (at_own_key k (w.stateful_sets k), w);
  create_stateful_set = put_set;
  update_stateful_set = put_set;
  create_or_update_config_map = λ cm f w.
      written (f (or_else cm (w.config_maps (key_of cm.meta))))
        (λ after. record w { config_maps = put (key_of cm.meta) after w.config_maps }) w;
  create_or_update_service = λ s f w.
      written (f (or_else s (w.services (key_of s.meta))))
        (λ after. record w { services = put (key_of s.meta) after w.services }) w;
}

abbrev has_text : String → List String → Bool
has_text s [] = false
has_text s (t ∷ ts) = if s == t then true else has_text s ts

abbrev without : String → List String → List String
without s [] = []
without s (t ∷ ts) = let rest = without s ts in if s == t then rest else t ∷ rest

-- Templates are equal if they name the same containers; `equal` says so of two pod specifications.
abbrev pub tools : (PodSpec Quantity → PodSpec Quantity → Bool) → Tools Quantity
tools equal = record {
  contains_finalizer = λ m f. has_text f m.finalizers;
  add_finalizer = λ m f. record m { finalizers = m.finalizers ++ f ∷ [] };
  remove_finalizer = λ m f. record m { finalizers = without f m.finalizers };
  set_controller_reference =
      λ owner m. ok (record m { owners = record { name = owner.name; controller = true } ∷ [] });
  semantic_equal = equal;
}

-- The server stores the template as it is.
abbrev pub AsSent : PodTemplate Quantity → PodTemplate Quantity → Type 0
AsSent sent stored = stored ≡ sent

-- The objects that can be read.
abbrev pub view : World → World
view w = record w { stateful_sets = λ k. readable k (w.stateful_sets k) }

written_service_maps :
    (s : Service) (w : World) (x : Result Service)
    → (written x
        (λ after. record w { services = put (key_of s.meta) after w.services })
        w).1.config_maps
      ≡ w.config_maps
written_service_maps s w (ok a) = refl
written_service_maps s w (err e) = refl
written_service_maps s w panic = refl

written_service_sets :
    (s : Service) (w : World) (x : Result Service)
    → (written x
        (λ after. record w { services = put (key_of s.meta) after w.services })
        w).1.stateful_sets
      ≡ w.stateful_sets
written_service_sets s w (ok a) = refl
written_service_sets s w (err e) = refl
written_service_sets s w panic = refl

written_map_sets :
    (cm : ConfigMap) (w : World) (x : Result ConfigMap)
    → (written x
        (λ after. record w { config_maps = put (key_of cm.meta) after w.config_maps })
        w).1.stateful_sets
      ≡ w.stateful_sets
written_map_sets cm w (ok a) = refl
written_map_sets cm w (err e) = refl
written_map_sets cm w panic = refl

put_with-Leaves :
    (s : StatefulSet Quantity) (o : Option ℤ) (w : World)
    → ((put_with s o w).1.config_maps ≡ w.config_maps) × ((put_with s o w).1.services ≡ w.services)
put_with-Leaves s none w = (refl, refl)
put_with-Leaves s (some n) w = (refl, refl)

pub assign_same : {A : Type 0} (k : Key) (o : Option A) (f : Key → Option A) → assign k o f k ≡ o
assign_same k o f = rw (key_eq_refl k) refl

put_same : {A : Type 0} (k : Key) (v : A) (f : Key → Option A) → put k v f k ≡ some v
put_same k v f = rw (key_eq_refl k) refl

pub memory-Frames : Frames view memory
memory-Frames = record {
  get_cluster = λ k w. refl;
  get_stateful_set = λ k w. refl;
  update_cluster = λ pc w. record { stateful_sets = refl; config_maps = refl; services = refl };
  update_cluster_status =
      λ pc w. record { stateful_sets = refl; config_maps = refl; services = refl };
  create_stateful_set_maps = λ s w. (put_with-Leaves s s.replicas w).0;
  create_stateful_set_services = λ s w. (put_with-Leaves s s.replicas w).1;
  update_stateful_set_maps = λ s w. (put_with-Leaves s s.replicas w).0;
  update_stateful_set_services = λ s w. (put_with-Leaves s s.replicas w).1;
  config_map_sets = λ cm f w.
      ap (λ sets. λ k. readable k (sets k))
        (written_map_sets cm w (f (or_else cm (w.config_maps (key_of cm.meta)))));
  service_sets = λ s f w.
      ap (λ sets. λ k. readable k (sets k))
        (written_service_sets s w (f (or_else s (w.services (key_of s.meta)))));
  service_maps = λ s f w. written_service_maps s w (f (or_else s (w.services (key_of s.meta))));
}

abbrev reply : {A : Type 0} → Result A → Action World A
reply x w = (x, w)

found :
    {A : Type 0} (o : Option A) (a : A) (w w' : World)
    → reply (answer o) w ≡ (ok a, w')
    → o ≡ some a
found none a w w' e = ground arith
found (some b) a w w' e = ground arith

missing :
    {A : Type 0} (o : Option A) (x : Error) (w w' : World)
    → reply (answer o) w ≡ (err x, w')
    → o ≡ none
missing none x w w' e = refl
missing (some b) x w w' e = ground arith

own :
    (k : Key) (o : Option (StatefulSet Quantity)) (s : StatefulSet Quantity) (w w' : World)
    → reply (at_own_key k o) w ≡ (ok s, w')
    → (readable k o ≡ some s) × (key_of s.meta ≡ k)
own k none s w w' e = ground arith
own k (some b) s w w' e = elim (Bool-cases (key_eq (key_of b.meta) k && is_some b.replicas)) [
  | inl y ↦
      let same : key_eq (key_of b.meta) k ≡ true = ground arith in
      ground (arith, key_eq→eq (key_of b.meta) k same)
  | inr n ↦ ground (arith)
]

not_own :
    (k : Key) (o : Option (StatefulSet Quantity)) (x : Error) (w w' : World)
    → reply (at_own_key k o) w ≡ (err x, w')
    → readable k o ≡ none
not_own k none x w w' e = refl
not_own k (some b) x w w' e = elim (Bool-cases (key_eq (key_of b.meta) k && is_some b.replicas)) [
  | inl y ↦
      let read : reply (at_own_key k (some b)) w ≡ (ok b, w) = rw y refl in
      let bad : ⊥ = cc in absurd bad
  | inr n ↦ rw n refl
]

pub ok-injective : {A : Type 0} (a b : A) → ok a ≡ ok b → a ≡ b
ok-injective a b e = cc

put_with-IsStored :
    (s t : StatefulSet Quantity) (o : Option ℤ) (w w' : World)
    → s.replicas ≡ o
    → put_with s o w ≡ (ok t, w')
    → IsStored AsSent s t ((view w').stateful_sets (key_of s.meta))
put_with-IsStored s t none w w' has e = let bad : ⊥ = cc in absurd bad
put_with-IsStored s t (some n) w w' has e =
    let same : s ≡ t = ok-injective s t (ap (λ p. p.0) e) in
    let own_key = key_eq_refl (key_of s.meta) in
    let set : is_some s.replicas ≡ true = ap is_some has in
    let both : (key_eq (key_of s.meta) (key_of s.meta) && is_some s.replicas) ≡ true =
      ap (λ b. b && is_some s.replicas) own_key ∙ set in
    let kept : readable (key_of s.meta) (some s) ≡ some s =
      ap (λ b. if b then some s else none) both in
    let stored : readable (key_of s.meta) (put (key_of s.meta) s w.stateful_sets (key_of s.meta))
        ≡ some s =
      ap (readable (key_of s.meta)) (put_same (key_of s.meta) s w.stateful_sets) ∙ kept in
    record {
      there =
          ap
            (λ (p : Result (StatefulSet Quantity) × World).
              readable (key_of s.meta) (p.1.stateful_sets (key_of s.meta)))
            (sym e)
          ∙ stored
          ∙ ap some same;
      replicas = ap (λ x. x.replicas) (sym same);
      template = ap (λ x. x.template) (sym same);
    }

map_written :
    (cm : ConfigMap) (x : Result ConfigMap) (w : World) (op : OperationResult) (w' : World)
    → written x (λ after. record w { config_maps = put (key_of cm.meta) after w.config_maps }) w
      ≡ (ok op, w')
    → (after : ConfigMap) × (x ≡ ok after) × (w'.config_maps (key_of cm.meta) ≡ some after)
map_written cm (ok a) w op w' e = (
  a,
  refl,
  ap (λ p. p.1.config_maps (key_of cm.meta)) (sym e) ∙ put_same (key_of cm.meta) a w.config_maps,
)
map_written cm (err x) w op w' e = ground arith
map_written cm panic w op w' e = ground arith

svc_written :
    (s : Service) (x : Result Service) (w : World) (op : OperationResult) (w' : World)
    → written x (λ after. record w { services = put (key_of s.meta) after w.services }) w
      ≡ (ok op, w')
    → (after : Service) × (x ≡ ok after) × (w'.services (key_of s.meta) ≡ some after)
svc_written s (ok a) w op w' e = (
  a,
  refl,
  ap (λ p. p.1.services (key_of s.meta)) (sym e) ∙ put_same (key_of s.meta) a w.services,
)
svc_written s (err x) w op w' e = ground arith
svc_written s panic w op w' e = ground arith

pub memory-Effects : Effects AsSent view memory
memory-Effects = record {
  cluster_found = λ k w pc w' e. found (w.clusters k) pc w w' e;
  cluster_missing = λ k w x w' e _. missing (w.clusters k) x w w' e;
  stateful_set_found = λ k w s w' e. own k (w.stateful_sets k) s w w' e;
  stateful_set_missing = λ k w x w' e _. not_own k (w.stateful_sets k) x w w' e;
  stateful_set_created = λ s w t w' e. put_with-IsStored s t s.replicas w w' refl e;
  stateful_set_updated = λ s w t w' e. put_with-IsStored s t s.replicas w w' refl e;
  config_map_written = λ cm f w op w' e.
      let before = or_else cm (w.config_maps (key_of cm.meta)) in
      let r = map_written cm (f before) w op w' e in (before, r.0, r.1, r.2);
  service_written = λ s f w op w' e.
      let before = or_else s (w.services (key_of s.meta)) in
      let r = svc_written s (f before) w op w' e in (before, r.0, r.1, r.2);
  status_written = λ pc w t w' e.
      let same = ok-injective pc t (ap (λ p. p.0) e) in
      (
        ap (λ p. p.1.clusters (key_of pc.meta)) (sym e)
            ∙ put_same (key_of pc.meta) pc w.clusters
            ∙ ap some same,
        ap (λ x. x.status) (sym same),
      );
}

pub tools-OwnerKeepsKey :
    (equal : PodSpec Quantity → PodSpec Quantity → Bool) → OwnerKeepsKey (tools equal)
tools-OwnerKeepsKey equal owner m owned e = ground arith
