-- ===== src/Sets.antt =====
-- internal/controller/prometheusclusterset_controller.go: the reconciler of PrometheusClusterSet,
-- which lists its members, counts them by phase, and overlays its backup template on them.
pub mod Overlay
pub mod Counts
pub mod Status
pub mod Unordered
mod Tests
use tsdb_operator.Base.{
  ℕ, suc, ◌-◌, nat_eq, String, Option, none, some, List, [], ◌∷◌, ◌++◌, Bool, true, false, ◌==◌,
  if◌then◌else◌, not, ◌&&◌, ◌||◌, Map, lookup, insert, get_or_empty, length, Error, Result, ok, err,
  panic, Action, pure, throw, lift, wrap, wrapping, ◌>>=◌, ◌>>◌, attempt, is_not_found,
}
use tsdb_operator.Base.Int.{ℤ, pos, negsuc, to_int32}
use tsdb_operator.Base.Order.{text_less, sort}
use tsdb_operator.Types.{Key, PrometheusCluster, S3BackupSpec, PrometheusClusterSet, SetMember}

abbrev pub opt_out_annotation : String
opt_out_annotation = "observability.merlionos.org/clusterset-opt-out"

abbrev pub managed_by_annotation : String
managed_by_annotation = "observability.merlionos.org/clusterset"

pub record Namespace : Type 0 where
  pub name : String
  pub labels : Map String

-- k8s.io/apimachinery labels: selectors, and their making from a label selector of the API.
pub record Selectors (Sel Selector : Type 0) : Type 0 where
  pub everything : Selector
  pub as_selector : Sel → Result Selector
  pub is_empty : Selector → Bool
  pub matches : Selector → Map String → Bool

-- The calls of client.Client that this reconciler makes.
pub record SetClient (Q Sel W : Type 0) : Type 0 where
  pub get_set : Key → Action W (PrometheusClusterSet Sel)
  pub update_set_status : PrometheusClusterSet Sel → Action W (PrometheusClusterSet Sel)
  pub list_sets : Action W (List (PrometheusClusterSet Sel))
  pub list_namespaces : Action W (List Namespace)
  pub list_clusters : Action W (List (PrometheusCluster Q))
  pub update_cluster : PrometheusCluster Q → Action W (PrometheusCluster Q)

pub record SetReconciler (Q Sel Selector W : Type 0) : Type 0 where
  pub client : SetClient Q Sel W
  pub selectors : Selectors Sel Selector

-- The variables `members` and `phaseCount` of the loop.
pub record Tally : Type 0 where
  pub members : List SetMember
  pub phase_count : Map ℤ

-- `n++` on an int32.
abbrev pub increment : ℤ → ℤ
increment (pos n) = to_int32 (suc n)
increment (negsuc n) = if nat_eq n 0 then pos 0 else negsuc (n - 1)

-- `m[phase]`, which is 0 for a phase that is not there.
abbrev pub entry : Option ℤ → ℤ
entry none = pos 0
entry (some n) = n

unfoldable pub count_phase : String → Map ℤ → Map ℤ
count_phase phase m = if phase == "" then m else insert phase (increment (entry (lookup phase m))) m

-- The body of the loop below the overlay.
unfoldable pub add_member : {Q : Type 0} → PrometheusCluster Q → Tally → Tally
unfolding count_phase
add_member pc t = record {
  members =
      t.members
      ++ record { namespace = pc.meta.namespace; name = pc.meta.name; phase = pc.status.phase }
        ∷ [];
  phase_count = count_phase pc.status.phase t.phase_count;
}

-- The comparison given to sort.Slice.
unfoldable pub member_less : SetMember → SetMember → Bool
member_less a b =
    if a.namespace == b.namespace
    then text_less a.name b.name
    else text_less a.namespace b.namespace

abbrev pub with_status :
    {Sel : Type 0} → Tally → PrometheusClusterSet Sel → PrometheusClusterSet Sel
with_status t set = record set {
  status = record {
    member_count = to_int32 (length t.members);
    phase_count = t.phase_count;
    members = sort member_less t.members;
  };
}

-- A member with the template, as it is sent to the server.
abbrev pub overlaid :
    {Q : Type 0} → String → S3BackupSpec → PrometheusCluster Q → PrometheusCluster Q
overlaid set_name template pc = record pc {
  meta = record pc.meta {
    annotations = some (
        insert managed_by_annotation set_name
          (elim pc.meta.annotations [ none ↦ [] | some m ↦ m ]));
  };
  spec = record pc.spec { backup = record template { enabled = true } };
}

abbrev pub in_namespaces : Option (List String) → String → Bool
in_namespaces none ns = true
in_namespaces (some []) ns = false
in_namespaces (some (a ∷ more)) ns = a == ns || in_namespaces (some more) ns

module _ {Q Sel Selector W : Type 0} (r : SetReconciler Q Sel Selector W) where
  open r use {client, selectors}

  unfoldable pub selector_for : Option Sel → Result Selector
  selector_for none = ok selectors.everything
  selector_for (some s) = selectors.as_selector s

  -- The names of the namespaces whose labels match, in the order of the list.
  unfoldable pub matching_names : Selector → List Namespace → List String
  matching_names sel [] = []
  matching_names sel (ns ∷ more) =
      let rest = matching_names sel more in
      if selectors.matches sel ns.labels then ns.name ∷ rest else rest

  unfoldable pub allowed_namespaces : Selector → Action W (Option (List String))
  unfolding matching_names
  allowed_namespaces sel = if selectors.is_empty sel then pure none else (do
    list ← wrapping "list namespaces" client.list_namespaces
    pure (some (matching_names sel list)))

  -- The result is the member as the call leaves it.
  unfoldable pub overlay_backup :
      PrometheusClusterSet Sel → PrometheusCluster Q → Action W (PrometheusCluster Q)
  unfolding get_or_empty
  overlay_backup set pc = elim set.spec.backup_template [
    | none ↦ pure pc
    | some template ↦
        if get_or_empty opt_out_annotation pc.meta.annotations == "true"
        then pure pc
        else if pc.spec.backup.enabled
        then pure pc
        else client.update_cluster (overlaid set.meta.name template pc)
  ]

  unfoldable pub is_selected : Selector → Option (List String) → PrometheusCluster Q → Bool
  is_selected sel allowed pc =
      in_namespaces allowed pc.meta.namespace && selectors.matches sel pc.meta.labels

  -- The loop over the clusters; an overlay that fails is logged, and leaves what it reads of the
  -- member as it was.
  unfoldable pub scan :
      PrometheusClusterSet Sel
      → Selector
      → Option (List String)
      → List (PrometheusCluster Q)
      → Tally
      → Action W Tally
  unfolding is_selected overlay_backup add_member
  scan set sel allowed [] t = pure t
  scan set sel allowed (pc ∷ pcs) t =
      let rest = scan set sel allowed pcs in
      if is_selected sel allowed pc
      then (do
        current ← attempt (overlay_backup set pc) (λ e. pure pc) pure
        rest (add_member current t))
      else rest t

  unfoldable pub reconcile_members :
      PrometheusClusterSet Sel → (cluster_sel ns_sel : Selector) → Action W Unit
  unfolding allowed_namespaces scan
  reconcile_members set cluster_sel ns_sel = do
    allowed ← allowed_namespaces ns_sel
    list ← wrapping "list prometheusclusters" client.list_clusters
    tally ← scan set cluster_sel allowed list (record { members = []; phase_count = [] })
    _ ← wrapping "update status" (client.update_set_status (with_status tally set))
    pure tt

  unfoldable pub reconcile_found_set : PrometheusClusterSet Sel → Action W Unit
  unfolding reconcile_members selector_for
  reconcile_found_set set = do
    cluster_sel ← wrapping "invalid clusterSelector" (lift (selector_for set.spec.cluster_selector))
    ns_sel ← wrapping "invalid namespaceSelector" (lift (selector_for set.spec.namespace_selector))
    reconcile_members set cluster_sel ns_sel

  unfoldable pub reconcile_set : Key → Action W Unit
  unfolding reconcile_found_set
  reconcile_set key =
      attempt (client.get_set key)
        (λ e. if is_not_found e.reason then pure tt else throw (wrap "get clusterset" e))
        reconcile_found_set

  abbrev pub requests : List (PrometheusClusterSet Sel) → List Key
  requests [] = []
  requests (set ∷ sets) = record { namespace = ""; name = set.meta.name } ∷ requests sets

  -- What a change of any cluster enqueues: no set, if the sets cannot be listed.
  unfoldable pub enqueue_all_sets : Action W (List Key)
  enqueue_all_sets = attempt client.list_sets (λ e. pure []) (λ sets. pure (requests sets))
