-- ===== src/Reconcile/Tests.antt =====
-- Examples of passes over the API server in memory.
use tsdb_operator.Base.{some, true, false, ◌≡◌, refl, ok, inr, lookup, none, [], ◌∷◌, insert}
use tsdb_operator.Kube.Laws.{SameChildren}
use tsdb_operator.Kube.Memory.{Quantity, World, view, memory-Frames, memory-Effects, put}
use tsdb_operator.Types.{PrometheusCluster, ConfigMap}
use tsdb_operator.Kube.Memory.Up.{
  memory-reads, memory-updates, memory-looks_up, memory-writes_map, memory-stores,
  memory-writes_service, tools-finalizer, tools-removes,
}
use tsdb_operator.Reconcile.Available.{IsAvailable}
use tsdb_operator.Reconcile.Finalizes.{IsLetGo, reconcile-finalizes}
use tsdb_operator.Reconcile.{
  finalizer_name, done, reconcile, mutate_config_map, data_of, with_scrape_file,
}
use tsdb_operator.Config.{render_config}
use tsdb_operator.Metrics.{delete_cluster}
use tsdb_operator.Reconcile.Objects.{lookup-mutate_config_map}
use tsdb_operator.Reconcile.Guarded.{reconcile-SameChildren, MetricsApart}
use tsdb_operator.Samples.{reconciler, empty_world, cluster, cluster_key, scrape_from_secret}

metrics_apart : MetricsApart reconciler view
unfolding delete_cluster
metrics_apart ns c w = refl

abbrev bare : PrometheusCluster Quantity
bare = record cluster { meta = record cluster.meta { finalizers = [] } }

abbrev bare_world : World
bare_world = record empty_world { clusters = put cluster_key bare empty_world.clusters }

reconcile-SameChildren_example :
    SameChildren (view bare_world) (view (reconcile reconciler cluster_key bare_world).1)
reconcile-SameChildren_example =
    reconcile-SameChildren reconciler view memory-Frames memory-Effects metrics_apart cluster_key
      bare bare_world refl (inr refl)

abbrev config_map : ConfigMap
config_map = record { meta = cluster.meta; contents = none }

abbrev written : ConfigMap
written = record {
  meta = record cluster.meta { owners = record { name = "edge"; controller = true } ∷ [] };
  contents = some (
      with_scrape_file (some scrape_from_secret)
        (insert "prometheus.yml" (render_config reconciler.table cluster) []));
}

filled_example : mutate_config_map reconciler cluster config_map ≡ ok written
unfolding mutate_config_map
filled_example = refl

lookup_example :
    lookup "prometheus.yml" (data_of written.contents)
    ≡ some (render_config reconciler.table cluster)
lookup_example =
    lookup-mutate_config_map reconciler cluster config_map written "prometheus.yml" filled_example

up : IsAvailable reconciler view
up = record {
  reads = λ k w pc there. (w, memory-reads k w pc there);
  updates = λ pc w. (_, refl, memory-updates pc w);
  updates_status = λ pc w. (_, _, refl, tt);
  looks_up = memory-looks_up;
  creates = memory-stores;
  replaces = memory-stores;
  writes_map = memory-writes_map;
  writes_service = memory-writes_service;
  owns = λ owner m. (_, refl);
  adds_finalizer = λ m. (tools-finalizer (λ a b. false) m finalizer_name, refl, refl);
}

-- The cluster after its deletion was asked for.
abbrev deleting : PrometheusCluster Quantity
deleting = record cluster { meta = record cluster.meta { deletion_timestamp = some 1 } }

abbrev deleting_world : World
deleting_world = record empty_world { clusters = put cluster_key deleting empty_world.clusters }

reconcile-finalizes_example :
    (w' : World) × (reconcile reconciler cluster_key deleting_world ≡ (ok done, w'))
    × IsLetGo reconciler view deleting w'
reconcile-finalizes_example =
    reconcile-finalizes reconciler view up metrics_apart
      (λ m. (tools-removes (λ a b. false) m finalizer_name, refl, refl)) deleting deleting_world
      refl refl refl
