-- ===== src/Workload/Tests.antt =====
-- Examples of the StatefulSet.
use tsdb_operator.Base.{[], ◌≡◌, ◌↔◌, refl, All, Any, true}
use tsdb_operator.Config.{extra_secret_mount, additional_scrape_path}
use tsdb_operator.Workload.{build_stateful_set}
use tsdb_operator.Workload.Mounts.{
  IsBacked, HasNoClash, MountsSecret, build_stateful_set-IsBacked, build_stateful_set-HasNoClash,
  scrape_secret-MountsSecret, build_stateful_set-remote_write,
}
use tsdb_operator.Workload.Shape.{RunsWith, build_stateful_set-flags_iff}
use tsdb_operator.Samples.{quantities, cluster, scrape_from_secret, scrape_ref}

IsBacked_example :
    All
      (λ c. All (IsBacked (build_stateful_set quantities cluster)) c.volume_mounts)
      (build_stateful_set quantities cluster).template.spec.containers
IsBacked_example = build_stateful_set-IsBacked quantities cluster

HasNoClash_example : HasNoClash (build_stateful_set quantities cluster)
HasNoClash_example = build_stateful_set-HasNoClash quantities cluster

MountsSecret_example :
    MountsSecret (build_stateful_set quantities cluster) "extra" extra_secret_mount
unfolding additional_scrape_path
MountsSecret_example =
    scrape_secret-MountsSecret quantities cluster scrape_from_secret scrape_ref refl refl refl

remote_write_example :
    build_stateful_set quantities
      (record cluster { spec = record cluster.spec { remote_write = [] } })
    ≡ build_stateful_set quantities cluster
remote_write_example = build_stateful_set-remote_write quantities cluster []

flags_example :
    (RunsWith (build_stateful_set quantities cluster) "prometheus" "--web.enable-admin-api"
      ↔ (cluster.spec.backup.enabled ≡ true))
    × (RunsWith
          (build_stateful_set quantities cluster)
          "prometheus"
          "--enable-feature=expand-external-labels"
        ↔ (cluster.spec.thanos.enabled ≡ true))
    × (Any
          (λ c. c.name ≡ "thanos-sidecar")
          (build_stateful_set quantities cluster).template.spec.containers
        ↔ (cluster.spec.thanos.enabled ≡ true))
flags_example = build_stateful_set-flags_iff quantities cluster
