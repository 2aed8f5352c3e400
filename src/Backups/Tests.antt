-- ===== src/Backups/Tests.antt =====
-- Examples of the backup scheduler.
use tsdb_operator.Base.{String, some, ap, sym, arith, List, [], ◌∷◌, ◌≡◌, refl, ok}
use tsdb_operator.Base.Clock.{stamp}
use tsdb_operator.Backups.Memory.{Objects, put, services}
use tsdb_operator.Backups.{run_once, bytes_reader}
use tsdb_operator.Kube.Memory.{ok-injective}
use tsdb_operator.Backups.{snapshot, upload_now}
use tsdb_operator.Backups.Shipped.{relocated, upload_now-relocated}
use tsdb_operator.Types.{PrometheusCluster}
use tsdb_operator.Kube.Memory.{Quantity}
use tsdb_operator.Backups.{Services}
use tsdb_operator.Base.Text.{◌<>◌}
use tsdb_operator.Samples.{no_metrics}
use tsdb_operator.Backups.Counted.{CountLaws, label_for, run_once-counted}
use tsdb_operator.Backups.Reader.{drain, drain-bytes_reader}
use tsdb_operator.Samples.{cluster}

drain_example :
    drain {Byte = String} (2 ∷ 1 ∷ 5 ∷ 1 ∷ []) (bytes_reader ("a" ∷ "b" ∷ "c" ∷ []))
    ≡ some ("a" ∷ "b" ∷ "c" ∷ [])
drain_example =
    drain-bytes_reader (2 ∷ 1 ∷ 5 ∷ 1 ∷ []) ("a" ∷ "b" ∷ "c" ∷ [])
      (omega arith, (omega arith, (omega arith, (omega arith, tt)))) (omega arith)

abbrev stored : Objects
stored = put "tsdb" "prod/edge/20240229T123456Z.tar" []

run_once_done : run_once (services {X = Unit}) "monitoring" "edge" (tt, []) ≡ (ok tt, (tt, stored))
unfolding run_once stamp
run_once_done = refl

abbrev elsewhere : PrometheusCluster Quantity
elsewhere = relocated "eu-west-1" "https://minio" (some (record { name = "minio" })) cluster

upload_now_example :
    (snapshot (services {X = Unit}) elsewhere ≡ snapshot (services {X = Unit}) cluster)
    × ((snap body : String)
        → upload_now (services {X = Unit}) elsewhere snap body
          ≡ upload_now (services {X = Unit}) cluster snap body)
upload_now_example =
    upload_now-relocated (services {X = Unit}) cluster "eu-west-1" "https://minio"
      (some (record { name = "minio" }))

-- The labels counted, the last ones first.
abbrev bump : (namespace name label : String) → List String → List String
bump namespace name label counted = (namespace <> "/" <> name <> "/" <> label) ∷ counted

abbrev counting : Services Quantity (List String × Objects)
counting = record services {
  registry = record no_metrics {
    inc_backup_total = λ ns name label w. (bump ns name label w.0, w.1);
  };
}

count_laws : CountLaws counting (λ w. w.0) bump
count_laws = record {
  counted = λ ns name label w. refl;
  get_cluster = λ k w. refl;
  update_status = λ pc w. refl;
  post = λ url w. refl;
  read = λ url w body w' q v.
      let same : (λ u. (ok "{}", u)) ≡ body = ok-injective _ body (ap (λ x. x.0) q) in
      ap (λ f. (f v).1.0) (sym same);
  put_object = λ bucket key body w. refl;
  exec = λ ns pod container command w. refl;
  stream = λ ns pod container command bucket key w. refl;
}

run_once-counted_example :
    (run_once counting "monitoring" "edge" ([], [])).1.0
    ≡ bump "monitoring" "edge"
        (label_for counting (λ w. w.0) bump (run_once counting "monitoring" "edge" ([], [])).0)
        []
run_once-counted_example =
    run_once-counted counting (λ w. w.0) bump count_laws "monitoring" "edge" ([], [])
