-- ===== src/Startup/Tests.antt =====
-- Examples of the start, on a manager that keeps the list of what it runs.
use tsdb_operator.Base.{true, false, List, [], ◌∷◌, ◌≡◌, refl, ap, sym, ok, inr, All, map}
use tsdb_operator.Failover.{Checker}
use tsdb_operator.Samples.{no_metrics}
use tsdb_operator.Audit.Memory.{Rows, table}
use tsdb_operator.Backups.Memory.{Objects, services}
use tsdb_operator.Kube.Memory.{Quantity}
use tsdb_operator.Api.Memory.{client}
use tsdb_operator.Startup.{Flags, default_flags, Runnable, Runtime, start_up, main}
use tsdb_operator.Audit.{open_log}
use tsdb_operator.Startup.Laws.{RuntimeLaws}
use tsdb_operator.Startup.Runs.{kind_of, wanted, start_up-Runs}
use tsdb_operator.Startup.Refuses.{IsRefusing, main-RefusesBackups}

-- The world that the runnables act on.
abbrev U : Type 0
U = Rows × Objects

abbrev idle : Checker Quantity U
idle = record {
  list_clusters = λ w. (ok [], w);
  list_pods = λ ns labels w. (ok [], w);
  delete_pod = λ p w. (ok tt, w);
  update_cluster_status = λ pc w. (ok pc, w);
  event = λ pc reason message w. w;
  get = λ url w. (ok 200, w);
  now = λ w. 1;
  registry = no_metrics;
}

abbrev W : Type 0
W = List (Runnable Quantity Unit U)

-- A runtime without failures.
abbrev runtime : Runtime Quantity Unit Unit Unit U W
runtime = record {
  new_manager = λ o w. (ok tt, w);
  client = client;
  set_up_cluster_sets = λ w. (ok tt, w);
  set_up_clusters = λ b w. (ok tt, w);
  register_webhook = λ w. (ok tt, w);
  checker = idle;
  load_aws_config = λ region w. (ok tt, w);
  new_scheduler = λ aws o. record services { can_exec = false };
  new_executor = λ w. (ok tt, w);
  with_executor = λ e s. record s { can_exec = true };
  audit_driver = record {
    connect = λ dsn w. (ok table, w);
    execute = λ db statements w. (ok tt, w);
    close = λ db w. (ok tt, w);
    metrics = no_metrics;
    clock = λ w. 63844806896000000000;
  };
  add = λ r w. (ok tt, r ∷ w);
  add_check = λ name w. (ok tt, w);
  start = λ w. (ok tt, w);
}

runtime_laws : RuntimeLaws runtime (λ w. w)
runtime_laws = record {
  adds = λ r w w' e. sym (ap (λ x. x.1) e);
  adds_at_most = λ r w. inr refl;
  new_manager = λ o w. refl;
  set_up_cluster_sets = λ w. refl;
  set_up_clusters = λ b w. refl;
  register_webhook = λ w. refl;
  load_aws_config = λ region w. refl;
  new_executor = λ w. refl;
  connects = λ dsn w. refl;
  executes = λ db statements w. refl;
  add_check = λ name w. refl;
  start = λ w. refl;
}

abbrev flags : Flags
flags = default_flags "postgres://audit"

abbrev started : W
started = (start_up runtime flags []).1

started_ok : start_up runtime flags [] ≡ (ok tt, started)
unfolding start_up open_log
started_ok = refl

start_up_example : map kind_of started ≡ wanted flags
start_up_example = start_up-Runs runtime (λ w. w) runtime_laws flags [] started refl started_ok

main_example : All IsRefusing (main runtime flags []).1
main_example = main-RefusesBackups runtime (λ w. w) runtime_laws flags [] refl
