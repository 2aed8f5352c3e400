-- ===== src/Failover/Tests.antt =====
-- Examples of a round of checks.
use tsdb_operator.Base.{
  ◌≢◌, panic, ℕ, suc, String, [], ◌∷◌, Bool, ◌==◌, ◌≡◌, refl, inr, ok, arith, if◌then◌else◌,
}
use tsdb_operator.Metrics.{Registry}
use tsdb_operator.Failover
use tsdb_operator.Base.Loops.{ticked, cancelled}
use tsdb_operator.Failover.{Pod, Checker, check_all}
use tsdb_operator.Failover.Only.{Seen, CheckerLaws, IsJustified, start-IsJustified}
use tsdb_operator.Kube.Memory.{Quantity}
use tsdb_operator.Samples.{cluster}

abbrev counting : Registry Seen
counting = record {
  set_cluster_phase = λ ns c p v w. w;
  delete_cluster_phase = λ ns c w. w;
  inc_backup_total = λ ns c res w. w;
  delete_backup_total = λ ns c w. w;
  inc_failover_total = λ ns c w. record { deleted = w.deleted; failovers = suc w.failovers };
  delete_failover_total = λ ns c w. w;
  inc_audit_record_total = λ c res w. w;
  add_audit_prune_total = λ n w. w;
  set_audit_rows = λ n w. w;
}

abbrev pod : String → Pod
pod ip = record { name = "edge-0"; namespace = "monitoring"; ip = ip }

abbrev is_up : String → Bool
is_up url = url == "http://10.0.0.1:9090/-/ready"

abbrev code_of : Bool → ℕ
code_of up = if up then 200 else 503

-- Three pods: one is up, one is down, one has no address yet.
abbrev checker : Checker Quantity Seen
checker = record {
  list_clusters = λ w. (ok (cluster ∷ []), w);
  list_pods = λ ns labels w. (ok (pod "10.0.0.1" ∷ pod "10.0.0.2" ∷ pod "" ∷ []), w);
  delete_pod = λ p w. (ok tt, record { deleted = p ∷ w.deleted; failovers = w.failovers });
  update_cluster_status = λ pc w. (ok pc, w);
  event = λ pc reason message w. w;
  get = λ url w. (ok (code_of (is_up url)), w);
  now = λ w. 1;
  registry = counting;
}

abbrev start : Seen
start = record { deleted = []; failovers = 0 }

checker_laws : CheckerLaws checker (λ w. w) is_up
checker_laws = record {
  list_clusters = λ w. refl;
  list_pods = λ ns labels w. refl;
  update_status = λ pc w. refl;
  event = λ pc reason message w. refl;
  get = λ url w. refl;
  answer = λ url w up. (200, rw up refl, omega arith);
  counted = λ ns c w. refl;
  deletes = λ p w. inr refl;
}

check_all_example :
    (check_all checker start).1 ≡ record { deleted = pod "10.0.0.2" ∷ []; failovers = 1 }
unfolding check_all
check_all_example = refl

start_example :
    IsJustified checker
      (λ w. w)
      is_up
      (Failover.start checker (ticked ∷ ticked ∷ cancelled ∷ []) start).1
start_example =
    start-IsJustified checker (λ w. w) is_up checker_laws (ticked ∷ ticked ∷ cancelled ∷ []) start
      (tt, omega arith)

calm : (w : Seen) → (check_all checker w).0 ≢ panic
unfolding check_all
calm w e = cc
