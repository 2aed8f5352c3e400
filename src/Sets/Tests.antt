-- ===== src/Sets/Tests.antt =====
-- Examples of passes over a set.
use tsdb_operator.Base.{
  String, insert, ◌<◌, ◌^◌, ◌++◌, map, Option, none, some, List, [], ◌∷◌, true, false, sym, ap,
  subst, ◌≡◌, ◌≢◌, distinct, differs, distinct_sound, refl, inr, ok, arith, length, ◌∙◌,
}
use tsdb_operator.Base.Int.{pos, to_int32}
use tsdb_operator.Types.{Key, key_of, PrometheusCluster, PrometheusClusterSet}
use tsdb_operator.Sets.{SetReconciler, Tally, scan, is_selected, reconcile_set, with_status}
use tsdb_operator.Sets.Overlay.{scan-left_alone, tally}
use tsdb_operator.Sets.Counts.{IsCounted, member_key, member_of, selected, scan-Yields}
use mathlib.Core.List.Permᴰ.{swap}
use tsdb_operator.Sets.Unordered.{no_tally, SameStatus, scan-SameStatus}
use tsdb_operator.Sets.Status.{empty-IsCounted, SetLaws, HasSummary, reconcile_set-HasSummary}
use tsdb_operator.Kube.Memory.{Quantity, ok-injective}
use tsdb_operator.Samples.{cluster, cluster_key, backup}

-- The set, and the clusters of the server.
abbrev SetWorld : Type 0
SetWorld = PrometheusClusterSet Unit × List (PrometheusCluster Quantity)

abbrev plain : PrometheusCluster Quantity
plain = record cluster {
  meta = record cluster.meta { name = "core" };
  spec = record cluster.spec { backup = record backup { enabled = false } };
  status = record cluster.status { phase = "Active" };
}

abbrev set : PrometheusClusterSet Unit
set = record {
  meta = record cluster.meta { name = "all" };
  spec = record {
    cluster_selector = none;
    namespace_selector = none;
    backup_template = some backup;
  };
  status = record { member_count = pos 0; phase_count = []; members = [] };
}

-- A server with two clusters, that keeps the last set.
abbrev fleet : SetReconciler Quantity Unit Unit SetWorld
fleet = record {
  client = record {
    get_set = λ k w. (ok w.0, w);
    update_set_status = λ s w. (ok s, (s, w.1));
    list_sets = λ w. (ok [], w);
    list_namespaces = λ w. (ok [], w);
    list_clusters = λ w. (ok (cluster ∷ plain ∷ []), w);
    update_cluster = λ pc w. (ok pc, (w.0, pc ∷ []));
  };
  selectors = record {
    everything = tt;
    as_selector = λ s. ok tt;
    is_empty = λ s. true;
    matches = λ s m. true;
  };
}

abbrev start : SetWorld
start = (set, cluster ∷ plain ∷ [])

abbrev set_view : SetWorld → Key → Option (PrometheusClusterSet Unit)
set_view w k = some w.0

abbrev after : SetWorld
after = (reconcile_set fleet cluster_key start).1

left_alone_example :
    scan fleet set tt none (cluster ∷ []) no_tally start
    ≡ (ok (tally (is_selected fleet tt none) (cluster ∷ []) no_tally), start)
left_alone_example = scan-left_alone fleet set tt none (cluster ∷ []) no_tally start (inr refl, tt)

reconcile_example : reconcile_set fleet cluster_key start ≡ (ok tt, after)
unfolding reconcile_set
reconcile_example = refl

fleet_laws : SetLaws fleet set_view
fleet_laws = record {
  keeps =
      λ pc w stored w' e. ap (λ x. key_of x.meta) (sym (ok-injective pc stored (ap (λ x. x.0) e)));
  few = λ w pcs w' e.
      subst (λ xs. length xs < 2 ^ 31) (ok-injective (cluster ∷ plain ∷ []) pcs (ap (λ x. x.0) e))
        (omega arith);
  status_written = λ s w stored w' e.
      let same = ok-injective s stored (ap (λ x. x.0) e) in
      (ap (λ x. some x.1.0) (sym e) ∙ ap some same, ap (λ x. x.status) (sym same));
}

abbrev counted : Tally
counted = record {
  members =
      record { namespace = "monitoring"; name = "edge"; phase = "" }
      ∷ record { namespace = "monitoring"; name = "core"; phase = "Active" }
      ∷ [];
  phase_count = ("Active", pos 1) ∷ [];
}

abbrev scanned : SetWorld
scanned = (scan fleet set tt none (cluster ∷ plain ∷ []) no_tally start).1

counted_example :
    scan fleet set tt none (cluster ∷ plain ∷ []) no_tally start ≡ (ok counted, scanned)
unfolding scan to_int32 insert
counted_example = refl

scan_example :
    IsCounted counted
    × (map member_key counted.members
        ≡ map member_key no_tally.members
          ++ selected fleet member_key tt none (cluster ∷ plain ∷ []))
scan_example =
    scan-Yields fleet member_key set tt none fleet_laws.keeps (cluster ∷ plain ∷ []) no_tally
      (omega arith) empty-IsCounted start tt counted scanned counted_example

HasSummary_example : HasSummary fleet set_view (key_of set.meta) after
HasSummary_example =
    reconcile_set-HasSummary fleet set_view fleet_laws set cluster_key start start after refl
      reconcile_example

abbrev counted_back : Tally
counted_back = record {
  members =
      record { namespace = "monitoring"; name = "core"; phase = "Active" }
      ∷ record { namespace = "monitoring"; name = "edge"; phase = "" }
      ∷ [];
  phase_count = ("Active", pos 1) ∷ [];
}

abbrev scanned_back : SetWorld
scanned_back = (scan fleet set tt none (plain ∷ cluster ∷ []) no_tally start).1

counted_back_example :
    scan fleet set tt none (plain ∷ cluster ∷ []) no_tally start ≡ (ok counted_back, scanned_back)
unfolding scan to_int32 insert
counted_back_example = refl

names_differ : ◌≢◌ {A = String} "edge" "core"
unfolding distinct differs
names_differ = (distinct_sound ("edge" ∷ "core" ∷ []) refl).0.0

either_order : SameStatus (with_status counted set).status (with_status counted_back set).status
either_order =
    scan-SameStatus fleet tt none
      (λ pc w stored w' e. ap member_of (sym (ok-injective pc stored (ap (λ x. x.0) e)))) set
      (cluster ∷ plain ∷ []) (plain ∷ cluster ∷ []) (swap refl refl)
      (((λ e. names_differ (ap (λ k. k.name) e)), tt), (tt, tt)) (omega arith) start counted scanned
      counted_example start counted_back scanned_back counted_back_example
