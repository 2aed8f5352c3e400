-- ===== src/Workload/Shape.antt =====
-- How the settings of a cluster decide its containers and their flags.
use Prim.Native.Char.{Char, code}
use tsdb_operator.Base.{
  String, List, [], ◌∷◌, Bool, true, ◌≡◌, ◌≢◌, ◌↔◌, refl, Any, IsDistinct, distinct, distinct_sound,
  arith, sym, ap, ◌∙◌,
}
use text.Mathlib.TextLemmas.{cons-append, append_assoc, tail-eq_of_cons-eq, head-eq_of_cons-eq}
use tsdb_operator.Base.Text.{◌<>◌}
use tsdb_operator.Types.{PrometheusCluster, StatefulSet}
use tsdb_operator.Workload.{Quantities, build_stateful_set, prometheus_args, or_default}
use tsdb_operator.Workload.Mounts.{names_differ}

abbrev pub RunsWith : {Q : Type 0} → StatefulSet Q → (container flag : String) → Type 0
RunsWith s container flag =
    Any (λ c. (c.name ≡ container) × Any (λ a. a ≡ flag) c.args) s.template.spec.containers

-- A text that goes on after "--s" is not one that goes on after "--w" or "--e".
ne_by_third :
    (c : Char) (r t : String)
    → code c ≢ b's'
    → ("--s" <> r) ≢ String.◌∷◌ "-" (String.◌∷◌ "-" (String.◌∷◌ c t))
ne_by_third c r t h e =
    let one = tail-eq_of_cons-eq (sym (cons-append "-" "-s" r) ∙ e) in
    let two = tail-eq_of_cons-eq (sym (cons-append "-" "s" r) ∙ one) in
    h (sym (ap code (head-eq_of_cons-eq (sym (cons-append "s" "" r) ∙ two))))

retention_flag : String → String
retention_flag r = "--storage.tsdb.retention.time=" <> r

retention_other :
    (r : String)
    → (("--storage.tsdb.retention.time=" <> r) ≢ "--web.enable-admin-api")
      × (("--storage.tsdb.retention.time=" <> r) ≢ "--enable-feature=expand-external-labels")
retention_other r = (
  λ e.
      ne_by_third "w" _ "eb.enable-admin-api" (omega arith)
        (sym (append_assoc "--s" "torage.tsdb.retention.time=" r) ∙ e),
  λ e.
      ne_by_third "e" _ "nable-feature=expand-external-labels" (omega arith)
        (sym (append_assoc "--s" "torage.tsdb.retention.time=" r) ∙ e),
)

abbrev flag_list : List String
flag_list =
    "--web.enable-admin-api" ∷ "--enable-feature=expand-external-labels"
    ∷ "--config.file=/etc/prometheus/prometheus.yml" ∷ "--storage.tsdb.path=/prometheus"
    ∷ "--web.enable-lifecycle" ∷ "--storage.tsdb.min-block-duration=2h"
    ∷ "--storage.tsdb.max-block-duration=2h" ∷ []

flags_differ : IsDistinct flag_list
unfolding distinct
flags_differ = distinct_sound flag_list refl

args_iff :
    (retention : String) (backup thanos : Bool)
    → (Any (λ a. a ≡ "--web.enable-admin-api") (prometheus_args retention backup thanos)
        ↔ (backup ≡ true))
      × (Any
            (λ a. a ≡ "--enable-feature=expand-external-labels")
            (prometheus_args retention backup thanos)
          ↔ (thanos ≡ true))
unfolding prometheus_args
args_iff retention backup thanos = ground (arith, flags_differ, retention_other retention)

module _ {Q : Type 0} (qs : Quantities Q) (pc : PrometheusCluster Q) where
  -- The Prometheus container has the admin API, which backups call, exactly when backup is enabled;
  -- it expands external labels exactly when Thanos is enabled, which is when the pods have a
  -- container `thanos-sidecar`.
  pub build_stateful_set-flags_iff :
      (RunsWith (build_stateful_set qs pc) "prometheus" "--web.enable-admin-api"
        ↔ (pc.spec.backup.enabled ≡ true))
      × (RunsWith (build_stateful_set qs pc) "prometheus" "--enable-feature=expand-external-labels"
          ↔ (pc.spec.thanos.enabled ≡ true))
      × (Any (λ c. c.name ≡ "thanos-sidecar") (build_stateful_set qs pc).template.spec.containers
          ↔ (pc.spec.thanos.enabled ≡ true))
  unfolding build_stateful_set
  build_stateful_set-flags_iff = ground (
    arith,
    names_differ,
    args_iff (or_default "15d" pc.spec.retention) pc.spec.backup.enabled pc.spec.thanos.enabled,
  )
