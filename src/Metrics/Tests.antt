-- ===== src/Metrics/Tests.antt =====
-- Examples of the phase gauge.
use tsdb_operator.Base.{none, some, ◌≡◌, refl}
use tsdb_operator.Metrics.{set_phase}
use tsdb_operator.Samples.{Gauges, gauges}

abbrev empty : Gauges
empty ns c p = none

only_one_set :
    (set_phase gauges "monitoring" "edge" "Active" empty "monitoring" "edge" "Scaling" ≡ some 0)
    × (set_phase gauges "monitoring" "edge" "Active" empty "monitoring" "edge" "Active" ≡ some 1)
unfolding set_phase
only_one_set = (refl, refl)
