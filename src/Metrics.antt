-- ===== src/Metrics.antt =====
-- internal/metrics/metrics.go. The metric vectors of the Prometheus client library act on the
-- world: setting a gauge, adding to a counter, and deleting the series whose labels match.
pub mod Phases
mod Tests
use tsdb_operator.Base.{ℕ, String, List, [], ◌∷◌, ◌==◌, if◌then◌else◌}

pub record Registry (W : Type 0) : Type 0 where
  pub set_cluster_phase : (namespace cluster phase : String) → ℕ → W → W
  pub delete_cluster_phase : (namespace cluster : String) → W → W
  pub inc_backup_total : (namespace cluster result : String) → W → W
  pub delete_backup_total : (namespace cluster : String) → W → W
  pub inc_failover_total : (namespace cluster : String) → W → W
  pub delete_failover_total : (namespace cluster : String) → W → W
  pub inc_audit_record_total : (cluster result : String) → W → W
  pub add_audit_prune_total : ℕ → W → W
  pub set_audit_rows : ℕ → W → W

abbrev pub phases : List String
phases = "Provisioning" ∷ "Active" ∷ "Scaling" ∷ "Failed" ∷ []

module _ {W : Type 0} (reg : Registry W) where
  -- The loop of `SetPhase` over the phases.
  unfoldable pub set_phases : (namespace cluster phase : String) → List String → W → W
  set_phases ns cluster phase [] w = w
  set_phases ns cluster phase (p ∷ ps) w =
      set_phases ns cluster phase ps
        (reg.set_cluster_phase ns cluster p (if p == phase then 1 else 0) w)

  unfoldable pub set_phase : (namespace cluster phase : String) → W → W
  unfolding set_phases
  set_phase ns cluster phase = set_phases ns cluster phase phases

  unfoldable pub delete_cluster : (namespace cluster : String) → W → W
  delete_cluster ns cluster w =
      reg.delete_failover_total ns cluster
        (reg.delete_backup_total ns cluster (reg.delete_cluster_phase ns cluster w))
