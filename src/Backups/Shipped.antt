-- ===== src/Backups/Shipped.antt =====
-- Where a backup is shipped.
use tsdb_operator.Base.{String, Option, ◌≡◌, refl}
use tsdb_operator.Types.{PrometheusCluster, LocalObjectReference}
use tsdb_operator.Backups.{Services, snapshot, upload, upload_now}

-- The cluster with another region, endpoint and secret for its backups.
abbrev pub relocated :
    {Q : Type 0}
    → (region endpoint : String) → Option LocalObjectReference
    → PrometheusCluster Q
    → PrometheusCluster Q
relocated region endpoint secret pc = record pc {
  spec = record pc.spec {
    backup = record pc.spec.backup {
      region = region;
      endpoint = endpoint;
      credentials_secret_ref = secret;
    };
  };
}

module _ {Q W : Type 0} (s : Services Q W) where
  -- The snapshot and the upload of a run make the same calls and end alike whatever region, endpoint
  -- and secret with credentials the cluster asks for: its backups go to the one store of the scheduler.
  pub upload_now-relocated :
      (pc : PrometheusCluster Q) (region endpoint : String) (secret : Option LocalObjectReference)
      → (snapshot s (relocated region endpoint secret pc) ≡ snapshot s pc)
        × ((snap body : String)
            → upload_now s (relocated region endpoint secret pc) snap body
              ≡ upload_now s pc snap body)
  unfolding snapshot upload_now upload
  upload_now-relocated pc region endpoint secret = (refl, λ snap body. refl)
