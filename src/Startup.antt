-- ===== src/Startup.antt =====
-- cmd/main.go: the flags of the operator, the options of its servers, and what it starts.
mod Options
pub mod Laws
pub mod Runs
pub mod Refuses
mod Tests
pub use Options.*
unfoldable pub use Options.{manager_options}
use tsdb_operator.Base.{
  ℕ, String, Option, none, some, List, [], ◌∷◌, Bool, true, false, not, if◌then◌else◌, ◌==◌, Result,
  ok, err, panic, Action, pure, wrapping, ◌>>=◌, ◌>>◌,
}
use tsdb_operator.Base.Int.{ℤ, pos}
use tsdb_operator.Audit.{Logger, Driver, open_log}
use tsdb_operator.Backups.{Services}
use tsdb_operator.Failover.{Checker}
use tsdb_operator.Api.{ApiClient, Server}

-- What the manager runs.
pub data Runnable (Q Sel W : Type 0) : Type 0 where
  ha_checker : Checker Q W → Runnable Q Sel W
  backup_scheduler : Services Q W → Runnable Q Sel W
  audit_pruner : Logger W → Runnable Q Sel W
  api_server : (addr : String) → Server Q Sel W → Runnable Q Sel W

-- The calls of controller-runtime and of the AWS SDK, and the constructors of the packages, which
-- take the manager's client. `checker` is `ha.New`, `new_scheduler` is `backup.New` with a client
-- of the object store, and `with_executor` sets the field `Exec`. `U` is the world that what the
-- manager runs acts on, which may be `W`, the world of the start.
pub record Runtime (Q Sel Aws Exec U W : Type 0) : Type 0 where
  pub new_manager : ManagerOptions → Action W Unit
  pub client : ApiClient Q Sel U
  pub set_up_cluster_sets : Action W Unit
  pub set_up_clusters : (backup_schedule : Option (Services Q U)) → Action W Unit
  pub register_webhook : Action W Unit
  pub checker : Checker Q U
  pub load_aws_config : (region : String) → Action W Aws
  pub new_scheduler : Aws → S3Options → Services Q U
  pub new_executor : Action W Exec
  pub with_executor : Exec → Services Q U → Services Q U
  pub audit_driver : Driver U W
  pub add : Runnable Q Sel U → Action W Unit
  pub add_check : (name : String) → Action W Unit
  pub start : Action W Unit

module _ {Q Sel Aws Exec U W : Type 0} (rt : Runtime Q Sel Aws Exec U W) (f : Flags) where
  unfoldable pub start_ha : Action W Unit
  start_ha =
      if f.enable_ha
      then wrapping "Failed to add HA checker" (rt.add (ha_checker rt.checker))
      else pure tt

  abbrev pub add_scheduler : Services Q U → Action W (Option (Services Q U))
  add_scheduler scheduler =
      wrapping "Failed to add backup scheduler" (rt.add (backup_scheduler scheduler)) >>= λ _.
      pure (some scheduler)

  -- The result is the reconciler's `BackupSchedule`.
  unfoldable pub start_backup : Action W (Option (Services Q U))
  start_backup =
      if f.enable_backup
      then (do
        aws ← wrapping "Failed to load AWS config" (rt.load_aws_config f.s3_region)
        execer ← wrapping "Failed to build pod exec'er" rt.new_executor
        add_scheduler (rt.with_executor execer (rt.new_scheduler aws (s3_options f.s3_endpoint))))
      else pure none

  unfoldable pub start_webhook : Action W Unit
  start_webhook =
      if f.enable_webhook
      then wrapping "Failed to register validating webhook" rt.register_webhook
      else pure tt

  abbrev pub add_pruner : Logger U → Action W (Option (Logger U))
  add_pruner l =
      wrapping "Failed to add audit pruner" (rt.add (audit_pruner l)) >>= λ _. pure (some l)

  unfoldable pub start_audit : Action W (Option (Logger U))
  start_audit =
      if not (f.audit_dsn == "")
      then (do
        opened ← wrapping "Failed to open audit log" (open_log rt.audit_driver f.audit_dsn)
        add_pruner (record opened { retention_days = f.audit_retention_days }))
      else pure none

  -- The field `Backup` is not set.
  abbrev pub new_server : Option (Logger U) → Server Q Sel U
  new_server audit = record {
    client = rt.client;
    namespace = f.api_namespace;
    audit = audit;
    backup = none;
    tls_cert_dir = f.api_tls_cert_dir;
  }

  unfoldable pub start_api : Option (Logger U) → Action W Unit
  start_api audit =
      if f.enable_api
      then wrapping "Failed to add REST API server"
          (rt.add (api_server f.api_addr (new_server audit)))
      else pure tt

  unfoldable pub run_manager : Action W Unit
  run_manager = do
    wrapping "Failed to set up health check" (rt.add_check "healthz")
    wrapping "Failed to set up ready check" (rt.add_check "readyz")
    wrapping "Failed to run manager" rt.start

  -- An error is logged with the text that is put before it here, and ends the program.
  unfoldable pub start_up : Action W Unit
  unfolding manager_options start_ha start_backup start_webhook start_audit start_api run_manager
  start_up = do
    wrapping "Failed to start manager" (rt.new_manager (manager_options f))
    wrapping "Failed to create controller" rt.set_up_cluster_sets
    start_ha
    backup_schedule ← start_backup
    wrapping "Failed to create controller" (rt.set_up_clusters backup_schedule)
    start_webhook
    audit ← start_audit
    start_api audit
    run_manager

-- The exit status.
abbrev pub exit_status : Result Unit → ℕ
exit_status (ok a) = 0
exit_status (err e) = 1
exit_status panic = 2

module _ {Q Sel Aws Exec U W : Type 0} (rt : Runtime Q Sel Aws Exec U W) where
  unfoldable pub main : Flags → W → ℕ × W
  unfolding start_up
  main f w = let (r, w') = start_up rt f w in (exit_status r, w')
