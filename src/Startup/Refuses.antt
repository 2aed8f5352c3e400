-- ===== src/Startup/Refuses.antt =====
-- The REST API of a started operator has no backup scheduler.
use tsdb_operator.Base.{
  String, Option, none, List, [], not, ◌==◌, ◌≡◌, refl, ok, Action, wrapping, All, inl, inr,
}
use tsdb_operator.Base.Hoare.{
  Guards, Guards-Keeps, bind-Guards, if-Guards, pure-Guards, wrapping-Guards,
}
use tsdb_operator.Audit.{Logger, open_log}
use tsdb_operator.Api.{Server, Gin, Context, respond, error_text, trigger_backup_handler}
use tsdb_operator.Startup.{
  Flags, Runnable, ha_checker, backup_scheduler, audit_pruner, api_server, Runtime, start_ha,
  start_backup, start_webhook, start_audit, new_server, start_api, run_manager, start_up,
  manager_options, main,
}
use tsdb_operator.Startup.Laws.{RuntimeLaws, open_log-Keeps}

module _ {Q Sel W : Type 0} where
  -- A POST of a backup is answered with 503, and nothing else happens.
  abbrev pub RefusesBackups : Server Q Sel W → Type 0
  RefusesBackups s =
      (g : Gin Q Sel) (c : Context) (w : W)
      → trigger_backup_handler g s c w
        ≡ (ok (respond 503 (error_text "backup scheduler not configured")), w)

  abbrev pub IsRefusing : Runnable Q Sel W → Type 0
  IsRefusing (api_server addr s) = RefusesBackups s
  IsRefusing (ha_checker h) = Unit
  IsRefusing (backup_scheduler b) = Unit
  IsRefusing (audit_pruner l) = Unit

module _ {Q Sel Aws Exec U W : Type 0} (rt : Runtime Q Sel Aws Exec U W)
    (runs : W → List (Runnable Q Sel U)) (laws : RuntimeLaws rt runs) (f : Flags) where
  abbrev Refusing : W → Type 0
  Refusing w = All IsRefusing (runs w)

  leaves :
      {A : Type 0} (prefix : String) (m : Action W A)
      → ((w : W) → runs (m w).1 ≡ runs w)
      → Guards Refusing (wrapping prefix m)
  leaves prefix m same = wrapping-Guards Refusing prefix m (λ w h. rw (same w) h)

  adds :
      (prefix : String) (r : Runnable Q Sel U)
      → IsRefusing r
      → Guards Refusing (wrapping prefix (rt.add r))
  adds prefix r refusing = wrapping-Guards Refusing prefix (rt.add r) (λ w h.
      elim (laws.adds_at_most r w) [ inl same ↦ rw same h | inr more ↦ rw more (refusing, h) ])

  new_server-RefusesBackups : (audit : Option (Logger U)) → RefusesBackups (new_server rt f audit)
  unfolding trigger_backup_handler
  new_server-RefusesBackups audit g c w = refl

  start_ha-Refusing : Guards Refusing (start_ha rt f)
  unfolding start_ha
  start_ha-Refusing =
      if-Guards Refusing f.enable_ha _ _ (adds _ (ha_checker rt.checker) tt)
        (pure-Guards Refusing tt)

  start_backup-Refusing : Guards Refusing (start_backup rt f)
  unfolding start_backup
  start_backup-Refusing =
      if-Guards Refusing f.enable_backup _ _
        (bind-Guards Refusing _ _
          (leaves _ (rt.load_aws_config f.s3_region) (laws.load_aws_config f.s3_region))
          (λ aws. bind-Guards Refusing _ _ (leaves _ rt.new_executor laws.new_executor) (λ execer.
            bind-Guards Refusing _ _ (adds _ (backup_scheduler _) tt)
              (λ _. pure-Guards Refusing _))))
        (pure-Guards Refusing none)

  start_audit-Refusing : Guards Refusing (start_audit rt f)
  unfolding start_audit
  start_audit-Refusing =
      if-Guards Refusing (not (f.audit_dsn == "")) _ _
        (bind-Guards Refusing _ _
          (wrapping-Guards Refusing _ (open_log rt.audit_driver f.audit_dsn)
            (open_log-Keeps rt runs (All IsRefusing) laws f.audit_dsn))
          (λ opened.
            bind-Guards Refusing _ _ (adds _ (audit_pruner _) tt) (λ _. pure-Guards Refusing _)))
        (pure-Guards Refusing none)

  start_api-Refusing : (audit : Option (Logger U)) → Guards Refusing (start_api rt f audit)
  unfolding start_api
  start_api-Refusing audit =
      if-Guards Refusing f.enable_api _ _
        (adds _ (api_server f.api_addr (new_server rt f audit)) (new_server-RefusesBackups audit))
        (pure-Guards Refusing tt)

  start_webhook-Refusing : Guards Refusing (start_webhook rt f)
  unfolding start_webhook
  start_webhook-Refusing =
      if-Guards Refusing f.enable_webhook _ _ (leaves _ rt.register_webhook laws.register_webhook)
        (pure-Guards Refusing tt)

  run_manager-Refusing : Guards Refusing (run_manager rt f)
  unfolding run_manager
  run_manager-Refusing =
      bind-Guards Refusing _ _ (leaves _ (rt.add_check "healthz") (laws.add_check "healthz")) (λ _.
        bind-Guards Refusing _ _ (leaves _ (rt.add_check "readyz") (laws.add_check "readyz"))
          (λ _. leaves _ rt.start laws.start))

  start_up-Refusing : Guards Refusing (start_up rt f)
  unfolding start_up
  start_up-Refusing =
      bind-Guards Refusing _ _
        (leaves _ (rt.new_manager (manager_options f)) (laws.new_manager (manager_options f)))
        (λ _.
          bind-Guards Refusing _ _ (leaves _ rt.set_up_cluster_sets laws.set_up_cluster_sets) (λ _.
            bind-Guards Refusing _ _ start_ha-Refusing (λ _.
              bind-Guards Refusing _ _ start_backup-Refusing (λ schedule.
                bind-Guards Refusing _ _
                  (leaves _ (rt.set_up_clusters schedule) (laws.set_up_clusters schedule))
                  (λ _. bind-Guards Refusing _ _ start_webhook-Refusing (λ _.
                    bind-Guards Refusing _ _ start_audit-Refusing (λ audit.
                      bind-Guards Refusing _ _ (start_api-Refusing audit)
                        (λ _. run_manager-Refusing))))))))

  -- Whatever the flags, the one to run backups included, and on every outcome of the start: the REST
  -- API that the manager runs answers each POST of a backup with 503, and runs no backup.
  pub main-RefusesBackups : (w : W) → runs w ≡ [] → All IsRefusing (runs (main rt f w).1)
  unfolding main
  main-RefusesBackups w empty =
      Guards-Keeps Refusing (start_up rt f) start_up-Refusing w (rw empty tt)
