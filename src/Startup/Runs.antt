-- ===== src/Startup/Runs.antt =====
-- What a start that succeeds runs.
use tsdb_operator.Base.{
  String, Option, none, List, [], ◌∷◌, map, Bool, true, false, not, if◌then◌else◌, ◌==◌, ◌≡◌, ap,
  ◌∙◌, ok, Action, wrapping,
}
use tsdb_operator.Base.Hoare.{
  Yields, Keeps-Yields, bind-Yields, wrapping-Yields, pure-Yields, if-Yields,
}
use tsdb_operator.Audit.{Logger, open_log}
use tsdb_operator.Startup.{
  Flags, Runnable, ha_checker, backup_scheduler, audit_pruner, api_server, Runtime, start_ha,
  start_backup, start_webhook, start_audit, new_server, start_api, run_manager, start_up,
  manager_options, s3_options,
}
use tsdb_operator.Startup.Laws.{RuntimeLaws, open_log-Keeps}

pub data Kind : Type 0 where
  checks backups pruning api : Kind

abbrev pub kind_of : {Q Sel W : Type 0} → Runnable Q Sel W → Kind
kind_of (ha_checker h) = checks
kind_of (backup_scheduler b) = backups
kind_of (audit_pruner l) = pruning
kind_of (api_server addr s) = api

abbrev pub when : Bool → Kind → List Kind → List Kind
when b k ks = if b then k ∷ ks else ks

-- What the flags ask for, the last one added first.
abbrev pub wanted : Flags → List Kind
wanted f = when f.enable_api api (
    when (not (f.audit_dsn == "")) pruning
      (when f.enable_backup backups (when f.enable_ha checks [])))

module _ {Q Sel Aws Exec U W : Type 0} (rt : Runtime Q Sel Aws Exec U W)
    (runs : W → List (Runnable Q Sel U)) (laws : RuntimeLaws rt runs) where
  abbrev Runs : List Kind → W → Type 0
  Runs ks w = map kind_of (runs w) ≡ ks

  leaves :
      {A : Type 0} (ks : List Kind) (prefix : String) (m : Action W A)
      → ((w : W) → runs (m w).1 ≡ runs w)
      → Yields (Runs ks) (wrapping prefix m) (λ _. Runs ks)
  leaves ks prefix m same =
      wrapping-Yields (Runs ks) prefix m (λ _. Runs ks)
        (Keeps-Yields (Runs ks) m (λ w h. ap (map kind_of) (same w) ∙ h))

  adds :
      (ks : List Kind) (prefix : String) (r : Runnable Q Sel U)
      → Yields (Runs ks) (wrapping prefix (rt.add r)) (λ _. Runs (kind_of r ∷ ks))
  adds ks prefix r =
      wrapping-Yields (Runs ks) prefix (rt.add r) (λ _. Runs (kind_of r ∷ ks))
        (λ w h u w' q. ap (map kind_of) (laws.adds r w w' q) ∙ ap (λ x. kind_of r ∷ x) h)

  -- A part that a flag turns on.
  optional :
      {A : Type 0} (b : Bool) (k : Kind) (ks : List Kind) (m n : Action W A)
      → Yields (Runs ks) m (λ _. Runs (k ∷ ks))
      → Yields (Runs ks) n (λ _. Runs ks)
      → Yields (Runs ks) (if b then m else n) (λ _. Runs (when b k ks))
  optional true k ks m n h g = h
  optional false k ks m n h g = g

  module _ (f : Flags) where
    start_ha-Runs :
        (ks : List Kind) → Yields (Runs ks) (start_ha rt f) (λ _. Runs (when f.enable_ha checks ks))
    unfolding start_ha
    start_ha-Runs ks =
        optional f.enable_ha checks ks _ _ (adds ks _ (ha_checker rt.checker))
          (pure-Yields _ tt _ (λ w h. h))

    start_backup-Runs :
        (ks : List Kind)
        → Yields (Runs ks) (start_backup rt f) (λ _. Runs (when f.enable_backup backups ks))
    unfolding start_backup
    start_backup-Runs ks =
        optional f.enable_backup backups ks _ _
          (bind-Yields (Runs ks) _ (λ _. Runs ks) _ _
            (leaves ks _ (rt.load_aws_config f.s3_region) (laws.load_aws_config f.s3_region))
            (λ aws.
              bind-Yields (Runs ks) _ (λ _. Runs ks) _ _
                (leaves ks _ rt.new_executor laws.new_executor)
                (λ execer.
                  bind-Yields (Runs ks) _ (λ _. Runs (backups ∷ ks)) _ _
                    (adds ks _ (
                      backup_scheduler (
                        rt.with_executor execer (rt.new_scheduler aws (s3_options f.s3_endpoint)))))
                    (λ _. pure-Yields _ _ _ (λ w h. h)))))
          (pure-Yields _ none _ (λ w h. h))

    start_audit-Runs :
        (ks : List Kind)
        → Yields
            (Runs ks)
            (start_audit rt f)
            (λ _. Runs (when (not (f.audit_dsn == "")) pruning ks))
    unfolding start_audit
    start_audit-Runs ks =
        optional (not (f.audit_dsn == "")) pruning ks _ _
          (bind-Yields (Runs ks) _ (λ _. Runs ks) _ _
            (wrapping-Yields (Runs ks) _ (open_log rt.audit_driver f.audit_dsn) (λ _. Runs ks)
              (Keeps-Yields (Runs ks) (open_log rt.audit_driver f.audit_dsn)
                (open_log-Keeps rt runs (λ rs. map kind_of rs ≡ ks) laws f.audit_dsn)))
            (λ opened.
              bind-Yields (Runs ks) _ (λ _. Runs (pruning ∷ ks)) _ _
                (adds ks _
                  (audit_pruner (record opened { retention_days = f.audit_retention_days })))
                (λ _. pure-Yields _ _ _ (λ w h. h))))
          (pure-Yields _ none _ (λ w h. h))

    start_api-Runs :
        (ks : List Kind) (audit : Option (Logger U))
        → Yields (Runs ks) (start_api rt f audit) (λ _. Runs (when f.enable_api api ks))
    unfolding start_api
    start_api-Runs ks audit =
        optional f.enable_api api ks _ _ (adds ks _ (api_server f.api_addr (new_server rt f audit)))
          (pure-Yields _ tt _ (λ w h. h))

    start_webhook-Runs : (ks : List Kind) → Yields (Runs ks) (start_webhook rt f) (λ _. Runs ks)
    unfolding start_webhook
    start_webhook-Runs ks =
        if-Yields (Runs ks) f.enable_webhook _ _ _
          (λ on. leaves ks _ rt.register_webhook laws.register_webhook)
          (λ off. pure-Yields _ tt _ (λ w h. h))

    run_manager-Runs : (ks : List Kind) → Yields (Runs ks) (run_manager rt f) (λ _. Runs ks)
    unfolding run_manager
    run_manager-Runs ks =
        bind-Yields (Runs ks) _ (λ _. Runs ks) _ _
          (leaves ks _ (rt.add_check "healthz") (laws.add_check "healthz"))
          (λ _.
            bind-Yields (Runs ks) _ (λ _. Runs ks) _ _
              (leaves ks _ (rt.add_check "readyz") (laws.add_check "readyz"))
              (λ _. leaves ks _ rt.start laws.start))

    -- A manager without runnables, started by flags, has, when the start succeeds, the ones that
    -- the flags ask for and no other: the health checks, the backup scheduler, the pruner of the
    -- audit log if there is a database, and the REST API.
    pub start_up-Runs :
        (w w' : W) → runs w ≡ [] → start_up rt f w ≡ (ok tt, w') → map kind_of (runs w') ≡ wanted f
    unfolding start_up
    start_up-Runs w w' empty e =
        let k₁ = when f.enable_ha checks [] in
        let k₂ = when f.enable_backup backups k₁ in
        let k₃ = when (not (f.audit_dsn == "")) pruning k₂ in
        bind-Yields (Runs []) _ (λ _. Runs []) _ (λ _. Runs (wanted f))
          (leaves [] _ (rt.new_manager (manager_options f)) (laws.new_manager (manager_options f)))
          (λ _.
            bind-Yields (Runs []) _ (λ _. Runs []) _ (λ _. Runs (wanted f))
              (leaves [] _ rt.set_up_cluster_sets laws.set_up_cluster_sets)
              (λ _.
                bind-Yields (Runs []) (start_ha rt f) (λ _. Runs k₁) _ (λ _. Runs (wanted f))
                  (start_ha-Runs [])
                  (λ _.
                    bind-Yields (Runs k₁) (start_backup rt f) (λ _. Runs k₂) _
                      (λ _. Runs (wanted f)) (start_backup-Runs k₁)
                      (λ schedule.
                        bind-Yields (Runs k₂) _ (λ _. Runs k₂) _ (λ _. Runs (wanted f))
                          (leaves k₂ _ (rt.set_up_clusters schedule)
                            (laws.set_up_clusters schedule))
                          (λ _.
                            bind-Yields (Runs k₂) (start_webhook rt f) (λ _. Runs k₂) _
                              (λ _. Runs (wanted f)) (start_webhook-Runs k₂)
                              (λ _.
                                bind-Yields (Runs k₂) (start_audit rt f) (λ _. Runs k₃) _
                                  (λ _. Runs (wanted f)) (start_audit-Runs k₂)
                                  (λ audit.
                                    bind-Yields (Runs k₃) (start_api rt f audit)
                                      (λ _. Runs (wanted f)) _ (λ _. Runs (wanted f))
                                      (start_api-Runs k₃ audit)
                                      (λ _. run_manager-Runs (wanted f)))))))))
          w (ap (map kind_of) empty) tt w' e
