-- ===== src/Webhook/Admissible.antt =====
-- When the admission webhook lets a cluster pass.
use mathlib.Core.List.{append-eq-nil_iff}
use tsdb_operator.Base.{
  ℕ, ◌+◌, Option, none, some, List, [], ◌∷◌, true, ◌==◌, eq_iff, ◌≡◌, ◌≢◌, ◌↔◌, refl, arith, All,
  Bool-cases, Option-cases, inl, inr, not,
}
use tsdb_operator.Base.Int.{ℤ, pos, ◌≤ℤ◌}
use tsdb_operator.Types.{
  PrometheusCluster, S3BackupSpec, RemoteWriteSpec, AdditionalScrapeConfigs, SecretKeySelector,
}
use tsdb_operator.Webhook.{
  Parsers, replicas_errors, remote_write_errors, backup_errors, scrape_switch, scrape_errors,
  field_errors, validate,
}

module _ (parsers : Parsers) where
  -- A backup section: nothing is asked of one that is off.
  pub record IsBackup (b : S3BackupSpec) : Type 0 where
    pub bucket : b.enabled ≡ true → b.bucket ≢ ""
    pub schedule : b.enabled ≡ true → b.schedule ≢ "" → parsers.cron_error b.schedule ≡ none

  -- The scrape configuration is written in the resource, or read from a key of a secret.
  pub data IsScrapeSource (asc : AdditionalScrapeConfigs) : Type 0 where
    from_inline :
        asc.inline ≢ ""
        → asc.secret_ref ≡ none
        → parsers.scrape_list_error asc.inline ≡ none
        → IsScrapeSource asc
    from_secret :
        (ref : SecretKeySelector)
        → asc.inline ≡ ""
        → asc.secret_ref ≡ some ref
        → ref.name ≢ ""
        → ref.key ≢ ""
        → IsScrapeSource asc

  abbrev pub IsOptionalSource : Option AdditionalScrapeConfigs → Type 0
  IsOptionalSource none = Unit
  IsOptionalSource (some asc) = IsScrapeSource asc

  pub record IsAdmissible {Q : Type 0} (pc : PrometheusCluster Q) : Type 0 where
    pub replicas : pos 1 ≤ℤ pc.spec.replicas
    pub backup : IsBackup pc.spec.backup
    pub remote_write : All (λ rw. rw.url ≢ "") pc.spec.remote_write
    pub scrape : IsOptionalSource pc.spec.additional_scrape_configs

replicas_errors_iff : (r : ℤ) → (replicas_errors r ≡ []) ↔ (pos 1 ≤ℤ r)
unfolding replicas_errors
replicas_errors_iff r = ground arith

remote_write_errors_iff :
    (i : ℕ) (rws : List RemoteWriteSpec)
    → (remote_write_errors i rws ≡ []) ↔ All (λ rw. rw.url ≢ "") rws
unfolding remote_write_errors
remote_write_errors_iff i [] = (λ _. tt, λ _. refl)
remote_write_errors_iff i (rw ∷ rws) =
    ground (arith, eq_iff rw.url "", remote_write_errors_iff (i + 1) rws)

module _ (parsers : Parsers) where
  backup_errors_iff : (b : S3BackupSpec) → (backup_errors parsers b ≡ []) ↔ IsBackup parsers b
  unfolding backup_errors
  backup_errors_iff b = (
    λ e. record {
      bucket = ground (arith, eq_iff b.bucket "");
      schedule = ground (arith, eq_iff b.schedule "");
    },
    λ h. ground (arith, eq_iff b.bucket "", eq_iff b.schedule "", h.bucket, h.schedule),
  )

  switch_sound :
      (asc : AdditionalScrapeConfigs)
      → scrape_switch parsers (not (asc.inline == "")) asc.inline asc.secret_ref ≡ []
      → IsScrapeSource parsers asc
  unfolding scrape_switch
  switch_sound asc e = elim (Bool-cases (asc.inline == "")) [
    | inl blank ↦ elim (Option-cases asc.secret_ref) [
      | inl missing ↦ absurd (ground arith)
      | inr (ref, found) ↦
          from_secret ref ((eq_iff _ _).0 blank) found (ground (arith, eq_iff ref.name ""))
            (ground (arith, eq_iff ref.key ""))
    ]
    | inr given ↦ from_inline (ground (arith, eq_iff asc.inline "")) (ground arith) (ground arith)
  ]

  switch_complete :
      (asc : AdditionalScrapeConfigs)
      → IsScrapeSource parsers asc
      → scrape_switch parsers (not (asc.inline == "")) asc.inline asc.secret_ref ≡ []
  unfolding scrape_switch
  switch_complete asc (from_inline given missing parsed) = ground (arith, eq_iff asc.inline "")
  switch_complete asc (from_secret ref blank found named keyed) =
      ground (arith, eq_iff asc.inline "", eq_iff ref.name "", eq_iff ref.key "")

  scrape_errors_iff :
      (asc : Option AdditionalScrapeConfigs)
      → (scrape_errors parsers asc ≡ []) ↔ IsOptionalSource parsers asc
  unfolding scrape_errors
  scrape_errors_iff none = (λ _. tt, λ _. refl)
  scrape_errors_iff (some asc) = (λ e. switch_sound asc e, λ h. switch_complete asc h)

  field_errors_iff :
      {Q : Type 0} (pc : PrometheusCluster Q)
      → (field_errors parsers pc ≡ []) ↔ IsAdmissible parsers pc
  unfolding field_errors
  field_errors_iff pc = (
    λ e.
        let (e', no_scrape) = append-eq-nil_iff.0 e in
        let (e'', no_write) = append-eq-nil_iff.0 e' in
        let (no_replicas, no_backup) = append-eq-nil_iff.0 e'' in
        record {
          replicas = (replicas_errors_iff _).0 no_replicas;
          backup = (backup_errors_iff _).0 no_backup;
          remote_write = (remote_write_errors_iff _ _).0 no_write;
          scrape = (scrape_errors_iff _).0 no_scrape;
        },
    λ h. rw (
      (replicas_errors_iff _).1 h.replicas,
      (backup_errors_iff _).1 h.backup,
      (remote_write_errors_iff 0 _).1 h.remote_write,
      (scrape_errors_iff _).1 h.scrape,
    ),
  )

  -- `validate` accepts a cluster exactly when it has at least one replica, an enabled backup has a
  -- bucket and a schedule that is empty or parses, every remote-write entry has a URL, and the
  -- additional scrape configuration, if there is one, is either an inline list that parses or a
  -- secret's name and key, and not both.
  pub validate_iff :
      {Q : Type 0} (pc : PrometheusCluster Q)
      → (validate parsers pc ≡ none) ↔ IsAdmissible parsers pc
  unfolding validate
  validate_iff pc =
      (λ e. (field_errors_iff pc).0 (ground arith), λ h. rw ((field_errors_iff pc).1 h, validate))
