-- ===== src/Webhook/Reported.antt =====
-- Which errors the admission webhook reports, and where.
use tsdb_operator.Base.{
  ◌+◌, String, Option, none, some, List, [], ◌∷◌, true, false, ◌==◌, eq_iff, ◌≡◌, ◌≢◌, ◌↔◌, ◌⊎◌,
  refl, ap, ◌∙◌, arith, Bool-cases, Option-cases, inl, inr, not,
}
use tsdb_operator.Types.{PrometheusCluster, AdditionalScrapeConfigs}
use tsdb_operator.Webhook.{
  Parsers, FieldError, when, url_error, replicas_errors, remote_write_errors, backup_errors,
  inline_errors, scrape_switch, scrape_errors, field_errors, validate, Invalid,
}
use tsdb_operator.Webhook.Faults.{
  Contains, Contains-append, Contains-append₄, Contains-when, IsScrapeFault, both, neither,
  bad_inline, no_secret_name, no_secret_key, IsFault, few_replicas, of_backup, no_url, of_scrape,
}
use tsdb_operator.Webhook.Sections.{
  replicas-reported, remote_write-NoUrl, NoUrl-reported, backup-reported, backup_fault,
}

abbrev pub errors_of : Option Invalid → List FieldError
errors_of none = []
errors_of (some refusal) = refusal.errors

errors_of-list :
    (name : String) (es : List FieldError)
    → errors_of
        (elim es [ [] ↦ none | x ∷ more ↦ some (record { name = name; errors = x ∷ more }) ])
      ≡ es
errors_of-list name [] = refl
errors_of-list name (x ∷ more) = refl

module _ (parsers : Parsers) where
  switch-reported :
      (asc : AdditionalScrapeConfigs) (e : FieldError)
      → Contains e (scrape_switch parsers (not (asc.inline == "")) asc.inline asc.secret_ref)
      → IsScrapeFault parsers asc e
  unfolding scrape_switch inline_errors
  switch-reported asc e h = elim (Bool-cases (asc.inline == "")) [
    | inl blank ↦ elim (Option-cases asc.secret_ref) [
      | inl missing ↦ elim (rw (blank, missing) at h) [
        | inl its ↦ neither ((eq_iff asc.inline "").0 blank) missing its
        | inr more ↦ absurd more
      ]
      | inr (ref, found) ↦
          elim ((Contains-append e (when (ref.name == "") _) (when (ref.key == "") _)).0
            (rw (blank, found) at h)) [
              | inl p ↦
                  let (empty, its) = (Contains-when e _ (ref.name == "")).0 p in
                  no_secret_name ref ((eq_iff asc.inline "").0 blank) found
                    ((eq_iff ref.name "").0 empty) its
              | inr q ↦
                  let (empty, its) = (Contains-when e _ (ref.key == "")).0 q in
                  no_secret_key ref ((eq_iff asc.inline "").0 blank) found
                    ((eq_iff ref.key "").0 empty) its
            ]
    ]
    | inr given ↦ elim (Option-cases asc.secret_ref) [
      | inr (ref, found) ↦ elim (rw (given, found) at h) [
        | inl its ↦ both ref (ground (arith, eq_iff asc.inline "")) found its
        | inr more ↦ absurd more
      ]
      | inl missing ↦ elim (Option-cases (parsers.scrape_list_error asc.inline)) [
        | inl fine ↦ absurd (rw (given, missing, fine, inline_errors) at h)
        | inr (why, bad) ↦ elim (rw (given, missing, bad, inline_errors) at h) [
          | inl its ↦ bad_inline why (ground (arith, eq_iff asc.inline "")) missing bad its
          | inr more ↦ absurd more
        ]
      ]
    ]
  ]

  is_blank : (s : String) → s ≡ "" → (s == "") ≡ true
  is_blank s e = (eq_iff s "").1 e

  is_given : (s : String) → s ≢ "" → (s == "") ≡ false
  is_given s ne = ground (arith, eq_iff s "")

  scrape_fault :
      (asc : AdditionalScrapeConfigs) (e : FieldError)
      → IsScrapeFault parsers asc e
      → Contains e (scrape_switch parsers (not (asc.inline == "")) asc.inline asc.secret_ref)
  unfolding scrape_switch inline_errors
  scrape_fault asc e (both ref given found its) = rw (is_given asc.inline given, found) (inl its)
  scrape_fault asc e (neither blank missing its) = rw (is_blank asc.inline blank, missing) (inl its)
  scrape_fault asc e (bad_inline why given missing bad its) =
      rw (is_given asc.inline given, missing, bad, inline_errors) (inl its)
  scrape_fault asc e (no_secret_name ref blank found empty its) =
      rw (is_blank asc.inline blank, found)
        ((Contains-append e (when (ref.name == "") _) (when (ref.key == "") _)).1
          (inl ((Contains-when e _ (ref.name == "")).1 (is_blank ref.name empty, its))))
  scrape_fault asc e (no_secret_key ref blank found empty its) =
      rw (is_blank asc.inline blank, found)
        ((Contains-append e (when (ref.name == "") _) (when (ref.key == "") _)).1
          (inr ((Contains-when e _ (ref.key == "")).1 (is_blank ref.key empty, its))))

  module _ {Q : Type 0} where
    scrape-reported :
        (pc : PrometheusCluster Q) (e : FieldError)
        → Contains e (scrape_errors parsers pc.spec.additional_scrape_configs)
        → IsFault parsers pc e
    unfolding scrape_errors
    scrape-reported pc e h = elim (Option-cases pc.spec.additional_scrape_configs) [
      | inl missing ↦ absurd (rw missing at h)
      | inr (asc, found) ↦ of_scrape asc found (switch-reported asc e (rw found at h))
    ]

    abbrev IsReported : PrometheusCluster Q → FieldError → Type 0
    IsReported pc e =
        (Contains e (replicas_errors pc.spec.replicas)
          ⊎ Contains e (backup_errors parsers pc.spec.backup))
        ⊎ (Contains e (remote_write_errors 0 pc.spec.remote_write)
            ⊎ Contains e (scrape_errors parsers pc.spec.additional_scrape_configs))

    IsFault-IsReported :
        (pc : PrometheusCluster Q) (e : FieldError) → IsFault parsers pc e → IsReported pc e
    unfolding scrape_errors
    IsFault-IsReported pc e (few_replicas few its) =
        inl (inl ((replicas-reported pc.spec.replicas e).1 (few, its)))
    IsFault-IsReported pc e (of_backup on fault) =
        inl (inr (backup_fault parsers pc.spec.backup e on fault))
    IsFault-IsReported pc e (no_url i rw there blank its) =
        let place : 0 + i ≡ i = omega arith in
        inr (
          inl (NoUrl-reported pc.spec.remote_write 0 i rw e there blank (ap url_error place ∙ its)))
    IsFault-IsReported pc e (of_scrape asc found fault) =
        inr (inr (rw found (scrape_fault asc e fault)))

    reported-IsFault :
        (pc : PrometheusCluster Q) (e : FieldError) → IsReported pc e → IsFault parsers pc e
    reported-IsFault pc e (inl (inl few)) =
        let (below, its) = (replicas-reported pc.spec.replicas e).0 few in few_replicas below its
    reported-IsFault pc e (inl (inr backup)) =
        let (on, fault) = backup-reported parsers pc.spec.backup e backup in of_backup on fault
    reported-IsFault pc e (inr (inl writes)) =
        let (k, rw, there, blank, its) = remote_write-NoUrl 0 pc.spec.remote_write e writes in
        let place : k ≡ 0 + k = omega arith in no_url k rw there blank (ap url_error place ∙ its)
    reported-IsFault pc e (inr (inr scrape)) = scrape-reported pc e scrape

    field_errors-IsFault :
        (pc : PrometheusCluster Q) (e : FieldError)
        → Contains e (field_errors parsers pc) ↔ IsFault parsers pc e
    unfolding field_errors
    field_errors-IsFault pc e =
        let parts =
          Contains-append₄ e (replicas_errors pc.spec.replicas)
            (backup_errors parsers pc.spec.backup) (remote_write_errors 0 pc.spec.remote_write)
            (scrape_errors parsers pc.spec.additional_scrape_configs) in
        (λ h. reported-IsFault pc e (parts.0 h), λ fault. parts.1 (IsFault-IsReported pc e fault))

    errors-validate :
        (pc : PrometheusCluster Q) → errors_of (validate parsers pc) ≡ field_errors parsers pc
    unfolding validate
    errors-validate pc = errors_of-list pc.meta.name (field_errors parsers pc)

    -- The webhook reports exactly what is wrong with a cluster, each fault under its path: too few
    -- replicas, a missing bucket or a schedule that does not parse if backup is enabled, each
    -- remote-write entry without a URL under its index, and additional scrape configurations that
    -- have both sources or none, an inline text that does not parse, or a secret without name or key.
    pub validate-IsFault :
        (pc : PrometheusCluster Q) (e : FieldError)
        → Contains e (errors_of (validate parsers pc)) ↔ IsFault parsers pc e
    validate-IsFault pc e = rw (errors-validate pc) (field_errors-IsFault pc e)
