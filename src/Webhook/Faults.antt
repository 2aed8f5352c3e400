-- ===== src/Webhook/Faults.antt =====
-- The faults of a cluster, each with the error that tells it.
use tsdb_operator.Base.{
  ℕ, zero, suc, Any, String, Option, none, some, List, [], ◌∷◌, ◌++◌, Bool, true, false, ◌≡◌, ◌≢◌,
  ◌↔◌, ◌⊎◌, refl, inl, inr,
}
use Prim.Native.String
use tsdb_operator.Base.Int.{pos, ◌≤ℤ◌}
use tsdb_operator.Types.{
  PrometheusCluster, S3BackupSpec, RemoteWriteSpec, AdditionalScrapeConfigs, SecretKeySelector,
}
use tsdb_operator.Webhook.{Parsers, child, index, number, text, FieldError, invalid, required, when}

-- `s[i]`, if there is one.
abbrev pub nth : {A : Type 0} → ℕ → List A → Option A
nth i [] = none
nth zero (x ∷ xs) = some x
nth (suc i) (x ∷ xs) = nth i xs

abbrev pub Contains : FieldError → List FieldError → Type 0
Contains e = Any (λ x. x ≡ e)

pub Contains-append :
    (e : FieldError) (xs ys : List FieldError)
    → Contains e (xs ++ ys) ↔ (Contains e xs ⊎ Contains e ys)
Contains-append e [] ys = (inr, λ h. elim h [ inl x ↦ absurd x | inr y ↦ y ])
Contains-append e (x ∷ xs) ys = (
  λ h. elim h [
    | inl p ↦ inl (inl p)
    | inr q ↦ elim ((Contains-append e xs ys).0 q) [ inl r ↦ inl (inr r) | inr r ↦ inr r ]
  ],
  λ h. elim h [
    | inl p ↦ elim p [ inl q ↦ inl q | inr q ↦ inr ((Contains-append e xs ys).1 (inl q)) ]
    | inr r ↦ inr ((Contains-append e xs ys).1 (inr r))
  ],
)

pub Contains-append₄ :
    (e : FieldError) (ws xs ys zs : List FieldError)
    → Contains e (ws ++ xs ++ ys ++ zs)
      ↔ ((Contains e ws ⊎ Contains e xs) ⊎ (Contains e ys ⊎ Contains e zs))
Contains-append₄ e ws xs ys zs = (
  λ h. elim ((Contains-append e (ws ++ xs ++ ys) zs).0 h) [
    | inr z ↦ inr (inr z)
    | inl h' ↦ elim ((Contains-append e (ws ++ xs) ys).0 h') [
      | inr y ↦ inr (inl y)
      | inl h'' ↦ inl ((Contains-append e ws xs).0 h'')
    ]
  ],
  λ h. elim h [
    | inl first ↦
        (Contains-append e (ws ++ xs ++ ys) zs).1
          (inl ((Contains-append e (ws ++ xs) ys).1 (inl ((Contains-append e ws xs).1 first))))
    | inr (inl y) ↦
        (Contains-append e (ws ++ xs ++ ys) zs).1
          (inl ((Contains-append e (ws ++ xs) ys).1 (inr y)))
    | inr (inr z) ↦ (Contains-append e (ws ++ xs ++ ys) zs).1 (inr z)
  ],
)

-- One error under a condition.
pub Contains-when :
    (e x : FieldError) (b : Bool) → Contains e (when b (x ∷ [])) ↔ ((b ≡ true) × (x ≡ e))
Contains-when e x true = (λ h. elim h [ inl p ↦ (refl, p) | inr n ↦ absurd n ], λ h. inl h.1)
Contains-when e x false = (λ h. absurd h, λ h. absurd cc)

module _ (parsers : Parsers) where
  -- What is wrong with a backup section, and how it is reported.
  pub data IsBackupFault (b : S3BackupSpec) (e : FieldError) : Type 0 where
    no_bucket :
        b.bucket ≡ ""
        → required
            (child "spec" ∷ child "backup" ∷ child "bucket" ∷ [])
            "bucket is required when backup is enabled"
          ≡ e
        → IsBackupFault b e
    bad_schedule :
        (why : String)
        → b.schedule ≢ ""
        → parsers.cron_error b.schedule ≡ some why
        → invalid
            (child "spec" ∷ child "backup" ∷ child "schedule" ∷ [])
            (text b.schedule)
            (String.◌++◌ "not a valid cron expression: " why)
          ≡ e
        → IsBackupFault b e

  -- What is wrong with additional scrape configurations.
  pub data IsScrapeFault (asc : AdditionalScrapeConfigs) (e : FieldError) : Type 0 where
    both :
        (ref : SecretKeySelector)
        → asc.inline ≢ ""
        → asc.secret_ref ≡ some ref
        → invalid
            (child "spec" ∷ child "additionalScrapeConfigs" ∷ [])
            (text "<elided>")
            "inline and secretRef are mutually exclusive"
          ≡ e
        → IsScrapeFault asc e
    neither :
        asc.inline ≡ ""
        → asc.secret_ref ≡ none
        → required
            (child "spec" ∷ child "additionalScrapeConfigs" ∷ [])
            "set inline or secretRef when additionalScrapeConfigs is present"
          ≡ e
        → IsScrapeFault asc e
    bad_inline :
        (why : String)
        → asc.inline ≢ ""
        → asc.secret_ref ≡ none
        → parsers.scrape_list_error asc.inline ≡ some why
        → invalid
            (child "spec" ∷ child "additionalScrapeConfigs" ∷ child "inline" ∷ [])
            (text "<elided>")
            (String.◌++◌ "must be a YAML list of scrape_config entries: " why)
          ≡ e
        → IsScrapeFault asc e
    no_secret_name :
        (ref : SecretKeySelector)
        → asc.inline ≡ ""
        → asc.secret_ref ≡ some ref
        → ref.name ≡ ""
        → required
            (child "spec" ∷ child "additionalScrapeConfigs" ∷ child "secretRef" ∷ child "name" ∷ [])
            "secretRef.name is required"
          ≡ e
        → IsScrapeFault asc e
    no_secret_key :
        (ref : SecretKeySelector)
        → asc.inline ≡ ""
        → asc.secret_ref ≡ some ref
        → ref.key ≡ ""
        → required
            (child "spec" ∷ child "additionalScrapeConfigs" ∷ child "secretRef" ∷ child "key" ∷ [])
            "secretRef.key is required"
          ≡ e
        → IsScrapeFault asc e

  -- What is wrong with a cluster.
  pub data IsFault {Q : Type 0} (pc : PrometheusCluster Q) (e : FieldError) : Type 0 where
    few_replicas :
        ¬ (pos 1 ≤ℤ pc.spec.replicas)
        → invalid (child "spec" ∷ child "replicas" ∷ []) (number pc.spec.replicas) "must be >= 1"
          ≡ e
        → IsFault pc e
    of_backup : pc.spec.backup.enabled ≡ true → IsBackupFault pc.spec.backup e → IsFault pc e
    no_url :
        (i : ℕ) (rw : RemoteWriteSpec)
        → nth i pc.spec.remote_write ≡ some rw
        → rw.url ≡ ""
        → required
            (child "spec" ∷ child "remoteWrite" ∷ index i ∷ child "url" ∷ [])
            "url is required"
          ≡ e
        → IsFault pc e
    of_scrape :
        (asc : AdditionalScrapeConfigs)
        → pc.spec.additional_scrape_configs ≡ some asc
        → IsScrapeFault asc e
        → IsFault pc e
