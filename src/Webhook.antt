-- ===== src/Webhook.antt =====
-- internal/webhook/prometheuscluster_webhook.go: the rules of the validating admission webhook.
pub mod Admissible
pub mod Faults
pub mod Sections
pub mod Reported
mod Tests
use tsdb_operator.Base.{
  ℕ, ◌+◌, String, Option, none, some, List, [], ◌∷◌, ◌++◌, Bool, true, false, ◌==◌, is_some, not,
  ◌&&◌, if◌then◌else◌,
}
use Prim.Native.String
use tsdb_operator.Base.Int.{ℤ, pos, ltb_ℤ}
use tsdb_operator.Types.{
  PrometheusCluster, S3BackupSpec, RemoteWriteSpec, AdditionalScrapeConfigs, SecretKeySelector,
}

-- A step of k8s.io/apimachinery field.Path.
pub data PathStep : Type 0 where
  child : String → PathStep
  index : ℕ → PathStep

pub data BadValue : Type 0 where
  number : ℤ → BadValue
  text : String → BadValue

pub data FieldError : Type 0 where
  invalid : (path : List PathStep) (value : BadValue) (detail : String) → FieldError
  required : (path : List PathStep) (detail : String) → FieldError

-- The error of apierrors.NewInvalid.
pub record Invalid : Type 0 where
  pub name : String
  pub errors : List FieldError

-- The parsers of two libraries, each as the error that it gives on a text, or none.
pub record Parsers : Type 0 where
  pub cron_error : String → Option String
  pub scrape_list_error : String → Option String

abbrev spec_path : List PathStep
spec_path = child "spec" ∷ []

abbrev backup_path : List PathStep
backup_path = spec_path ++ child "backup" ∷ []

abbrev scrape_path : List PathStep
scrape_path = spec_path ++ child "additionalScrapeConfigs" ∷ []

abbrev pub when : Bool → List FieldError → List FieldError
when b errs = if b then errs else []

unfoldable pub replicas_errors : ℤ → List FieldError
replicas_errors replicas =
    when (ltb_ℤ replicas (pos 1))
      (invalid (spec_path ++ child "replicas" ∷ []) (number replicas) "must be >= 1" ∷ [])

abbrev url_error : ℕ → FieldError
url_error i =
    required (spec_path ++ child "remoteWrite" ∷ index i ∷ child "url" ∷ []) "url is required"

-- The loop over `pc.Spec.RemoteWrite`, from index `i`.
unfoldable pub remote_write_errors : ℕ → List RemoteWriteSpec → List FieldError
remote_write_errors i [] = []
remote_write_errors i (rw ∷ rws) =
    when (rw.url == "") (url_error i ∷ []) ++ remote_write_errors (i + 1) rws

abbrev secret_ref_errors : SecretKeySelector → List FieldError
secret_ref_errors ref =
    when (ref.name == "") (
      required (scrape_path ++ child "secretRef" ∷ child "name" ∷ []) "secretRef.name is required"
      ∷ [])
    ++ when (ref.key == "") (
        required (scrape_path ++ child "secretRef" ∷ child "key" ∷ []) "secretRef.key is required"
        ∷ [])

module _ (parsers : Parsers) where
  unfoldable pub schedule_errors : String → List FieldError
  schedule_errors schedule = if schedule == "" then [] else elim (parsers.cron_error schedule) [
    | none ↦ []
    | some e ↦
        invalid (backup_path ++ child "schedule" ∷ []) (text schedule)
          (String.◌++◌ "not a valid cron expression: " e)
        ∷ []
  ]

  unfoldable pub backup_errors : S3BackupSpec → List FieldError
  unfolding schedule_errors
  backup_errors b = when b.enabled (
      when (b.bucket == "") (
        required (backup_path ++ child "bucket" ∷ []) "bucket is required when backup is enabled"
        ∷ [])
      ++ schedule_errors b.schedule)

  unfoldable pub inline_errors : String → List FieldError
  inline_errors inline = elim (parsers.scrape_list_error inline) [
    | none ↦ []
    | some e ↦
        invalid (scrape_path ++ child "inline" ∷ []) (text "<elided>")
          (String.◌++◌ "must be a YAML list of scrape_config entries: " e)
        ∷ []
  ]

  -- The switch over `hasInline` and `hasSecret`.
  unfoldable pub scrape_switch :
      (has_inline : Bool) → String → Option SecretKeySelector → List FieldError
  unfolding inline_errors
  scrape_switch true inline (some ref) =
      invalid scrape_path (text "<elided>") "inline and secretRef are mutually exclusive" ∷ []
  scrape_switch false inline none =
      required scrape_path "set inline or secretRef when additionalScrapeConfigs is present" ∷ []
  scrape_switch true inline none = inline_errors inline
  scrape_switch false inline (some ref) = secret_ref_errors ref

  unfoldable pub scrape_errors : Option AdditionalScrapeConfigs → List FieldError
  unfolding scrape_switch
  scrape_errors none = []
  scrape_errors (some asc) = scrape_switch (not (asc.inline == "")) asc.inline asc.secret_ref

  module _ {Q : Type 0} where
    unfoldable pub field_errors : PrometheusCluster Q → List FieldError
    field_errors pc =
        replicas_errors pc.spec.replicas
        ++ backup_errors pc.spec.backup
        ++ remote_write_errors 0 pc.spec.remote_write
        ++ scrape_errors pc.spec.additional_scrape_configs

    unfoldable pub validate : PrometheusCluster Q → Option Invalid
    validate pc = elim (field_errors pc) [
      | [] ↦ none
      | e ∷ es ↦ some (record { name = pc.meta.name; errors = e ∷ es })
    ]

    abbrev validate_create : PrometheusCluster Q → Option Invalid
    validate_create pc = validate pc

    abbrev validate_update : (old pc : PrometheusCluster Q) → Option Invalid
    validate_update old pc = validate pc

    abbrev validate_delete : PrometheusCluster Q → Option Invalid
    validate_delete pc = none
