-- ===== src/Config.antt =====
-- internal/controller/prometheuscluster_controller.go: the text of prometheus.yml and of the
-- additional scrape file. A `strings.Builder` is the text written so far, so that the writes are
-- joined in order. `table` is the part of `strconv.IsPrint` above code point 0xFF.
pub mod Wrapped
pub mod Lines
pub mod Plain
pub mod Reader
pub mod ReadBack
mod Tests
use tsdb_operator.Base.{
  ℕ, String, Option, none, some, List, [], ◌∷◌, Bool, true, false, ◌==◌, if◌then◌else◌, map,
}
use tsdb_operator.Base.Text.{◌<>◌, line, split_lines, trim_right_newlines, concat, quote}
use tsdb_operator.Types.{
  PrometheusCluster, RemoteWriteSpec, AdditionalScrapeConfigs, LocalObjectReference,
  SecretKeySelector,
}

abbrev pub scrape_config : String
scrape_config =
    "scrape_configs:\n  - job_name: prometheus\n    static_configs:\n      - targets: ['localhost:9090']\n"

abbrev pub additional_scrape_file : String
additional_scrape_file = "additional-scrape-configs.yml"

abbrev pub extra_secret_mount : String
extra_secret_mount = "/etc/prometheus/extra-secret"

abbrev secret_path : Option SecretKeySelector → String
secret_path none = ""
secret_path (some ref) = extra_secret_mount <> "/" <> ref.key

unfoldable pub scrape_path : Option AdditionalScrapeConfigs → String
scrape_path none = ""
scrape_path (some asc) =
    if asc.inline == ""
    then secret_path asc.secret_ref
    else "/etc/prometheus/" <> additional_scrape_file

unfoldable pub additional_scrape_path : {Q : Type 0} → PrometheusCluster Q → String
unfolding scrape_path
additional_scrape_path pc = scrape_path pc.spec.additional_scrape_configs

-- One round of the loop of `wrapScrapeConfigs`.
abbrev pub indented_line : String → String
indented_line line = if line == "" then "\n" else "  " <> line <> "\n"

unfoldable pub wrap_scrape_configs : String → String
wrap_scrape_configs s =
    "scrape_configs:\n" <> concat (map indented_line (split_lines (trim_right_newlines s)))

abbrev pub basic_auth_text : Option LocalObjectReference → String
basic_auth_text none = ""
basic_auth_text (some ref) =
    line "    basic_auth:"
    <> line ("      username_file: /etc/prometheus/secrets/" <> ref.name <> "/username")
    <> line ("      password_file: /etc/prometheus/secrets/" <> ref.name <> "/password")

abbrev pub bearer_token_text : Option LocalObjectReference → String
bearer_token_text none = ""
bearer_token_text (some ref) =
    line ("    bearer_token_file: /etc/prometheus/secrets/" <> ref.name <> "/token")

unfoldable pub scrape_config_files : (path : String) → String
scrape_config_files path =
    if path == "" then "" else line "scrape_config_files:" <> line ("  - " <> path)

module _ (table : ℕ → Bool) where
  abbrev pub name_text : String → String
  name_text name = if name == "" then "" else line ("    name: " <> quote table name)

  -- One round of the loop over `pc.Spec.RemoteWrite`.
  unfoldable pub remote_write_entry : RemoteWriteSpec → String
  remote_write_entry rw =
      line ("  - url: " <> quote table rw.url)
      <> name_text rw.name
      <> basic_auth_text rw.basic_auth_secret_ref
      <> bearer_token_text rw.bearer_token_secret_ref

  unfoldable pub remote_write_section : List RemoteWriteSpec → String
  unfolding remote_write_entry
  remote_write_section [] = ""
  remote_write_section (rw ∷ rws) =
      line "remote_write:" <> concat (map remote_write_entry (rw ∷ rws))

  unfoldable pub external_labels : (thanos : Bool) → (name : String) → String
  external_labels false name = ""
  external_labels true name =
      line "  external_labels:"
      <> line ("    cluster: " <> quote table name)
      <> line "    replica: ${POD_NAME:-unknown}"

  module _ {Q : Type 0} where
    unfoldable pub render_config : PrometheusCluster Q → String
    unfolding remote_write_section external_labels scrape_config_files additional_scrape_path
    render_config pc =
        "global:\n  scrape_interval: 30s\n  evaluation_interval: 30s\n"
        <> external_labels pc.spec.thanos.enabled pc.meta.name
        <> scrape_config
        <> scrape_config_files (additional_scrape_path pc)
        <> remote_write_section pc.spec.remote_write
