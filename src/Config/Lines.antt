-- ===== src/Config/Lines.antt =====
-- The lines of prometheus.yml.
use tsdb_operator.Base.{
  ℕ, String, Option, none, some, List, [], ◌∷◌, ◌++◌, Bool, true, false, ◌==◌, ◌≡◌, refl,
  if◌then◌else◌, map, ap, ◌∙◌, sym, Bool-cases, inl, inr,
}
use text.Mathlib.TextLemmas.{append-nil}
use tsdb_operator.Base.Text.{◌<>◌, line, concat, quote}
use tsdb_operator.Base.Text.Lines.{unlines, unlines-append, unlines-append₃}
use tsdb_operator.Types.{PrometheusCluster, RemoteWriteSpec, LocalObjectReference}
use tsdb_operator.Config.{
  additional_scrape_path, basic_auth_text, bearer_token_text, name_text, remote_write_entry,
  remote_write_section, external_labels, scrape_config_files, render_config,
}

abbrev pub basic_auth_lines : Option LocalObjectReference → List String
basic_auth_lines none = []
basic_auth_lines (some ref) =
    "    basic_auth:"
    ∷ ("      username_file: /etc/prometheus/secrets/" <> ref.name <> "/username")
    ∷ ("      password_file: /etc/prometheus/secrets/" <> ref.name <> "/password")
    ∷ []

abbrev pub bearer_token_lines : Option LocalObjectReference → List String
bearer_token_lines none = []
bearer_token_lines (some ref) =
    ("    bearer_token_file: /etc/prometheus/secrets/" <> ref.name <> "/token") ∷ []

abbrev pub files_lines : String → List String
files_lines path = if path == "" then [] else "scrape_config_files:" ∷ ("  - " <> path) ∷ []

abbrev pub global_lines : List String
global_lines = "global:" ∷ "  scrape_interval: 30s" ∷ "  evaluation_interval: 30s" ∷ []

abbrev pub scrape_lines : List String
scrape_lines =
    "scrape_configs:" ∷ "  - job_name: prometheus" ∷ "    static_configs:"
    ∷ "      - targets: ['localhost:9090']" ∷ []

module _ (table : ℕ → Bool) where
  abbrev pub entry_lines : RemoteWriteSpec → List String
  entry_lines rw =
      ("  - url: " <> quote table rw.url)
      ∷ ((if rw.name == "" then [] else ("    name: " <> quote table rw.name) ∷ [])
          ++ (basic_auth_lines rw.basic_auth_secret_ref
              ++ bearer_token_lines rw.bearer_token_secret_ref))

  abbrev pub all_entries : List RemoteWriteSpec → List String
  all_entries [] = []
  all_entries (rw ∷ rws) = entry_lines rw ++ all_entries rws

  abbrev pub remote_write_lines : List RemoteWriteSpec → List String
  remote_write_lines [] = []
  remote_write_lines (rw ∷ rws) = "remote_write:" ∷ all_entries (rw ∷ rws)

  abbrev pub labels_lines : Bool → String → List String
  labels_lines false name = []
  labels_lines true name =
      "  external_labels:"
      ∷ ("    cluster: " <> quote table name)
      ∷ "    replica: ${POD_NAME:-unknown}"
      ∷ []

  -- The whole file: the global block with the labels of Thanos, the scrape block, the files of
  -- additional scrape entries, and an entry for each remote-write target.
  abbrev pub config_lines : {Q : Type 0} → PrometheusCluster Q → List String
  config_lines pc =
      global_lines
      ++ (labels_lines pc.spec.thanos.enabled pc.meta.name
          ++ (scrape_lines
              ++ (files_lines (additional_scrape_path pc)
                  ++ remote_write_lines pc.spec.remote_write)))

basic_auth-unlines :
    (r : Option LocalObjectReference) → basic_auth_text r ≡ unlines (basic_auth_lines r)
unfolding unlines
basic_auth-unlines none = refl
basic_auth-unlines (some ref) = simp append-nil

bearer_token-unlines :
    (r : Option LocalObjectReference) → bearer_token_text r ≡ unlines (bearer_token_lines r)
unfolding unlines
bearer_token-unlines none = refl
bearer_token-unlines (some ref) = simp append-nil

files-unlines : (path : String) → scrape_config_files path ≡ unlines (files_lines path)
unfolding scrape_config_files unlines
files-unlines path = elim (Bool-cases (path == "")) [
  | inl e ↦ rw e
  | inr e ↦ rw e (simp append-nil)
]

module _ (table : ℕ → Bool) where
  labels-unlines :
      (b : Bool) (name : String)
      → external_labels table b name ≡ unlines (labels_lines table b name)
  unfolding external_labels unlines
  labels-unlines false name = refl
  labels-unlines true name = simp append-nil

  name-unlines :
      (name : String)
      → name_text table name
        ≡ unlines (if name == "" then [] else ("    name: " <> quote table name) ∷ [])
  unfolding unlines
  name-unlines name = elim (Bool-cases (name == "")) [
    | inl e ↦ rw e
    | inr e ↦ rw e (simp append-nil)
  ]

  entry-unlines :
      (rw : RemoteWriteSpec) → remote_write_entry table rw ≡ unlines (entry_lines table rw)
  unfolding remote_write_entry unlines
  entry-unlines r =
      rw
        (
          name-unlines r.name,
          basic_auth-unlines r.basic_auth_secret_ref,
          bearer_token-unlines r.bearer_token_secret_ref,
        )
        (ap (λ s. line ("  - url: " <> quote table r.url) <> s) (sym (unlines-append₃ _ _ _)))

  entries-unlines :
      (rws : List RemoteWriteSpec)
      → concat (map (remote_write_entry table) rws) ≡ unlines (all_entries table rws)
  unfolding concat unlines
  entries-unlines [] = refl
  entries-unlines (r ∷ rws) =
      rw (entry-unlines r, entries-unlines rws) (sym (unlines-append (entry_lines table r) _))

  remote_write-unlines :
      (rws : List RemoteWriteSpec)
      → remote_write_section table rws ≡ unlines (remote_write_lines table rws)
  unfolding remote_write_section unlines
  remote_write-unlines [] = refl
  remote_write-unlines (r ∷ rws) = ap (λ s. "remote_write:\n" <> s) (entries-unlines (r ∷ rws))

  -- The file is the lines of `config_lines`, each with its newline.
  pub render_config-unlines :
      {Q : Type 0} (pc : PrometheusCluster Q)
      → render_config table pc ≡ unlines (config_lines table pc)
  unfolding render_config unlines
  render_config-unlines pc =
      rw
        (
          labels-unlines pc.spec.thanos.enabled pc.meta.name,
          files-unlines (additional_scrape_path pc),
          remote_write-unlines pc.spec.remote_write,
        )
        (sym (
          unlines-append₃ global_lines (labels_lines table pc.spec.thanos.enabled pc.meta.name) _
          ∙ ap
              (λ s.
                unlines global_lines
                <> unlines (labels_lines table pc.spec.thanos.enabled pc.meta.name)
                <> s)
              (unlines-append₃ scrape_lines _ _)))
