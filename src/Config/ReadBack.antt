-- ===== src/Config/ReadBack.antt =====
-- Reading the remote-write targets back from the lines of prometheus.yml.
use text.Mathlib.TextLemmas.{append_assoc}
use tsdb_operator.Base.{
  ℕ, String, Option, none, some, List, [], ◌∷◌, ◌++◌, Bool, true, false, ◌==◌, ◌≡◌, refl, sym,
  if◌then◌else◌, ap, ◌∙◌, Bool-cases, inl, inr, map, All, eq_iff,
}
use tsdb_operator.Base.Text.{◌<>◌, quote, escape}
use tsdb_operator.Base.Text.Quoted.{plain, read_quoted}
use tsdb_operator.Base.Text.Unquoted.{codes, read_quoted-quote}
use tsdb_operator.Config.Lines.{
  basic_auth_lines, bearer_token_lines, files_lines, global_lines, scrape_lines, entry_lines,
  all_entries, remote_write_lines, labels_lines, config_lines,
}
use tsdb_operator.Config.{
  extra_secret_mount, secret_path, scrape_path, additional_scrape_path, render_config,
}
use tsdb_operator.Config.Plain.{IsPlainTarget, split_lines-render_config}
use tsdb_operator.Base.Text.Lines.{NoNewline}
use mathlib.Core.List.{append-nil}
use tsdb_operator.Types.{
  PrometheusCluster, RemoteWriteSpec, LocalObjectReference, AdditionalScrapeConfigs,
  SecretKeySelector,
}
use tsdb_operator.Config.Reader.{
  strip_prefix, clashes, strip_prefix-append, strip_prefix-clash, Target, Found, with_url,
  with_name, at_name, at_url, read_line, read_lines, read_targets, target_of, read_lines-append,
  other_line,
}

basic_auth-skipped :
    (r : Option LocalObjectReference) (f : Found) → read_lines (basic_auth_lines r) f ≡ f
unfolding read_lines read_line clashes
basic_auth-skipped none f = refl
basic_auth-skipped (some ref) f = ap (read_line "    basic_auth:") (
    ap (read_line ("      username_file: /etc/prometheus/secrets/" <> ref.name <> "/username")) (
      other_line "      password_file: /etc/prometheus/secrets/" (ref.name <> "/password") f refl
        refl)
    ∙ other_line "      username_file: /etc/prometheus/secrets/" (ref.name <> "/username") f refl
        refl)

bearer_token-skipped :
    (r : Option LocalObjectReference) (f : Found) → read_lines (bearer_token_lines r) f ≡ f
unfolding read_lines clashes
bearer_token-skipped none f = refl
bearer_token-skipped (some ref) f =
    other_line "    bearer_token_file: /etc/prometheus/secrets/" (ref.name <> "/token") f refl refl

module _ (table : ℕ → Bool) where
  quoted_value : (s : String) → read_quoted plain (escape table s <> "\"") ≡ some (codes s, "")
  quoted_value s = read_quoted-quote table s ""

  url_line :
      (s : String) (f : Found)
      → read_line ("  - url: " <> quote table s) f ≡ ([], (codes s, f.0) ∷ f.1)
  unfolding read_line quote
  url_line s f =
      ap (λ l. at_url (strip_prefix "  - url: \"" l) l f)
        (sym (append_assoc "  - url: " "\"" (escape table s <> "\"")))
      ∙ ap (λ o. at_url o ("  - url: \"" <> (escape table s <> "\"")) f)
          (strip_prefix-append "  - url: \"" (escape table s <> "\""))
      ∙ ap (λ o. with_url o f) (quoted_value s)

  name_line :
      (s : String) (f : Found) → read_line ("    name: " <> quote table s) f ≡ (codes s, f.1)
  unfolding read_line quote clashes
  name_line s f =
      ap (λ o. at_url o ("    name: " <> quote table s) f)
        (strip_prefix-clash "  - url: \"" "    name: " (quote table s) refl)
      ∙ ap (λ l. at_name (strip_prefix "    name: \"" l) f)
          (sym (append_assoc "    name: " "\"" (escape table s <> "\"")))
      ∙ ap (λ o. at_name o f) (strip_prefix-append "    name: \"" (escape table s <> "\""))
      ∙ ap (λ o. with_name o f) (quoted_value s)

  abbrev name_lines : String → List String
  name_lines s = if s == "" then [] else ("    name: " <> quote table s) ∷ []

  name_read :
      (s : String) (targets : List Target)
      → read_lines (name_lines s) ([], targets) ≡ (codes s, targets)
  unfolding read_lines
  name_read s targets = elim (Bool-cases (s == "")) [
    | inl e ↦ rw e (ap (λ t. (codes t, targets)) (sym ((eq_iff s "").0 e)))
    | inr e ↦ rw e (name_line s ([], targets))
  ]

  secrets-skipped :
      (basic bearer : Option LocalObjectReference) (f : Found)
      → read_lines (basic_auth_lines basic ++ bearer_token_lines bearer) f ≡ f
  secrets-skipped basic bearer f =
      read_lines-append (basic_auth_lines basic) (bearer_token_lines bearer) f
      ∙ ap (read_lines (basic_auth_lines basic)) (bearer_token-skipped bearer f)
      ∙ basic_auth-skipped basic f

  entry_target :
      (r : RemoteWriteSpec) (targets : List Target)
      → read_lines (entry_lines table r) ([], targets) ≡ ([], target_of r ∷ targets)
  unfolding read_lines
  entry_target r targets =
      ap (read_line ("  - url: " <> quote table r.url)) (
        read_lines-append (name_lines r.name)
          (basic_auth_lines r.basic_auth_secret_ref ++ bearer_token_lines r.bearer_token_secret_ref)
          ([], targets)
        ∙ ap (read_lines (name_lines r.name))
            (secrets-skipped r.basic_auth_secret_ref r.bearer_token_secret_ref ([], targets))
        ∙ name_read r.name targets)
      ∙ url_line r.url (codes r.name, targets)

  entries_targets :
      (rws : List RemoteWriteSpec) (targets : List Target)
      → read_lines (all_entries table rws) ([], targets) ≡ ([], map target_of rws ++ targets)
  unfolding read_lines
  entries_targets [] targets = refl
  entries_targets (r ∷ rws) targets =
      read_lines-append (entry_lines table r) (all_entries table rws) ([], targets)
      ∙ ap (read_lines (entry_lines table r)) (entries_targets rws targets)
      ∙ entry_target r (map target_of rws ++ targets)

  remote_write_targets :
      (rws : List RemoteWriteSpec)
      → read_lines (remote_write_lines table rws) ([], []) ≡ ([], map target_of rws)
  unfolding read_lines read_line
  remote_write_targets [] = refl
  remote_write_targets (r ∷ rws) =
      ap (read_line "remote_write:")
        (entries_targets (r ∷ rws) [] ∙ ap (λ ts. ([], ts)) (append-nil (map target_of (r ∷ rws))))

  labels-skipped :
      (b : Bool) (name : String) (f : Found) → read_lines (labels_lines table b name) f ≡ f
  unfolding read_lines read_line clashes
  labels-skipped false name f = refl
  labels-skipped true name f =
      ap (read_line "  external_labels:")
        (other_line "    cluster: " (quote table name) f refl refl)

secret_path-skipped :
    (ref : Option SecretKeySelector) (f : Found) → read_lines (files_lines (secret_path ref)) f ≡ f
unfolding read_lines read_line clashes
secret_path-skipped none f = refl
secret_path-skipped (some ref) f =
    elim (Bool-cases ((extra_secret_mount <> ("/" <> ref.key)) == "")) [
      | inl e ↦ rw e refl
      | inr e ↦ rw e (
          ap (read_line "scrape_config_files:") (
            ap (λ l. read_line l f) (sym (append_assoc "  - " extra_secret_mount ("/" <> ref.key)))
            ∙ other_line "  - /etc/prometheus/extra-secret" ("/" <> ref.key) f refl refl))
    ]

scrape_path-skipped :
    (asc : Option AdditionalScrapeConfigs) (f : Found)
    → read_lines (files_lines (scrape_path asc)) f ≡ f
unfolding read_lines read_line scrape_path
scrape_path-skipped none f = refl
scrape_path-skipped (some asc) f = elim (Bool-cases (asc.inline == "")) [
  | inl e ↦ rw e (secret_path-skipped asc.secret_ref f)
  | inr e ↦ rw e refl
]

module _ (table : ℕ → Bool) where
  -- All that is read from the lines of the file.
  lines_targets :
      {Q : Type 0} (pc : PrometheusCluster Q)
      → read_lines (config_lines table pc ++ "" ∷ []) ([], [])
        ≡ ([], map target_of pc.spec.remote_write)
  unfolding read_lines read_line additional_scrape_path
  lines_targets pc =
      let rws = pc.spec.remote_write in
      let writes = remote_write_lines table rws in
      let files = files_lines (additional_scrape_path pc) in
      let labels = labels_lines table pc.spec.thanos.enabled pc.meta.name in
      read_lines-append (config_lines table pc) ("" ∷ []) ([], [])
      ∙ read_lines-append global_lines (labels ++ (scrape_lines ++ (files ++ writes))) ([], [])
      ∙ ap (read_lines global_lines) (
          read_lines-append labels (scrape_lines ++ (files ++ writes)) ([], [])
          ∙ labels-skipped table pc.spec.thanos.enabled pc.meta.name _
          ∙ read_lines-append scrape_lines (files ++ writes) ([], [])
          ∙ ap (read_lines scrape_lines) (
              read_lines-append files writes ([], [])
              ∙ scrape_path-skipped pc.spec.additional_scrape_configs _
              ∙ remote_write_targets table rws))

  -- The URLs and names of the remote-write targets, whatever characters they hold, can be read back
  -- from prometheus.yml, in order, by the lines that begin as those of a URL and of a name and the
  -- escapes of YAML; nothing else in the file is taken for a target. The scrape file's path and the
  -- names of the targets' secrets must hold no newline.
  pub read_targets-render_config :
      {Q : Type 0} (pc : PrometheusCluster Q)
      → NoNewline (additional_scrape_path pc)
      → All IsPlainTarget pc.spec.remote_write
      → read_targets (render_config table pc) ≡ map target_of pc.spec.remote_write
  read_targets-render_config pc path targets =
      ap (λ ls. (read_lines ls ([], [])).1) (split_lines-render_config table pc path targets)
      ∙ ap (λ f. f.1) (lines_targets pc)
