-- ===== src/Config/Plain.antt =====
-- Every line of prometheus.yml stays one line, whatever the quoted texts hold.
use tsdb_operator.Base.{
  ℕ, String, Option, none, some, List, [], ◌∷◌, ◌++◌, Bool, true, false, ◌==◌, ◌≡◌, if◌then◌else◌,
  All, All-append, arith, ap, ◌∙◌, Bool-cases, inl, inr,
}
use tsdb_operator.Base.Text.{◌<>◌, split_lines, quote}
use tsdb_operator.Base.Text.Lines.{
  NoNewline, NoNewline-append, quote-NoNewline, split_lines-unlines,
}
use tsdb_operator.Types.{PrometheusCluster, RemoteWriteSpec, LocalObjectReference}
use tsdb_operator.Config.{additional_scrape_path, render_config}
use tsdb_operator.Config.Lines.{
  basic_auth_lines, bearer_token_lines, files_lines, global_lines, scrape_lines, entry_lines,
  all_entries, remote_write_lines, labels_lines, config_lines, render_config-unlines,
}

-- The names of the secrets of a target, which are written without quotes, hold no newline.
abbrev pub IsPlainRef : Option LocalObjectReference → Type 0
IsPlainRef none = Unit
IsPlainRef (some ref) = NoNewline ref.name

abbrev pub IsPlainTarget : RemoteWriteSpec → Type 0
IsPlainTarget r = IsPlainRef r.basic_auth_secret_ref × IsPlainRef r.bearer_token_secret_ref

around : (s t u : String) → NoNewline s → NoNewline t → NoNewline u → NoNewline (s <> t <> u)
around s t u h k l = NoNewline-append s (t <> u) h (NoNewline-append t u k l)

basic_auth_plain :
    (r : Option LocalObjectReference) → IsPlainRef r → All NoNewline (basic_auth_lines r)
basic_auth_plain none h = tt
basic_auth_plain (some ref) h = (
  omega arith,
  (
    around _ ref.name "/username" (omega arith) h (omega arith),
    (around _ ref.name "/password" (omega arith) h (omega arith), tt),
  ),
)

bearer_token_plain :
    (r : Option LocalObjectReference) → IsPlainRef r → All NoNewline (bearer_token_lines r)
bearer_token_plain none h = tt
bearer_token_plain (some ref) h = (around _ ref.name "/token" (omega arith) h (omega arith), tt)

files_plain : (path : String) → NoNewline path → All NoNewline (files_lines path)
files_plain path h = elim (Bool-cases (path == "")) [
  | inl e ↦ rw e tt
  | inr e ↦ rw e (omega arith, (NoNewline-append "  - " path (omega arith) h, tt))
]

module _ (table : ℕ → Bool) where
  quoted_plain : (s t : String) → NoNewline s → NoNewline (s <> quote table t)
  quoted_plain s t h = NoNewline-append s (quote table t) h (quote-NoNewline table t)

  labels_plain : (b : Bool) (name : String) → All NoNewline (labels_lines table b name)
  labels_plain false name = tt
  labels_plain true name =
      (omega arith, (quoted_plain "    cluster: " name (omega arith), (omega arith, tt)))

  entry_plain : (r : RemoteWriteSpec) → IsPlainTarget r → All NoNewline (entry_lines table r)
  entry_plain r (h, k) = (
    quoted_plain "  - url: " r.url (omega arith),
    All-append NoNewline _ _ named (
        All-append NoNewline _ _ (basic_auth_plain r.basic_auth_secret_ref h)
          (bearer_token_plain r.bearer_token_secret_ref k)),
  )
    where
      named : All NoNewline (if r.name == "" then [] else ("    name: " <> quote table r.name) ∷ [])
      named = elim (Bool-cases (r.name == "")) [
        | inl e ↦ rw e tt
        | inr e ↦ rw e (quoted_plain "    name: " r.name (omega arith), tt)
      ]

  entries_plain :
      (rws : List RemoteWriteSpec) → All IsPlainTarget rws → All NoNewline (all_entries table rws)
  entries_plain [] h = tt
  entries_plain (r ∷ rws) h =
      All-append NoNewline (entry_lines table r) _ (entry_plain r h.0) (entries_plain rws h.1)

  remote_write_plain :
      (rws : List RemoteWriteSpec)
      → All IsPlainTarget rws
      → All NoNewline (remote_write_lines table rws)
  remote_write_plain [] h = tt
  remote_write_plain (r ∷ rws) h = (omega arith, entries_plain (r ∷ rws) h)

  -- The lines of prometheus.yml are exactly those of `config_lines`, one for each setting, whatever
  -- the cluster's name and the targets' URLs and names hold, if the scrape file's path and the
  -- names of the targets' secrets hold no newline.
  pub split_lines-render_config :
      {Q : Type 0} (pc : PrometheusCluster Q)
      → NoNewline (additional_scrape_path pc)
      → All IsPlainTarget pc.spec.remote_write
      → split_lines (render_config table pc) ≡ config_lines table pc ++ "" ∷ []
  split_lines-render_config pc path targets =
      ap split_lines (render_config-unlines table pc)
      ∙ split_lines-unlines (config_lines table pc) (
          All-append NoNewline global_lines _ (omega arith) (
            All-append NoNewline (labels_lines table pc.spec.thanos.enabled pc.meta.name) _
              (labels_plain pc.spec.thanos.enabled pc.meta.name)
              (All-append NoNewline scrape_lines _ (omega arith) (
                All-append NoNewline (files_lines (additional_scrape_path pc)) _
                  (files_plain _ path) (remote_write_plain pc.spec.remote_write targets)))))
