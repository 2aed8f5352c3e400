-- ===== src/Config/Tests.antt =====
-- Examples of the rendered files.
use tsdb_operator.Base.{ℕ, Bool, false, none, [], ◌∷◌, ◌++◌, map, ◌≡◌, arith}
use tsdb_operator.Base.Text.{split_lines, trim_right_newlines}
use tsdb_operator.Config.{wrap_scrape_configs, render_config, additional_scrape_path}
use tsdb_operator.Config.Wrapped.{indent, split_lines-wrap_scrape_configs}
use tsdb_operator.Config.Reader.{read_targets, target_of}
use tsdb_operator.Config.ReadBack.{read_targets-render_config}
use tsdb_operator.Types.{PrometheusCluster}
use tsdb_operator.Kube.Memory.{Quantity}
use tsdb_operator.Samples.{cluster}

wrap_scrape_configs_example :
    split_lines (wrap_scrape_configs "- job_name: a\n\n  x: y\n\n")
    ≡ "scrape_configs:"
        ∷ map indent (split_lines (trim_right_newlines "- job_name: a\n\n  x: y\n\n"))
      ++ "" ∷ []
wrap_scrape_configs_example = split_lines-wrap_scrape_configs "- job_name: a\n\n  x: y\n\n"

abbrev no_print : ℕ → Bool
no_print n = false

-- The sample, with a target whose URL has a quotation mark, a backslash and a newline.
abbrev odd : PrometheusCluster Quantity
odd = record cluster {
  spec = record cluster.spec {
    remote_write =
        record {
          url = "http://a\"b\\c\nd";
          name = "\u{7f}";
          basic_auth_secret_ref = none;
          bearer_token_secret_ref = none;
        }
        ∷ cluster.spec.remote_write;
  };
}

read_targets_example :
    read_targets (render_config no_print odd) ≡ map target_of odd.spec.remote_write
unfolding additional_scrape_path
read_targets_example =
    read_targets-render_config no_print odd (omega arith) ((tt, tt), ((omega arith, tt), tt))
