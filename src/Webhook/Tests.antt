-- ===== src/Webhook/Tests.antt =====
-- Examples of the webhook's rules.
use tsdb_operator.Base.{none, ◌≡◌, ◌↔◌, [], ◌∷◌}
use tsdb_operator.Webhook.{Parsers, validate}
use tsdb_operator.Webhook.Admissible.{IsAdmissible, validate_iff}
use tsdb_operator.Webhook.{FieldError, required, child, index}
use tsdb_operator.Webhook.Faults.{Contains, IsFault}
use tsdb_operator.Webhook.Reported.{errors_of, validate-IsFault}
use tsdb_operator.Types.{PrometheusCluster}
use tsdb_operator.Kube.Memory.{Quantity}
use tsdb_operator.Samples.{cluster}

abbrev lenient : Parsers
lenient = record { cron_error = λ s. none; scrape_list_error = λ s. none }

validate_example : (validate lenient cluster ≡ none) ↔ IsAdmissible lenient cluster
validate_example = validate_iff lenient cluster

-- The sample with a target without a URL after its own.
abbrev no_second_url : PrometheusCluster Quantity
no_second_url = record cluster {
  spec = record cluster.spec {
    remote_write =
        record {
          url = "http://a";
          name = "";
          basic_auth_secret_ref = none;
          bearer_token_secret_ref = none;
        }
        ∷ record {
          url = "";
          name = "";
          basic_auth_secret_ref = none;
          bearer_token_secret_ref = none;
        }
        ∷ [];
  };
}

abbrev at_second : FieldError
at_second =
    required (child "spec" ∷ child "remoteWrite" ∷ index 1 ∷ child "url" ∷ []) "url is required"

second_reported :
    Contains at_second (errors_of (validate lenient no_second_url))
    ↔ IsFault lenient no_second_url at_second
second_reported = validate-IsFault lenient no_second_url at_second
