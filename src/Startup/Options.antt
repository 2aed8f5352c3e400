-- ===== src/Startup/Options.antt =====
-- The flags of the operator with their defaults, and the options that they make.
use tsdb_operator.Base.{
  String, Option, none, some, List, [], ◌∷◌, Bool, true, false, not, if◌then◌else◌, ◌==◌,
}
use tsdb_operator.Base.Int.{ℤ, pos}

pub record Flags : Type 0 where
  pub metrics_addr : String
  pub probe_addr : String
  pub enable_leader_election : Bool
  pub secure_metrics : Bool
  pub webhook_cert_path : String
  pub webhook_cert_name : String
  pub webhook_cert_key : String
  pub metrics_cert_path : String
  pub metrics_cert_name : String
  pub metrics_cert_key : String
  pub enable_http2 : Bool
  pub enable_ha : Bool
  pub enable_backup : Bool
  pub enable_webhook : Bool
  pub enable_api : Bool
  pub api_addr : String
  pub api_tls_cert_dir : String
  pub api_namespace : String
  pub audit_dsn : String
  pub audit_retention_days : ℤ
  pub s3_endpoint : String
  pub s3_region : String

-- The flags of a command line that sets none, with the value of TSDB_AUDIT_DSN.
abbrev pub default_flags : (dsn : String) → Flags
default_flags dsn = record {
  metrics_addr = "0";
  probe_addr = ":8081";
  enable_leader_election = false;
  secure_metrics = true;
  webhook_cert_path = "";
  webhook_cert_name = "tls.crt";
  webhook_cert_key = "tls.key";
  metrics_cert_path = "";
  metrics_cert_name = "tls.crt";
  metrics_cert_key = "tls.key";
  enable_http2 = false;
  enable_ha = true;
  enable_backup = true;
  enable_webhook = false;
  enable_api = true;
  api_addr = ":8080";
  api_tls_cert_dir = "";
  api_namespace = "default";
  audit_dsn = dsn;
  audit_retention_days = pos 0;
  s3_endpoint = "";
  s3_region = "us-east-1";
}

-- crypto/tls.Config, as far as the options set it, and an option.
pub record TlsConfig : Type 0 where
  pub next_protos : List String

abbrev pub TlsOption : Type 0
TlsOption = TlsConfig → TlsConfig

abbrev pub disable_http2 : TlsOption
disable_http2 c = record c { next_protos = "http/1.1" ∷ [] }

abbrev pub tls_opts : Flags → List TlsOption
tls_opts f = if not f.enable_http2 then disable_http2 ∷ [] else []

-- The zero value of each part of a certificate is the empty text.
pub record Certificate : Type 0 where
  pub dir : String
  pub name : String
  pub key_name : String

abbrev pub certificate : (path name key : String) → Certificate
certificate path name key =
    if not (path == "")
    then record { dir = path; name = name; key_name = key }
    else record { dir = ""; name = ""; key_name = "" }

pub record WebhookOptions : Type 0 where
  pub tls : List TlsOption
  pub cert : Certificate

pub record MetricsOptions : Type 0 where
  pub bind_address : String
  pub secure_serving : Bool
  pub tls : List TlsOption
  pub with_authorization : Bool
  pub cert : Certificate

pub record ManagerOptions : Type 0 where
  pub metrics : MetricsOptions
  pub webhook : WebhookOptions
  pub probe_address : String
  pub leader_election : Bool
  pub leader_election_id : String

abbrev pub webhook_options : Flags → WebhookOptions
webhook_options f = record {
  tls = tls_opts f;
  cert = certificate f.webhook_cert_path f.webhook_cert_name f.webhook_cert_key;
}

abbrev pub metrics_options : Flags → MetricsOptions
metrics_options f = record {
  bind_address = f.metrics_addr;
  secure_serving = f.secure_metrics;
  tls = tls_opts f;
  with_authorization = f.secure_metrics;
  cert = certificate f.metrics_cert_path f.metrics_cert_name f.metrics_cert_key;
}

unfoldable pub manager_options : Flags → ManagerOptions
manager_options f = record {
  metrics = metrics_options f;
  webhook = webhook_options f;
  probe_address = f.probe_addr;
  leader_election = f.enable_leader_election;
  leader_election_id = "ab0397ab.merlionos.org";
}

-- The options of an S3 client: with an endpoint of one's own, paths have the bucket in them.
pub record S3Options : Type 0 where
  pub base_endpoint : Option String
  pub use_path_style : Bool

abbrev pub s3_options : (endpoint : String) → S3Options
s3_options endpoint =
    if not (endpoint == "")
    then record { base_endpoint = some endpoint; use_path_style = true }
    else record { base_endpoint = none; use_path_style = false }
