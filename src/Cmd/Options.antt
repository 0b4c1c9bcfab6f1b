-- ===== src/Cmd/Options.antt =====
-- cmd/main.go: the flags, and the options that they give the servers and the manager.
pub mod Laws
use wso2is_operator.Base.{String, Bool, true, false, not, List, [], ◌∷◌, ◌==◌, if◌then◌else◌}

-- The variables that the flags set. The flags of the logger are left out.
pub record Flags : Type 0 where
  pub metrics_addr : String
  pub probe_addr : String
  pub enable_leader_election : Bool
  pub secure_metrics : Bool
  pub webhook_cert_path : String
  pub webhook_cert_name : String
  pub webhook_cert_key : String
  pub metrics_cert_path : String
  pub metrics_cert_name : String
  pub metrics_cert_key : String
  pub enable_http2 : Bool

-- The variables where the command line sets none.
abbrev pub default_flags : Flags
default_flags = record {
  metrics_addr = "0";
  probe_addr = ":8081";
  enable_leader_election = false;
  secure_metrics = true;
  webhook_cert_path = "";
  webhook_cert_name = "tls.crt";
  webhook_cert_key = "tls.key";
  metrics_cert_path = "";
  metrics_cert_name = "tls.crt";
  metrics_cert_key = "tls.key";
  enable_http2 = false;
}

-- What the program sets of a `tls.Config`. The wrapper keeps the one field apart from its value.
pub data TlsConfig : Type 0 where
  next_protos : List String → TlsConfig

-- A `func(*tls.Config)`
abbrev pub TlsOpt : Type 0
TlsOpt = TlsConfig → TlsConfig

unfoldable pub disable_http2 : TlsOpt
disable_http2 (next_protos _) = next_protos ("http/1.1" ∷ [])

unfoldable pub tls_opts : Flags → List TlsOpt
unfolding disable_http2
tls_opts flags = if not flags.enable_http2 then disable_http2 ∷ [] else []

-- The fields that both options have. An empty `cert_dir` leaves the default of the library.
pub record CertFiles : Type 0 where
  pub cert_dir : String
  pub cert_name : String
  pub key_name : String

abbrev no_certs : CertFiles
no_certs = record { cert_dir = ""; cert_name = ""; key_name = "" }

unfoldable pub cert_files : String → String → String → CertFiles
cert_files path name key =
    if not (path == "")
    then record { cert_dir = path; cert_name = name; key_name = key }
    else no_certs

-- `webhook.Options`
pub record WebhookOptions : Type 0 where
  pub tls_opts : List TlsOpt
  pub certs : CertFiles

-- `metricsserver.Options`. `filtered` is whether `FilterProvider` asks for authentication and
-- authorisation.
pub record MetricsOptions : Type 0 where
  pub bind_address : String
  pub secure_serving : Bool
  pub tls_opts : List TlsOpt
  pub filtered : Bool
  pub certs : CertFiles

-- `ctrl.Options`, with the options of its webhook server.
pub record ManagerOptions : Type 0 where
  pub metrics : MetricsOptions
  pub webhook_server : WebhookOptions
  pub health_probe_bind_address : String
  pub leader_election : Bool
  pub leader_election_id : String

unfoldable pub webhook_server_options : Flags → WebhookOptions
unfolding tls_opts cert_files
webhook_server_options flags = record {
  tls_opts = tls_opts flags;
  certs = cert_files flags.webhook_cert_path flags.webhook_cert_name flags.webhook_cert_key;
}

unfoldable pub metrics_server_options : Flags → MetricsOptions
unfolding tls_opts cert_files
metrics_server_options flags = record {
  bind_address = flags.metrics_addr;
  secure_serving = flags.secure_metrics;
  tls_opts = tls_opts flags;
  filtered = if flags.secure_metrics then true else false;
  certs = cert_files flags.metrics_cert_path flags.metrics_cert_name flags.metrics_cert_key;
}

unfoldable pub manager_options : Flags → ManagerOptions
unfolding metrics_server_options webhook_server_options
manager_options flags = record {
  metrics = metrics_server_options flags;
  webhook_server = webhook_server_options flags;
  health_probe_bind_address = flags.probe_addr;
  leader_election = flags.enable_leader_election;
  leader_election_id = "03db9004.it.auth.gr";
}
