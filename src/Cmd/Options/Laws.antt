-- ===== src/Cmd/Options/Laws.antt =====
-- What the flags mean for the two servers.
use wso2is_operator.Base.{List, [], ◌∷◌, ◌≡◌, inl, inr, refl, if◌then◌else◌, Bool-cases}
use wso2is_operator.Cmd.Options.{
  Flags, TlsConfig, next_protos, TlsOpt, disable_http2, tls_opts, webhook_server_options,
  metrics_server_options, manager_options,
}

-- The options one after the other.
abbrev pub apply_all : List TlsOpt → TlsConfig → TlsConfig
apply_all [] cfg = cfg
apply_all (f ∷ fs) cfg = apply_all fs (f cfg)

-- With the flag for HTTP/2 off, as it is by default, the TLS options leave HTTP/1.1 as the only
-- protocol of the webhook server and of the metrics server, whatever the configuration was; with the
-- flag on they leave the configuration of both as it is.
pub manager_options-http2 :
    (flags : Flags) (cfg : TlsConfig)
    → (let cfg' = if flags.enable_http2 then cfg else next_protos ("http/1.1" ∷ []) in
        (apply_all (manager_options flags).webhook_server.tls_opts cfg ≡ cfg')
        × (apply_all (manager_options flags).metrics.tls_opts cfg ≡ cfg'))
unfolding manager_options webhook_server_options metrics_server_options tls_opts disable_http2
manager_options-http2 flags (next_protos ps) = elim (Bool-cases flags.enable_http2) [
  | inl e ↦ rw e (refl, refl)
  | inr e ↦ rw e (refl, refl)
]

-- The metrics endpoint asks for authentication and authorisation exactly if it is served by HTTPS.
pub metrics_server_options-filtered :
    (flags : Flags)
    → (metrics_server_options flags).filtered ≡ (metrics_server_options flags).secure_serving
unfolding metrics_server_options
metrics_server_options-filtered flags = elim (Bool-cases flags.secure_metrics) [
  | inl e ↦ rw e refl
  | inr e ↦ rw e refl
]
