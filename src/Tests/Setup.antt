-- ===== src/Tests/Setup.antt =====
-- A run of `main` over a runtime whose cluster lacks the definition of one kind.
use wso2is_operator.Base.{[], ◌∷◌, none, some, ◌≡◌, refl, if◌then◌else◌, ◌==◌}
use wso2is_operator.Base.Result.{ok}
use wso2is_operator.Cmd.Options.{default_flags, next_protos, manager_options}
use wso2is_operator.Cmd.Options.Laws.{apply_all, manager_options-http2}
use wso2is_operator.Cmd.Main.{wso2_is_instance, wso2_sp, Kind, Gvk, Runtime, Session, main}
use wso2is_operator.Cmd.Main.Laws.{plan, Follows, main-Follows}

abbrev gvk_of : Kind → Gvk
gvk_of wso2_is_instance = record {
  group = "wso2.it.auth.gr";
  version = "v1alpha1";
  kind = "WSO2ISInstance";
}
gvk_of wso2_sp = record { group = "wso2.it.auth.gr"; version = "v1alpha1"; kind = "WSO2SP" }

abbrev half_installed : Runtime
half_installed = record {
  State = Unit {0};
  Manager = Unit {0};
  new_manager = λ _ s. (ok tt, s);
  object_kinds = λ k. ok (gvk_of k ∷ []);
  rest_mapping = λ _ gvk s. (if gvk.kind == "WSO2SP" then some "no match for kind" else none, s);
  complete = λ _ _ s. (none, s);
  add_healthz_check = λ _ _ s. (none, s);
  add_readyz_check = λ _ _ s. (none, s);
  start = λ _ s. (none, s);
}

abbrev fresh : Session half_installed
fresh = record { state = tt; attempts = [] }

main-Follows_example : Follows (plan default_flags) (main half_installed default_flags fresh)
main-Follows_example = main-Follows half_installed default_flags fresh refl

manager_options-http2_example :
    (let cfg = next_protos ("h2" ∷ "http/1.1" ∷ []) in
      (apply_all (manager_options default_flags).webhook_server.tls_opts cfg
        ≡ next_protos ("http/1.1" ∷ []))
      × (apply_all (manager_options default_flags).metrics.tls_opts cfg
          ≡ next_protos ("http/1.1" ∷ [])))
manager_options-http2_example =
    manager_options-http2 default_flags (next_protos ("h2" ∷ "http/1.1" ∷ []))
