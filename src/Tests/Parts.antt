-- ===== src/Tests/Parts.antt =====
-- The theorems on phases, conditions and secrets, at concrete inputs.
use wso2is_operator.Base.{[], ◌∷◌, none, some, pos, ◌≡◌, refl, find, ◌==◌, if◌then◌else◌}
use wso2is_operator.Base.Exit.{done}
use wso2is_operator.Api.Meta.{Condition, condition_true, condition_false}
use wso2is_operator.Controller.Condition.{set_condition, at_time}
use wso2is_operator.Controller.Condition.Laws.{
  lookup, transition, Unique, lookup-set_condition_any, set_condition-Unique,
}
use wso2is_operator.Controller.Secrets.{upsert_application_secret}
use wso2is_operator.Controller.Secrets.Laws.{upsert_application_secret-idle}
use wso2is_operator.Tests.Fixtures.{no_reply, platform, portal, start}

abbrev available : Condition
available = record {
  kind = "Available";
  status = condition_true;
  reason = "Ready";
  message = "Connected";
  observed_generation = pos 1;
  last_transition_time = pos 50;
}

abbrev degraded : Condition
degraded = record available { kind = "Degraded"; status = condition_false }

lookup-set_condition_any_example :
    lookup "Available" (set_condition (pos 90) available (degraded ∷ available ∷ [])) ≡ (
      if "Available" == "Available"
      then some (
          at_time
            (transition (pos 90) condition_true (lookup "Available" (degraded ∷ available ∷ [])))
            available)
      else lookup "Available" (degraded ∷ available ∷ []))
lookup-set_condition_any_example =
    lookup-set_condition_any (pos 90) available "Available" (degraded ∷ available ∷ [])

set_condition-Unique_example : Unique (set_condition (pos 90) available (degraded ∷ available ∷ []))
unfolding find
set_condition-Unique_example =
    set_condition-Unique (pos 90) available (degraded ∷ available ∷ []) (refl, (refl, tt))

upsert_application_secret-idle_example :
    upsert_application_secret platform portal
      (("client_id", "") ∷ ("client_secret", "") ∷ [])
      (start no_reply none)
    ≡ (done none, start no_reply none)
upsert_application_secret-idle_example =
    upsert_application_secret-idle platform portal (("client_id", "") ∷ ("client_secret", "") ∷ [])
      (start no_reply none) (refl, (refl, tt))
