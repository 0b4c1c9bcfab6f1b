-- ===== src/Controller/Condition.antt =====
-- internal/controller/wso2isinstance_controller.go: `setCondition`.
pub mod Laws
use wso2is_operator.Base.{String, Bool, true, false, List, [], ◌∷◌, ℤ, ◌==◌, if◌then◌else◌}
use wso2is_operator.Api.Meta.{Condition, ConditionStatus, condition_true, condition_false}

abbrev pub same_status : ConditionStatus → ConditionStatus → Bool
same_status condition_true condition_true = true
same_status condition_false condition_false = true
same_status _ _ = false

abbrev pub at_time : ℤ → Condition → Condition
at_time t c = record c { last_transition_time = t }

-- The loop: the first condition of the same type is replaced, or the new one is appended.
unfoldable pub set_condition : ℤ → Condition → List Condition → List Condition
set_condition now new [] = at_time now new ∷ []
set_condition now new (c ∷ cs) =
    let rest = set_condition now new cs in
    if c.kind == new.kind
    then (if same_status c.status new.status
        then at_time c.last_transition_time new
        else at_time now new)
      ∷ cs
    else c ∷ rest
