-- ===== src/Controller/Liveness/Object.antt =====
-- `Reconcile` of the WSO2SP reconciler returns.
use wso2is_operator.Base.{String, some, ◌≡◌}
use wso2is_operator.Base.Result.{Result}
use wso2is_operator.Api.Sp.{Wso2Sp}
use wso2is_operator.Wso2.Client.Transport.{Client}
use wso2is_operator.System.Kube.{Lookup, found}
use wso2is_operator.System.Platform.{Platform, System}
use wso2is_operator.System.Ends.{Ends}
use wso2is_operator.Controller.Liveness.Answers.{Answers}

-- An object that is found names an instance.
abbrev pub NamesInstance : Lookup Wso2Sp → Type 0
NamesInstance r =
    (sp : Wso2Sp) → r ≡ found sp → (name : String) × (sp.spec.instance_ref ≡ some name)
