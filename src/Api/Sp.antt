-- ===== src/Api/Sp.antt =====
-- api/v1alpha1/wso2sp_types.go: the WSO2SP resource. A reference to an object of the same namespace
-- is its name.
use wso2is_operator.Base.{String, Bool, List, Option, Slice, ℤ}
use wso2is_operator.Api.Meta.{ObjectMeta, Condition}

pub record Claim : Type 0 where
  pub uri : String
  pub mandatory : Bool

pub record OAuth2Config : Type 0 where
  pub callback_url : String
  pub grant_types : Slice String
  pub pkce_mandatory : Bool
  pub pkce_plain : Bool
  pub public_client : Bool
  pub token_binding : String
  pub audiences : List String
  pub scope_validators : List String
  pub refresh_token_expiry : ℤ
  pub access_token_expiry : ℤ

pub record SamlConfig : Type 0 where
  pub metadata_url : String
  pub enable_attribute_profile : Bool
  pub include_attributes_by_default : Bool

pub record AuthenticationStep : Type 0 where
  pub step : ℤ
  pub local_authenticators : List String
  pub federated_idp : String
  pub federated_authenticator : String

pub record Wso2SpSpec : Type 0 where
  pub instance_ref : Option String
  pub name : String
  pub claims : List Claim
  pub description : String
  pub subject_claim_uri : String
  pub saml : Option SamlConfig
  pub oauth2 : Option OAuth2Config
  pub authentication_steps : Slice AuthenticationStep
  pub authentication_script : Option String
  pub always_send_back_authenticated_list_of_idps : Bool
  pub enable_authorization : Bool
  pub skip_consent : Bool
  pub skip_logout_consent : Bool
  pub use_tenant_in_sub : Bool
  pub use_userstore_in_sub : Bool
  pub use_userstore_in_roles : Bool
  pub step_for_subject : ℤ
  pub step_for_attributes : ℤ

pub record Wso2SpStatus : Type 0 where
  pub id : ℤ
  pub resource_id : String
  pub phase : String
  pub admin_can_view : Bool
  pub message : String
  pub conditions : List Condition

pub record Wso2Sp : Type 0 where
  pub meta : ObjectMeta
  pub spec : Wso2SpSpec
  pub status : Wso2SpStatus
