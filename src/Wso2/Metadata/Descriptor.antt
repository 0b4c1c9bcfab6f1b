-- ===== src/Wso2/Metadata/Descriptor.antt =====
-- internal/wso2/saml.go: the parts of SAML metadata that the program reads. `xmlBool` is `Bool`.
use wso2is_operator.Base.{String, Bool, List, Option, ℤ}

pub record X509Data : Type 0 where
  pub x509_certificate : String

pub record KeyInfo : Type 0 where
  pub x509_data : X509Data

pub record KeyDescriptor : Type 0 where
  pub key_use : String
  pub key_info : KeyInfo

pub record Endpoint : Type 0 where
  pub binding : String
  pub location : String

pub record SloEndpoint : Type 0 where
  pub binding : String
  pub location : String
  pub response_location : String

pub record AssertionConsumerService : Type 0 where
  pub binding : String
  pub location : String
  pub index : ℤ
  pub is_default : Bool

pub record AttributeConsumingService : Type 0 where
  pub index : ℤ
  pub is_default : Bool

pub record IdpssoDescriptor : Type 0 where
  pub want_authn_requests_signed : Bool
  pub key_descriptors : List KeyDescriptor
  pub name_id_formats : List String
  pub single_sign_on_services : List Endpoint
  pub single_logout_services : List SloEndpoint

pub record SpssoDescriptor : Type 0 where
  pub authn_requests_signed : Bool
  pub want_assertions_signed : Bool
  pub key_descriptors : List KeyDescriptor
  pub name_id_formats : List String
  pub assertion_consumer_services : List AssertionConsumerService
  pub attribute_consuming_services : List AttributeConsumingService
  pub single_logout_services : List SloEndpoint

pub record EntityDescriptor : Type 0 where
  pub entity_id : String
  pub idpsso_descriptor : Option IdpssoDescriptor
  pub spsso_descriptor : Option SpssoDescriptor
