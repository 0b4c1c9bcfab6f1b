-- ===== src/Wso2/Scim.antt =====
-- internal/wso2/scim.go: the SCIM 2.0 requests and replies.
use wso2is_operator.Base.{String, List, ℤ}

pub record ScimUserSearch : Type 0 where
  pub schemas : List String
  pub attributes : List String
  pub domain : String
  pub filter : String
  pub start_index : ℤ
  pub count : ℤ

pub record ScimGroupMember : Type 0 where
  pub display : String
  pub value : String
  pub ref : String

pub record ScimGroup : Type 0 where
  pub id : String
  pub display_name : String
  pub members : List ScimGroupMember

pub record ScimUser : Type 0 where
  pub id : String
  pub username : String

pub record ScimListResponse (T : Type 0) : Type 0 where
  pub total_results : ℤ
  pub start_index : ℤ
  pub items_per_page : ℤ
  pub resources : List T

pub record ScimGroupSearch : Type 0 where
  pub schemas : List String
  pub start_index : ℤ
  pub filter : String

pub record ScimPatchMember : Type 0 where
  pub display : String
  pub value : String

pub record ScimPatchMembers : Type 0 where
  pub members : List ScimPatchMember

pub record ScimPatchOperation : Type 0 where
  pub op : String
  pub value : ScimPatchMembers

pub record ScimGroupPatch : Type 0 where
  pub schemas : List String
  pub operations : List ScimPatchOperation
