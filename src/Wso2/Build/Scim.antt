-- ===== src/Wso2/Build/Scim.antt =====
-- internal/wso2/builder.go: the SCIM requests.
use wso2is_operator.Base.{String, ◌<>◌, [], ◌∷◌, pos}
use wso2is_operator.Wso2.Scim.{ScimUserSearch, ScimGroupSearch, ScimGroupPatch}

unfoldable pub build_user_search : String → ScimUserSearch
build_user_search user = record {
  schemas = "urn:ietf:params:scim:api:messages:2.0:SearchRequest" ∷ [];
  attributes = "userName" ∷ [];
  domain = "PRIMARY";
  filter = "userName eq " <> user;
  start_index = pos 1;
  count = pos 10;
}

unfoldable pub build_join_user_to_group : String → String → ScimGroupPatch
build_join_user_to_group user_name user_id = record {
  schemas = "urn:ietf:params:scim:api:messages:2.0:PatchOp" ∷ [];
  operations =
      record {
        op = "add";
        value = record { members = record { display = user_name; value = user_id } ∷ [] };
      }
      ∷ [];
}

unfoldable pub build_group_search : String → ScimGroupSearch
build_group_search name = record {
  schemas = "urn:ietf:params:scim:api:messages:2.0:SearchRequest" ∷ [];
  start_index = pos 1;
  filter = "displayName eq " <> name;
}
