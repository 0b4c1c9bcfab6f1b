-- ===== src/Wso2/Client/Scim.antt =====
-- internal/wso2/client.go: `Ping`, and the SCIM calls that let the administrator see a group.
pub mod Laws
use wso2is_operator.Base.{
  ℕ, String, ◌<>◌, Bool, true, false, List, [], ◌∷◌, Option, none, some, ◌==◌, ◌||◌, nat_eq, any,
  pos, if◌then◌else◌,
}
use wso2is_operator.Base.Text.{show_nat}
use wso2is_operator.Base.Exit.{nil_dereference}
use wso2is_operator.Base.Result.{Result, ok, err}
use wso2is_operator.Wso2.Scim.{ScimListResponse, ScimUser, ScimGroup}
use wso2is_operator.Wso2.Build.Scim.{
  build_user_search, build_group_search, build_join_user_to_group,
}
use wso2is_operator.System.Http.{Payload, user_search, group_search, group_patch, Response}
use wso2is_operator.System.Platform.{Platform, M, pure, panic, ◌>>=◌}
use wso2is_operator.Wso2.Client.Transport.{Client, Reply, do_json}

-- The error that `%w` prints for a nil error.
abbrev nil_error : String
nil_error = "%!w(<nil>)"

-- A list response before anything is decoded into it.
abbrev no_resources : {T : Type 0} → ScimListResponse T
no_resources = record {
  total_results = pos 0;
  start_index = pos 0;
  items_per_page = pos 0;
  resources = [];
}

abbrev scim_path : Client → String → String
scim_path c path = "/t/" <> (c.tenant <> path)

-- What `Ping` makes of the reply. Reading the status of a nil response panics.
unfoldable pub check_ping : {P : Platform} {R : Type 0} → Reply R → M P (Result (Unit {0}))
check_ping r = elim r.error [
  | some e ↦ pure (err ("connection failed: " <> e))
  | none ↦ elim r.response [
    | none ↦ panic nil_dereference
    | some resp ↦
        if nat_eq resp.status_code 401
        then pure (err "invalid credentials (401)")
        else if nat_eq resp.status_code 200
        then pure (ok tt)
        else pure (err ("unexpected status: " <> show_nat resp.status_code))
  ]
]

unfoldable pub first_user : Reply (ScimListResponse ScimUser) → Result (String × String)
first_user r = elim r.error [
  | some e ↦ err ("scim user search failed: " <> e)
  | none ↦ elim r.out.resources [
    | [] ↦ err ("failed to decode scim response: " <> nil_error)
    | u ∷ us ↦ ok (u.username, u.id)
  ]
]

unfoldable pub the_group : Reply (ScimListResponse ScimGroup) → Result ScimGroup
the_group r = elim r.error [
  | some e ↦ err ("scim group search failed: " <> e)
  | none ↦ elim r.out.resources [
    | [] ↦ err "scim group search failed: "
    | g ∷ [] ↦ ok g
    | g ∷ h ∷ gs ↦ err "scim group search failed: "
  ]
]

-- `getUserGroupMembership`
unfoldable pub get_user_group_membership : String → ScimGroup → Bool
unfolding any
get_user_group_membership user_name group = any (λ m. m.display == user_name) group.members

module _ (P : Platform) where
  unfoldable pub ping : Client → M P (Result (Unit {0}))
  unfolding do_json check_ping
  ping c = do
    r ← do_json P c "GET" (scim_path c "/api/server/v1/applications?limit=1") none none tt
    check_ping r

  -- The user name and the ID.
  unfoldable pub get_user_info : Client → String → M P (Result (String × String))
  unfolding do_json first_user
  get_user_info c name = do
    r ←
        do_json P c "POST" (scim_path c "/scim2/Users/.search")
          (some (user_search (build_user_search name))) (some P.decode_users) no_resources
    pure (first_user r)

  -- The last step of `joinUserToGroup`.
  unfoldable pub patch_group : Client → String → String → String → M P (Option String)
  unfolding do_json
  patch_group c group_id username user_id =
      if username == "" || user_id == ""
      then pure (some ("failed to find admin user: " <> nil_error))
      else do
        r ←
            do_json P c "PATCH" (scim_path c ("/scim2/Groups/" <> group_id))
              (some (group_patch (build_join_user_to_group username user_id))) none tt
        pure (elim r.error [ none ↦ none | some e ↦ some ("scim group patch failed: " <> e) ])

  unfoldable pub join_user_to_group : Client → String → String → M P (Option String)
  unfolding get_user_info patch_group
  join_user_to_group c user_name group_id = do
    u ← get_user_info c user_name
    elim u [
      | err e ↦ pure (some ("failed to decode scim response: " <> e))
      | ok (username, user_id) ↦ patch_group c group_id username user_id
    ]

  unfoldable pub join_admin_to_group : Client → String → M P (Option String)
  unfolding join_user_to_group
  join_admin_to_group c group_id = join_user_to_group c "admin" group_id

  unfoldable pub get_group_info : Client → String → M P (Result ScimGroup)
  unfolding do_json the_group
  get_group_info c group_name = do
    r ←
        do_json P c "POST" (scim_path c "/scim2/Groups/.search")
          (some (group_search (build_group_search group_name))) (some P.decode_groups) no_resources
    pure (the_group r)

  -- Whether the administrator is a member, and the group's ID. `getGroupInfo` never returns nil
  -- without an error, so the test for nil that follows it is left out.
  unfoldable pub get_admin_group_membership : Client → String → M P (Result (Bool × String))
  unfolding get_group_info get_user_group_membership
  get_admin_group_membership c group_name = do
    g ← get_group_info c group_name
    pure (elim g [
      | err e ↦ err e
      | ok group ↦ ok (get_user_group_membership "admin" group, group.id)
    ])
