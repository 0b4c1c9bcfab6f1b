-- ===== src/Controller/Reconcile/Admin.antt =====
-- internal/controller/wso2sp_controller.go: `reconcileAdminAccess`.
use wso2is_operator.Base.{String, ◌<>◌, true, none, some, if◌then◌else◌}
use wso2is_operator.Base.Result.{ok, err}
use wso2is_operator.Api.Sp.{Wso2Sp}
use wso2is_operator.Wso2.Client.Transport.{Client}
use wso2is_operator.Wso2.Client.Scim.{get_admin_group_membership, join_admin_to_group}
use wso2is_operator.System.Platform.{Platform, M, pure, ◌>>=◌}
use wso2is_operator.Controller.Phase.{Turn, fail_with}

abbrev pub seen_by_admin : Wso2Sp → Wso2Sp
seen_by_admin sp = record sp { status = record sp.status { admin_can_view = true } }

module _ (P : Platform) (c : Client) (sp : Wso2Sp) where
  unfoldable pub grant_admin_access : String → M P Turn
  grant_admin_access group_id = do
    e ← join_admin_to_group P c group_id
    elim e [
      | some e ↦
          fail_with P sp "SetFailed" "UpdatingAdminGroup" ("admin group update failed: " <> e)
      | none ↦ pure (record { sp = sp; requeue_after = 5; error = none })
    ]

  unfoldable pub reconcile_admin_access : M P Turn
  unfolding grant_admin_access
  reconcile_admin_access =
      if sp.status.admin_can_view
      then pure (record { sp = sp; requeue_after = 0; error = none })
      else do
        m ← get_admin_group_membership P c sp.spec.name
        elim m [
          | err e ↦ fail_with P sp "GetFailed" "Reconciling" ("admin group lookup failed: " <> e)
          | ok (can_view, group_id) ↦
              if can_view
              then pure (record { sp = seen_by_admin sp; requeue_after = 0; error = none })
              else grant_admin_access group_id
        ]
