-- ===== src/Controller/Reconcile/Entry.antt =====
-- internal/controller: `buildClient`, and `Reconcile` of the WSO2SP reconciler.
use wso2is_operator.Base.{ℕ, String, ◌<>◌, Option, none, some, ◌==◌, if◌then◌else◌}
use wso2is_operator.Base.Exit.{nil_dereference}
use wso2is_operator.Base.Result.{Result, ok, err}
use wso2is_operator.Api.Meta.{get_text}
use wso2is_operator.Api.Sp.{Wso2Sp}
use wso2is_operator.Api.Instance.{Wso2IsInstance}
use wso2is_operator.Wso2.Client.Transport.{Client, new_client}
use wso2is_operator.System.Kube.{ObjectKey, Secret, Lookup, found, not_found, failed}
use wso2is_operator.System.Platform.{
  Platform, M, updated_sp, updated_status, call, read, pure, panic, ◌>>=◌, ◌>>◌,
}
use wso2is_operator.Controller.Spec.{skip_reconcile, app}
use wso2is_operator.Controller.Phase.{
  Turn, phase_pending, phase_ready, phase_paused, sp_finalizer, set_phase, warn,
}
use wso2is_operator.Controller.Reconcile.Application.{reconcile_application}
use wso2is_operator.Controller.Reconcile.Delete.{handle_delete, update_turn}

abbrev pub or_default : String → String → String
or_default s d = if s == "" then d else s

-- Where the credentials of an instance are.
abbrev pub credentials_key : Wso2IsInstance → ObjectKey
credentials_key i = record {
  namespace = or_default i.spec.credentials_secret.namespace i.meta.namespace;
  name = i.spec.credentials_secret.name;
}

abbrev pub secret_text : String → Secret → String
secret_text k sec = elim sec.contents [ none ↦ "" | some d ↦ get_text k d ]

abbrev pub client_of : Wso2IsInstance → Secret → Client
client_of i sec =
    new_client i.spec.base_url (secret_text "username" sec) (secret_text "password" sec)
      (or_default i.spec.tenant_domain "carbon.super") i.spec.insecure_skip_tls_verify

abbrev client_from : Wso2IsInstance → Lookup Secret → Result Client
client_from i (found sec) = ok (client_of i sec)
client_from i (not_found e) = err ("credentials secret: " <> e)
client_from i (failed e) = err ("credentials secret: " <> e)

-- What `Reconcile` returns; `none` where the object is gone or cannot be read.
pub record Outcome : Type 0 where
  pub requeue_after : ℕ
  pub error : Option String

abbrev pub outcome_of : Turn → Outcome
outcome_of t = record { requeue_after = t.requeue_after; error = t.error }

abbrev pub nothing_left : Outcome
nothing_left = record { requeue_after = 0; error = none }

abbrev pub failed_with : String → Outcome
failed_with e = record { requeue_after = 0; error = some e }

module _ (P : Platform) where
  unfoldable pub client_for : String → Wso2IsInstance → M P (Result Client)
  client_for name i =
      if i.status.phase == phase_ready
      then (do r ← read (P.get_secret (credentials_key i)); pure (client_from i r))
      else pure
          (err ("WSO2ISInstance " <> (P.quote name <> (" is not ready: " <> i.status.message))))

  unfoldable pub after_instance : String → Lookup Wso2IsInstance → M P (Result Client)
  unfolding client_for
  after_instance name (not_found e) =
      pure (err ("WSO2ISInstance " <> (P.quote name <> " not found")))
  after_instance name (failed e) = pure (err e)
  after_instance name (found i) = client_for name i

  -- The spec's reference to an instance is a pointer, which `buildClient` dereferences.
  unfoldable pub build_client : Wso2Sp → M P (Result Client)
  unfolding after_instance
  build_client sp = elim sp.spec.instance_ref [
    | none ↦ panic nil_dereference
    | some name ↦ do
      r ← read (P.get_instance (record { namespace = sp.meta.namespace; name = name }))
      after_instance name r
  ]

  abbrev pub paused_turn : Wso2Sp → Wso2Sp
  paused_turn sp = record sp { status = record sp.status { phase = phase_paused } }

  unfoldable pub pause : Wso2Sp → M P Turn
  pause sp =
      if sp.status.phase == phase_paused
      then pure (record { sp = sp; requeue_after = 0; error = none })
      else do
        r ← call (updated_status (paused_turn sp)) (P.update_sp_status (paused_turn sp))
        pure (update_turn r)

  abbrev pub with_finalizer : Wso2Sp → Wso2Sp
  with_finalizer sp = record sp {
    meta = record sp.meta { finalizers = P.add_finalizer sp_finalizer sp.meta.finalizers };
  }

  -- From the point where there is a client.
  unfoldable pub reconcile_with : Client → Wso2Sp → M P Turn
  reconcile_with c sp =
      if sp.meta.deleting
      then handle_delete P c sp
      else if P.contains_finalizer sp_finalizer sp.meta.finalizers
      then reconcile_application P c sp
      else do
        r ← call (updated_sp (with_finalizer sp)) (P.update_sp (with_finalizer sp))
        pure (update_turn r)

  unfoldable pub after_client : Wso2Sp → Result Client → M P Turn
  unfolding reconcile_with
  after_client sp (err e) = do
    warn "InstanceNotReady" "Reconciling"
    set_phase P sp phase_pending e 15
  after_client sp (ok c) = reconcile_with c sp

  -- From the point where the object is read.
  unfoldable pub reconcile_object : Wso2Sp → M P Turn
  unfolding pause build_client after_client
  reconcile_object sp =
      if skip_reconcile app sp then pause sp else do r ← build_client sp; after_client sp r

  unfoldable pub after_sp : Lookup Wso2Sp → M P Outcome
  unfolding reconcile_object
  after_sp (not_found e) = pure nothing_left
  after_sp (failed e) = pure (failed_with e)
  after_sp (found sp) = do t ← reconcile_object sp; pure (outcome_of t)

  unfoldable pub reconcile : ObjectKey → M P Outcome
  unfolding after_sp
  reconcile key = do r ← read (P.get_sp key); after_sp r
