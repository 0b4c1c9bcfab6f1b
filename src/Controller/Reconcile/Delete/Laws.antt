-- ===== src/Controller/Reconcile/Delete/Laws.antt =====
-- What `handleDelete` does, on every branch.
use wso2is_operator.Base.{
  String, true, false, ◌∷◌, Option, none, some, ◌==◌, ◌≡◌, refl, ◌⊎◌, inl, inr, Bool-cases,
}
use wso2is_operator.Base.Exit.{done, Returns}
use wso2is_operator.Api.Sp.{Wso2Sp}
use wso2is_operator.Wso2.Client.Transport.{Client, new_request, soap_request}
use wso2is_operator.Wso2.Client.Soap.{application_endpoint, delete_application}
use wso2is_operator.Wso2.Build.Application.{build_delete_application}
use wso2is_operator.System.Http
use wso2is_operator.System.Http.{HttpRequest}
use wso2is_operator.System.Kube.{Event}
use wso2is_operator.System.Platform.{
  Platform, System, sent, updated_sp, recorded, ◌>>=◌, ◌>>◌, pure, call, event,
}
use wso2is_operator.Controller.Reconcile.Delete.{
  report, without_finalizer, handle_delete, delete_remote,
}

abbrev pub delete_request : Client → Wso2Sp → HttpRequest
unfolding new_request soap_request
delete_request c sp =
    new_request c "POST" application_endpoint
      (some (Http.delete_application (build_delete_application sp.spec.name)))
      (soap_request "urn:deleteApplication")

report-event :
    {P : Platform} (o : Option String) (s : System P)
    → (e : Event) × (report o s ≡ (done tt, record s { calls = recorded e ∷ s.calls }))
unfolding report event
report-event (some e) s = (_, refl)
report-event none s = (_, refl)

delete_remote-calls :
    (P : Platform) (c : Client) (sp : Wso2Sp) (s : System P)
    → (e : Event) × (w : P.State) × (delete_remote P c sp s ≡ (
      done tt,
      record { world = w; calls = recorded e ∷ sent (delete_request c sp) ∷ s.calls },
    ))
unfolding delete_remote ◌>>=◌ pure call delete_application
delete_remote-calls P c sp s = let (e, same) = report-event _ _ in (e, _, same)

-- The deletion always returns and always ends with the update that removes the finalizer. The server
-- is asked to delete the application before that, exactly if the status holds a resource ID; then
-- one event is recorded, and the finalizer goes even if the server refuses.
pub handle_delete-calls :
    (P : Platform) (c : Client) (sp : Wso2Sp) (s : System P)
    → Returns (handle_delete P c sp s).0
      × (((sp.status.resource_id == "") ≡ true)
            × ((handle_delete P c sp s).1.calls ≡ updated_sp (without_finalizer P sp) ∷ s.calls)
          ⊎ ((sp.status.resource_id == "") ≡ false)
            × ((e : Event) × ((handle_delete P c sp s).1.calls
                  ≡ updated_sp (without_finalizer P sp)
                    ∷ recorded e
                    ∷ sent (delete_request c sp)
                    ∷ s.calls)))
unfolding handle_delete ◌>>=◌ ◌>>◌ pure call event delete_application
handle_delete-calls P c sp s = elim (Bool-cases (sp.status.resource_id == "")) [
  | inl e ↦ rw e ((_, refl), inl (refl, refl))
  | inr e ↦ rw e (
      let (ev, w, same) = delete_remote-calls P c sp s in
      rw same ((_, refl), inr (refl, (ev, refl))))
]
