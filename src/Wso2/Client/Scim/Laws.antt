-- ===== src/Wso2/Client/Scim/Laws.antt =====
-- `Ping` against a description by the outcome of the exchange.
use wso2is_operator.Base.{
  ℕ, ◌<>◌, true, false, none, nat_eq, ◌≡◌, refl, arith, if◌then◌else◌, Bool-cases, inl, inr,
}
use wso2is_operator.Base.Text.{show_nat}
use wso2is_operator.Base.Exit.{done}
use wso2is_operator.Base.Result.{Result, ok, err}
use wso2is_operator.System.Http.{HttpRequest, Response}
use wso2is_operator.System.Platform.{Platform, System, pure, call, ◌>>=◌}
use wso2is_operator.Wso2.Client.Transport.{
  Client, is_success, http_error, finish, new_request, json_request,
}
use wso2is_operator.Wso2.Client.Scim.{scim_path, check_ping, ping}

abbrev pub ping_request : Client → HttpRequest
unfolding new_request json_request
ping_request c =
    new_request c "GET" (scim_path c "/api/server/v1/applications?limit=1") none json_request

abbrev pub ping_result : Result Response → Result (Unit {0})
unfolding http_error
ping_result (err e) = err ("connection failed: " <> e)
ping_result (ok resp) =
    if nat_eq resp.status_code 200
    then ok tt
    else if is_success resp.status_code
    then err ("unexpected status: " <> show_nat resp.status_code)
    else err ("connection failed: " <> http_error resp)

success_401 : (n : ℕ) → is_success n ≡ true → nat_eq n 401 ≡ false
success_401 n h = ground arith

fails_200 : (n : ℕ) → is_success n ≡ false → nat_eq n 200 ≡ false
fails_200 n h = ground arith

checked :
    {P : Platform} (r : Result Response) (s : System P)
    → check_ping (finish none tt r) s ≡ (done (ping_result r), s)
unfolding check_ping finish pure ping_result
checked (err e) s = refl
checked (ok resp) s = elim (Bool-cases (is_success resp.status_code)) [
  | inl e ↦ elim (Bool-cases (nat_eq resp.status_code 200)) [
    | inl f ↦ rw (e, success_401 _ e, f) refl
    | inr f ↦ rw (e, success_401 _ e, f) refl
  ]
  | inr e ↦ rw (e, fails_200 _ e) refl
]

-- A ping always returns. It succeeds exactly on status 200; any other good status is unexpected, and
-- an error of the exchange or a bad status is reported as a failed connection. So the message for
-- invalid credentials never appears: a status of 401 is among the bad ones.
pub ping_lem :
    (P : Platform) (c : Client) (s : System P)
    → (ping P c s).0 ≡ done (ping_result (P.send (ping_request c) s.world).0)
unfolding ping ◌>>=◌ pure call
ping_lem P c s = rw (checked (P.send (ping_request c) s.world).0 _) refl
