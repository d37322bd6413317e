-- ===== src/Tests/Oauth.antt =====
-- The theorems on logins at concrete inputs: a customer's device with a login, and a license check
-- that is active.
use autoedge_licensing_serve.Prelude.{◌≡◌, refl, Option, none, some, [], ◌∷◌, arith}
use autoedge_licensing_serve.Text.{Text, text, starts_with}
use autoedge_licensing_serve.Time.{Datetime}
use autoedge_licensing_serve.Database.{Database, Customer, Device, OauthState, authorized}
use autoedge_licensing_serve.Sorting.{sort_by}
use autoedge_licensing_serve.License.Grants.{filter_grants_for_client, current_grants}
use autoedge_licensing_serve.License.Client.{normalize_client_type}
use autoedge_licensing_serve.License.Devices.{device_limit_snapshot}
use autoedge_licensing_serve.License.Outcome.{LicenseStatus}
use autoedge_licensing_serve.License.Check.{CheckRequest, check_license}
use autoedge_licensing_serve.Security.Tokens.{encrypt_secret}
use autoedge_licensing_serve.Oauth.States.{Fields, oauth_state}
use autoedge_licensing_serve.Oauth.Start.{StartRequest, trader_check, started_row, returned}
use autoedge_licensing_serve.Oauth.Callback.{Drawn, authorize_tradovate_oauth}
use autoedge_licensing_serve.Oauth.Context.{SessionDraw, ContextAnswer, complete_tradovate_oauth}
use autoedge_licensing_serve.Oauth.Calls.{run, authorize}
use autoedge_licensing_serve.Oauth.Evolution.{Evolves}
use autoedge_licensing_serve.Oauth.Lifecycle.{run-Evolves}
use autoedge_licensing_serve.Oauth.Release.{MayRelease, complete_token_bound}
use autoedge_licensing_serve.Oauth.Delivery.{complete-authorize}
use autoedge_licensing_serve.Tests.{platform, today, customer, device, database, check}
use autoedge_licensing_serve.Tests.Security.{primitives, standard, nonce}

-- the customer's own device, which counts already
abbrev own_check : CheckRequest
own_check = record check { machine_fingerprint = text "other" }

abbrev start : StartRequest
start = record {
  state = text "st";
  client_platform = none;
  channel = none;
  environment = none;
  state_seconds = 600;
}

abbrev login : OauthState
login = started_row platform none own_check start (text "live") customer device

abbrev with_login : Database
with_login = record database { tradovate_oauth_states = login ∷ [] }

abbrev tokens : Fields
tokens = (text "access_token", text "tok") ∷ (text "expires_in", text "600") ∷ []

abbrev drawn : Drawn
drawn = record {
  session_id = text "sid";
  session_nonce = nonce;
  access_nonce = nonce;
  refresh_nonce = nonce;
}

abbrev draw : SessionDraw
draw = record { session_id = text "new"; nonce = nonce }

abbrev no_iso : Text → Option Datetime
no_iso s = none

abbrev with_token : Database
with_token =
    (authorize_tradovate_oauth platform primitives no_iso (text "key") tokens [] today (text "st")
      drawn none with_login).0

run-Evolves_example :
    Evolves 0 with_login.tradovate_oauth_states
      (run platform none primitives no_iso
        (text "key")
        (authorize (text "st") tokens [] drawn none today)
        with_login).tradovate_oauth_states
run-Evolves_example =
    run-Evolves platform none primitives no_iso (text "key")
      (authorize (text "st") tokens [] drawn none today) with_login (tt, tt)

complete-authorize_example :
    (answer : ContextAnswer) × ((complete_tradovate_oauth platform none primitives
        (text "key")
        draw
        own_check
        (text "st")
        with_token).1
      ≡ returned answer)
    × (answer.status ≡ authorized)
    × (answer.access_token ≡ some (text "tok"))
    × (answer.oauth_session_id ≡ some (text "sid"))
unfolding check_license authorize_tradovate_oauth started_row encrypt_secret
    filter_grants_for_client current_grants sort_by normalize_client_type device_limit_snapshot
complete-authorize_example =
    complete-authorize platform none primitives standard no_iso (text "key") tokens [] today
      (text "st") b's' (text "id") nonce nonce nonce none with_login with_token draw own_check refl
      refl refl refl (omega arith) refl refl (omega arith) (omega arith) refl refl refl refl refl
      refl refl refl

abbrev given : ContextAnswer
given = record {
  status = authorized;
  message = text "Tradovate OAuth authorized.";
  access_token = some (text "tok");
  oauth_session_id = some (text "sid");
  user_id = none;
  environment = some (text "live");
  expires_at = some 1700000600;
  token_type = some (text "Bearer");
}

complete_token_bound_example :
    (owner : Customer) × (machine : Device) × (row : OauthState) × ((check_license platform none
        (trader_check own_check)
        with_token).1.status
      ≡ LicenseStatus.active)
    × ((check_license platform none (trader_check own_check) with_token).1.customer ≡ some owner)
    × ((check_license platform none (trader_check own_check) with_token).1.device ≡ some machine)
    × (oauth_state with_token (text "st") ≡ some row)
    × MayRelease primitives (text "key") today owner.id machine.id (text "tok") row
unfolding check_license authorize_tradovate_oauth complete_tradovate_oauth started_row
    encrypt_secret filter_grants_for_client current_grants sort_by normalize_client_type
    device_limit_snapshot starts_with
complete_token_bound_example =
    complete_token_bound platform none primitives (text "key") draw own_check (text "st") with_token
      {answer = given} refl refl
