-- ===== src/Oauth/Calls.antt =====
-- The calls of autoedge_licensing/service.py on logins as one function.
use autoedge_licensing_serve.Prelude.{Option}
use autoedge_licensing_serve.Text.{Text}
use autoedge_licensing_serve.Time.{Datetime}
use autoedge_licensing_serve.Database.{Platform, Database}
use autoedge_licensing_serve.License.Lease.{Signer}
use autoedge_licensing_serve.License.Check.{CheckRequest}
use autoedge_licensing_serve.Security.Primitives.{Primitives, Bytes}
use autoedge_licensing_serve.Oauth.States.{Fields}
use autoedge_licensing_serve.Oauth.Start.{StartRequest, start_tradovate_oauth}
use autoedge_licensing_serve.Oauth.Callback.{
  Drawn, callback_context, fail_tradovate_oauth, authorize_tradovate_oauth,
}
use autoedge_licensing_serve.Oauth.Context.{SessionDraw, complete_tradovate_oauth, refresh_context}
use autoedge_licensing_serve.Oauth.Refresh.{store_refresh}

-- the calls of the service that read or write logins, with their arguments, what they draw and the
-- clock's reading
pub data Call : Type 0 where
  start : CheckRequest → StartRequest → Call
  callback : Text → Datetime → Call
  fail_login : Text → Option Text → Option Text → Option Text → Datetime → Call
  authorize : Text → Fields → Fields → Drawn → Option Text → Datetime → Call
  complete : Text → CheckRequest → SessionDraw → Call
  refresh : Option Text → Text → CheckRequest → SessionDraw → Call
  renew : Option Text → Text → Fields → SessionDraw → Bytes → Datetime → Call

module _ (p : Platform) (signer : Option Signer) (prims : Primitives)
    (from_iso : Text → Option Datetime) (token_secret : Text) where
  unfoldable pub run : Call → Database → Database
  unfolding start_tradovate_oauth callback_context fail_tradovate_oauth authorize_tradovate_oauth
      complete_tradovate_oauth refresh_context store_refresh
  run (start req s) db = (start_tradovate_oauth p signer req s db).0
  run (callback state now) db = (callback_context p now state db).0
  run (fail_login state code message ip now) db =
      (fail_tradovate_oauth p now state code message ip db).0
  run (authorize state tokens me drawn ip now) db =
      (authorize_tradovate_oauth p prims from_iso token_secret tokens me now state drawn ip db).0
  run (complete state req draw) db =
      (complete_tradovate_oauth p signer prims token_secret draw req state db).0
  run (refresh session state req draw) db =
      (refresh_context p signer prims token_secret draw req session state db).0
  run (renew session state tokens draw nonce now) db =
      (store_refresh p prims from_iso token_secret tokens draw nonce now session state db).0
