-- ===== src/Oauth/Lifecycle.antt =====
-- Every call follows the life of a login.
use autoedge_licensing_serve.Prelude.{
  ◌-◌, ◌≡◌, refl, subst, not, Option, none, some, List, Bool-cases, inl, inr, is_some,
}
use autoedge_licensing_serve.Text.{Text}
use autoedge_licensing_serve.Time.{Datetime, Stamp, iso, days}
use autoedge_licensing_serve.Database.{Platform, Database, audit, Customer, Device, OauthState}
use autoedge_licensing_serve.License.Outcome.{LicenseStatus}
use autoedge_licensing_serve.License.Lease.{Signer}
use autoedge_licensing_serve.License.Check.{CheckRequest, Response, check_license}
use autoedge_licensing_serve.Security.Primitives.{Primitives}
use autoedge_licensing_serve.Oauth.States.{
  oauth_state, cleanup_oauth_states, is_lapsed, is_old, with_expired,
}
use autoedge_licensing_serve.Oauth.Calls.{
  Call, start, callback, fail_login, authorize, complete, refresh, renew, run,
}
use autoedge_licensing_serve.Oauth.Steps.Callbacks.{
  failed-FollowAll, callback-FollowAll, authorize-FollowAll,
}
use autoedge_licensing_serve.Oauth.Steps.Licensed.{
  complete-FollowAll, refresh-FollowAll, renew-FollowAll,
}
use autoedge_licensing_serve.Oauth.Start.{
  StartRequest, start_tradovate_oauth, start_in, start_checked, start_resolved, insert_state,
  started_row, trader_check, normalize_tradovate_environment,
}
use autoedge_licensing_serve.Oauth.Evolution.{
  Evolves, Evolves-refl, FollowAll-Evolves, Evolves-delete,
}
use autoedge_licensing_serve.Oauth.Steps.{
  HasStateKey, check_license-states, lapsed-Follows, old-IsStale,
}

module _ (p : Platform) (signer : Option Signer) (req : CheckRequest) (s : StartRequest) where
  abbrev limit : Stamp
  limit = iso (req.now - days 7)

  inserted-Evolves :
      (environment : Text) (customer : Customer) (device : Device) (db : Database)
      → Evolves limit db.tradovate_oauth_states
          (insert_state p signer req s environment customer device db).0.tradovate_oauth_states
  unfolding insert_state cleanup_oauth_states audit started_row
  inserted-Evolves environment customer device db =
      elim (Bool-cases
        (is_some (oauth_state (cleanup_oauth_states req.now db) (p.sha256_hex s.state)))) [
          | inl clash ↦ rw clash (Evolves-refl limit db.tradovate_oauth_states)
          | inr free ↦ rw free (
              Evolves-delete limit (is_lapsed req.now) (λ row. not (is_old req.now row))
                (with_expired req.now) _ (lapsed-Follows req.now) (old-IsStale req.now) (refl, tt)
                db.tradovate_oauth_states)
        ]

  resolved-Evolves :
      (before db : Database) (environment : Text) (customer : Option Customer)
      (device : Option Device)
      → db.tradovate_oauth_states ≡ before.tradovate_oauth_states
      → Evolves limit before.tradovate_oauth_states
          (start_resolved p signer req s environment customer device db).0.tradovate_oauth_states
  resolved-Evolves before db environment none device e =
      rw e (Evolves-refl limit before.tradovate_oauth_states)
  resolved-Evolves before db environment (some customer) none e =
      rw e (Evolves-refl limit before.tradovate_oauth_states)
  resolved-Evolves before db environment (some customer) (some device) e =
      subst
        (λ (rows : List OauthState).
          Evolves limit rows
            (insert_state p signer req s environment customer device db).0.tradovate_oauth_states)
        e (inserted-Evolves environment customer device db)

  checked-Evolves :
      (before db : Database) (environment : Text) (status : LicenseStatus) (response : Response)
      → db.tradovate_oauth_states ≡ before.tradovate_oauth_states
      → Evolves limit before.tradovate_oauth_states
          (start_checked p signer req s environment status (db, response)).0.tradovate_oauth_states
  checked-Evolves before db environment LicenseStatus.active response e =
      resolved-Evolves before db environment response.customer response.device e
  checked-Evolves before db environment LicenseStatus.invalid_request response e =
      rw e (Evolves-refl limit before.tradovate_oauth_states)
  checked-Evolves before db environment LicenseStatus.unknown_customer response e =
      rw e (Evolves-refl limit before.tradovate_oauth_states)
  checked-Evolves before db environment LicenseStatus.device_blocked response e =
      rw e (Evolves-refl limit before.tradovate_oauth_states)
  checked-Evolves before db environment LicenseStatus.device_limit_exceeded response e =
      rw e (Evolves-refl limit before.tradovate_oauth_states)
  checked-Evolves before db environment LicenseStatus.revoked response e =
      rw e (Evolves-refl limit before.tradovate_oauth_states)
  checked-Evolves before db environment LicenseStatus.suspended response e =
      rw e (Evolves-refl limit before.tradovate_oauth_states)
  checked-Evolves before db environment LicenseStatus.expired response e =
      rw e (Evolves-refl limit before.tradovate_oauth_states)
  checked-Evolves before db environment LicenseStatus.unlicensed response e =
      rw e (Evolves-refl limit before.tradovate_oauth_states)

  start-Evolves :
      (db : Database)
      → Evolves limit db.tradovate_oauth_states
          (start_tradovate_oauth p signer req s db).0.tradovate_oauth_states
  unfolding start_tradovate_oauth
  start-Evolves db = named (normalize_tradovate_environment s.environment)
    where
      named :
          (o : Option Text)
          → Evolves limit db.tradovate_oauth_states
              (start_in p signer req s o db).0.tradovate_oauth_states
      named none = Evolves-refl limit db.tradovate_oauth_states
      named (some environment) =
          checked-Evolves db (check_license p signer (trader_check req) db).0 environment
            (check_license p signer (trader_check req) db).1.status
            (check_license p signer (trader_check req) db).1
            (check_license-states p signer (trader_check req) db)

-- the time before which a call may delete a login: a week before its start, else none
abbrev pub deletes_before : Call → Stamp
deletes_before (start req s) = iso (req.now - days 7)
deletes_before _ = 0

module _ (p : Platform) (signer : Option Signer) (prims : Primitives)
    (from_iso : Text → Option Datetime) (token_secret : Text) where
  -- Every call refines the life of a login. After any call on logins, raising ones included, each
  -- login of the table, in its order, is there with its key, account, device, environment and
  -- deadline; only the start of a login may have deleted it, and then it was not authorized and was
  -- made more than seven days ago. Its status has not moved but from pending to authorized or
  -- expired, from authorized to expired, or to failed; a login that was expired or failed has got
  -- no access token; and what is new stands behind and is pending. No two logins share a key
  -- before.
  pub run-Evolves :
      (c : Call) (db : Database)
      → HasStateKey db.tradovate_oauth_states
      → Evolves
          (deletes_before c)
          db.tradovate_oauth_states
          (run p signer prims from_iso token_secret c db).tradovate_oauth_states
  unfolding run
  run-Evolves (start req s) db key = start-Evolves p signer req s db
  run-Evolves (callback state now) db key =
      FollowAll-Evolves 0 _ _ (callback-FollowAll p now state db key)
  run-Evolves (fail_login state code message ip now) db key =
      FollowAll-Evolves 0 _ _ (failed-FollowAll p now state code message ip db)
  run-Evolves (authorize state tokens me drawn ip now) db key =
      FollowAll-Evolves 0 _ _
        (authorize-FollowAll p prims from_iso token_secret tokens me now state drawn ip db key)
  run-Evolves (complete state req draw) db key =
      FollowAll-Evolves 0 _ _ (complete-FollowAll p signer prims token_secret draw req db state key)
  run-Evolves (refresh session state req draw) db key =
      FollowAll-Evolves 0 _ _
        (refresh-FollowAll p signer prims token_secret draw req db session state key)
  run-Evolves (renew session state tokens draw nonce now) db key =
      FollowAll-Evolves 0 _ _
        (renew-FollowAll p prims from_iso token_secret tokens draw nonce now db key session state)
