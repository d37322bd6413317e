-- ===== src/Oauth/Steps/Licensed.antt =====
-- The client's calls behind a license check, and renewals, move logins along their life.
use autoedge_licensing_serve.Prelude.{
  ◌≡◌, refl, sym, subst, Bool, true, false, ◌&&◌, Option, none, some, find, Bool-cases,
  Option-cases, inl, inr,
}
use autoedge_licensing_serve.Text.{Text, text, or_empty, ◌or_text◌}
use autoedge_licensing_serve.Time.{Datetime}
use autoedge_licensing_serve.Database.{Platform, Database, Customer, Device, OauthState}
use autoedge_licensing_serve.License.Outcome.{LicenseStatus}
use autoedge_licensing_serve.License.Customers.{normalize_optional_text}
use autoedge_licensing_serve.License.Lease.{Signer}
use autoedge_licensing_serve.License.Check.{CheckRequest, Response, check_license}
use autoedge_licensing_serve.Security.Primitives.{Primitives, Bytes}
use autoedge_licensing_serve.Oauth.States.{
  Fields, field, has_state, has_session, update_state, is_authorized,
}
use autoedge_licensing_serve.Oauth.Steps.Contexts.{
  claim-FollowAll, session-KeepsLogins, KeepsLogins,
}
use autoedge_licensing_serve.Oauth.Start.{Attempt, trader_check}
use autoedge_licensing_serve.Oauth.Callback.{is_blank}
use autoedge_licensing_serve.Oauth.Context
use autoedge_licensing_serve.Oauth.Context.{
  ContextAnswer, SessionDraw, not_blank, oauth_session_id, session_read, store_session, claimed,
  granted, token_read, claim_row, claim_found, claim_or_refresh_context, if_active, for_licensed,
  complete_with, complete_tradovate_oauth, refresh_context, lacks_session, with_session,
}
use autoedge_licensing_serve.Oauth.Refresh.{
  store_refresh, refresh_found, store_renewed, renewed, with_renewed,
}
use autoedge_licensing_serve.Oauth.Evolution.{FollowAll, FollowAll-refl, FollowAll-trans, stay}
use autoedge_licensing_serve.Oauth.Steps.{
  HasStateKey, check_license-states, update-FollowAll, authorized-IsOpen,
}

module _ (p : Platform) (signer : Option Signer) (prims : Primitives) (token_secret : Text)
    (draw : SessionDraw) (req : CheckRequest) (before : Database) where
  active-FollowAll :
      (status : LicenseStatus) (db : Database) (response : Response)
      (continue : Database → Text → Text → Database × Attempt ContextAnswer)
      → FollowAll before.tradovate_oauth_states db.tradovate_oauth_states
      → ((c d : Text)
          → FollowAll before.tradovate_oauth_states (continue db c d).0.tradovate_oauth_states)
      → FollowAll before.tradovate_oauth_states
          (if_active p signer prims token_secret draw req status
            (db, response)
            continue).0.tradovate_oauth_states
  active-FollowAll LicenseStatus.active db response continue f g =
      both response.customer response.device
    where
      both :
          (c : Option Customer) (d : Option Device)
          → FollowAll before.tradovate_oauth_states
              (for_licensed p signer prims token_secret draw req c d db
                (continue db)).0.tradovate_oauth_states
      both none d = f
      both (some c) none = f
      both (some c) (some d) = g c.id d.id
  active-FollowAll LicenseStatus.invalid_request db response continue f g = f
  active-FollowAll LicenseStatus.unknown_customer db response continue f g = f
  active-FollowAll LicenseStatus.device_blocked db response continue f g = f
  active-FollowAll LicenseStatus.device_limit_exceeded db response continue f g = f
  active-FollowAll LicenseStatus.revoked db response continue f g = f
  active-FollowAll LicenseStatus.suspended db response continue f g = f
  active-FollowAll LicenseStatus.expired db response continue f g = f
  active-FollowAll LicenseStatus.unlicensed db response continue f g = f

  -- behind a license check, which leaves the logins as they are
  checked-FollowAll :
      (continue : Database → Text → Text → Database × Attempt ContextAnswer)
      → HasStateKey before.tradovate_oauth_states
      → ((db : Database) (c d : Text)
          → HasStateKey db.tradovate_oauth_states
          → FollowAll db.tradovate_oauth_states (continue db c d).0.tradovate_oauth_states)
      → FollowAll before.tradovate_oauth_states
          (if_active p signer prims token_secret draw req
            (check_license p signer (trader_check req) before).1.status
            (check_license p signer (trader_check req) before)
            continue).0.tradovate_oauth_states
  checked-FollowAll continue key step =
      let (db1, response) = check_license p signer (trader_check req) before in
      let same : db1.tradovate_oauth_states ≡ before.tradovate_oauth_states =
        check_license-states p signer (trader_check req) before in
      let here : FollowAll before.tradovate_oauth_states db1.tradovate_oauth_states =
        subst (FollowAll before.tradovate_oauth_states) (sym same)
          (FollowAll-refl before.tradovate_oauth_states) in
      let key1 : HasStateKey db1.tradovate_oauth_states = subst HasStateKey (sym same) key in
      active-FollowAll response.status db1 response continue here (λ c d.
        FollowAll-trans before.tradovate_oauth_states db1.tradovate_oauth_states
          (continue db1 c d).0.tradovate_oauth_states here (step db1 c d key1))

  pub complete-FollowAll :
      (state : Text)
      → HasStateKey before.tradovate_oauth_states
      → FollowAll before.tradovate_oauth_states
          (complete_tradovate_oauth p signer prims token_secret draw req state
            before).0.tradovate_oauth_states
  unfolding complete_tradovate_oauth
  complete-FollowAll state key =
      checked-FollowAll (complete_with p signer prims token_secret draw req state) key
        (λ db c d key1.
          claim-FollowAll p prims token_secret draw req.now c d true db state none key1)

  pub refresh-FollowAll :
      (session : Option Text) (state : Text)
      → HasStateKey before.tradovate_oauth_states
      → FollowAll before.tradovate_oauth_states
          (refresh_context p signer prims token_secret draw req session state
            before).0.tradovate_oauth_states
  unfolding refresh_context
  refresh-FollowAll session state key =
      checked-FollowAll (Context.refresh_with p signer prims token_secret draw req session state)
        key
        (λ db c d key1. elim (Bool-cases (is_blank (or_empty session) && is_blank state)) [
          | inl missing ↦ rw missing (FollowAll-refl db.tradovate_oauth_states)
          | inr given ↦
              rw given
                (claim-FollowAll p prims token_secret draw req.now c d false db state session key1)
        ])

module _ (p : Platform) (prims : Primitives) (from_iso : Text → Option Datetime)
    (token_secret : Text) (tokens : Fields) (draw : SessionDraw) (nonce : Bytes) (now : Datetime)
    (db : Database) (key : HasStateKey db.tradovate_oauth_states) where
  renewed-FollowAll :
      (access_token : Text) (row : OauthState) (o : Option (Database × Text))
      → KeepsLogins db.tradovate_oauth_states o
      → FollowAll db.tradovate_oauth_states
          (renewed p prims from_iso token_secret tokens draw nonce now db access_token row
            o).0.tradovate_oauth_states
  renewed-FollowAll access_token row none k = FollowAll-refl db.tradovate_oauth_states
  renewed-FollowAll access_token row (some (db', id)) k = k

  store-FollowAll :
      (test : OauthState → Bool) (access_token : Text) {row : OauthState} (o : Option (Option Text))
      → find test db.tradovate_oauth_states ≡ some row
      → is_authorized row.status ≡ true
      → FollowAll db.tradovate_oauth_states
          (store_renewed p prims from_iso token_secret tokens draw nonce now db access_token row
            o).0.tradovate_oauth_states
  unfolding with_renewed
  store-FollowAll test access_token none found open' = FollowAll-refl db.tradovate_oauth_states
  store-FollowAll test access_token {row} (some encrypted) found open' =
      let change = with_renewed p prims from_iso token_secret tokens draw nonce now encrypted in
      let written = update-FollowAll test change db.tradovate_oauth_states key found (record {
        same_key = refl;
        same_customer = refl;
        same_device = refl;
        same_environment = refl;
        same_deadline = refl;
        move = stay;
        token = inr (authorized-IsOpen row.status open');
      }) in
      renewed-FollowAll access_token (change row) _ (
        session-KeepsLogins p prims token_secret draw db.tradovate_oauth_states
          (update_state row.state_hash change db) (change row) written)

  pub renew-FollowAll :
      (session : Option Text) (state : Text)
      → FollowAll db.tradovate_oauth_states
          (store_refresh p prims from_iso token_secret tokens draw nonce now session state
            db).0.tradovate_oauth_states
  unfolding store_refresh
  renew-FollowAll session state =
      elim (Option-cases (
        normalize_optional_text (field tokens (text "accessToken"))
        or_text normalize_optional_text (field tokens (text "access_token")))) [
          | inl e ↦ rw e (FollowAll-refl db.tradovate_oauth_states)
          | inr (access_token, e) ↦ elim (Bool-cases (not_blank session)) [
            | inl by_session ↦
                rw (e, by_session)
                  (looked_up (has_session (p.sha256_hex (or_empty session))) access_token _ refl)
            | inr by_state ↦
                rw (e, by_state) (looked_up (has_state (p.sha256_hex state)) access_token _ refl)
          ]
        ]
    where
      looked_up :
          (test : OauthState → Bool) (access_token : Text) (o : Option OauthState)
          → find test db.tradovate_oauth_states ≡ o
          → FollowAll db.tradovate_oauth_states
              (refresh_found p prims from_iso token_secret tokens draw nonce now db access_token
                o).0.tradovate_oauth_states
      looked_up test access_token none e = FollowAll-refl db.tradovate_oauth_states
      looked_up test access_token (some row) e = elim (Bool-cases (is_authorized row.status)) [
        | inl open' ↦ simp open' (store-FollowAll test access_token _ e open')
        | inr shut ↦ simp shut (FollowAll-refl db.tradovate_oauth_states)
      ]
