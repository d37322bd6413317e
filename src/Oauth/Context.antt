-- ===== src/Oauth/Context.antt =====
-- What a client is given of its login: `_tradovate_oauth_claim_or_refresh_context`,
-- `_tradovate_oauth_session_id`, `complete_tradovate_oauth` and `tradovate_oauth_refresh_context` of
-- autoedge_licensing/service.py.
use autoedge_licensing_serve.Prelude.{
  Bool, true, false, not, ◌&&◌, ◌||◌, Option, none, some, if◌then◌else◌, ◌or◌, update_where,
  is_some,
}
use autoedge_licensing_serve.Text.{Text, text, same_optional, is_truthy, or_empty, ◌or_text◌}
use autoedge_licensing_serve.Time.{Datetime, Stamp, iso}
use autoedge_licensing_serve.Database.{
  Platform, Database, Customer, Device, OauthStatus, OauthState, authorized, failed, expired,
}
use autoedge_licensing_serve.License.Outcome.{LicenseStatus}
use autoedge_licensing_serve.License.Devices.{last8}
use autoedge_licensing_serve.License.Lease.{Signer}
use autoedge_licensing_serve.License.Check.{CheckRequest, Response, check_license}
use autoedge_licensing_serve.Security.Primitives.{Primitives, Bytes}
use autoedge_licensing_serve.Security.Tokens.{encrypt_secret, decrypt_secret}
use autoedge_licensing_serve.Oauth.States.{
  oauth_state, oauth_session, has_state, update_state, expire_row_if_needed, status_message,
  is_authorized,
}
use autoedge_licensing_serve.Oauth.Start.{
  Attempt, returned, raised, overflow_error, type_error, trader_check,
}
use autoedge_licensing_serve.Oauth.Callback.{is_blank}

pub record ContextAnswer : Type 0 where
  pub status : OauthStatus
  pub message : Text
  pub access_token : Option Text
  pub oauth_session_id : Option Text
  pub user_id : Option Text
  pub environment : Option Text
  pub expires_at : Option Stamp
  pub token_type : Option Text

abbrev pub denied : OauthStatus → Text → ContextAnswer
denied status message = record {
  status = status;
  message = message;
  access_token = none;
  oauth_session_id = none;
  user_id = none;
  environment = none;
  expires_at = none;
  token_type = none;
}

-- `random_token()` and a nonce, drawn if the row has no session id that can be read
pub record SessionDraw : Type 0 where
  pub session_id : Text
  pub nonce : Bytes

abbrev pub not_blank : Option Text → Bool
not_blank value = not (is_blank (or_empty value))

-- UPDATE … WHERE state_hash = ? AND oauth_session_hash IS NULL
abbrev pub lacks_session : Text → OauthState → Bool
lacks_session state_hash row = has_state state_hash row && not (is_some row.oauth_session_hash)

abbrev pub with_session : Text → Option Text → OauthState → OauthState
with_session session_hash encrypted row = record row {
  oauth_session_hash = some session_hash;
  oauth_session_last8 = some (last8 session_hash);
  oauth_session_encrypted = encrypted;
}

module _ (p : Platform) (prims : Primitives) (token_secret : Text) (draw : SessionDraw) where
  abbrev pub store_session : Database → OauthState → Option (Option Text) → Option (Database × Text)
  store_session db row none = none
  store_session db row (some encrypted) = some (
    record db {
      tradovate_oauth_states =
          update_where (lacks_session row.state_hash)
            (with_session (p.sha256_hex draw.session_id) encrypted) db.tradovate_oauth_states;
    },
    draw.session_id,
  )

  abbrev pub session_read : Database → OauthState → Option (Option Text) → Option (Database × Text)
  session_read db row none = none
  session_read db row (some stored) =
      if is_truthy stored
      then some (db, or_empty stored)
      else store_session db row
          (encrypt_secret prims token_secret draw.nonce (some draw.session_id))

  -- none where the encryption or the decryption raises
  unfoldable pub oauth_session_id : Database → OauthState → Option (Database × Text)
  unfolding encrypt_secret decrypt_secret
  oauth_session_id db row =
      session_read db row (decrypt_secret prims token_secret row.oauth_session_encrypted)

  module _ (now : Datetime) (customer_id device_id : Text) (mark_claimed : Bool) where
    abbrev pub claimed : Database → OauthState → Database
    claimed db row =
        if mark_claimed
        then update_state row.state_hash
            (λ r. record r { claimed_at = r.claimed_at or some (iso now) }) db
        else db

    abbrev pub granted :
        Database
        → OauthState
        → Option Text
        → Option (Database × Text)
        → Database × Attempt ContextAnswer
    granted before row access_token none = (before, raised overflow_error)
    granted before row access_token (some (db, session_id)) =
        if not (is_truthy access_token)
        then (
          db,
          returned (record (denied failed (text "Stored Tradovate token could not be read.")) {
            user_id = row.tradovate_user_id;
            environment = some row.environment;
            expires_at = row.token_expires_at;
          }),
        )
        else (
          claimed db row,
          returned (record {
            status = authorized;
            message = text "Tradovate OAuth authorized.";
            access_token = access_token;
            oauth_session_id = some session_id;
            user_id = row.tradovate_user_id;
            environment = some row.environment;
            expires_at = row.token_expires_at;
            token_type = row.token_type or_text some (text "Bearer");
          }),
        )

    abbrev pub token_read :
        Database → Database → OauthState → Option (Option Text) → Database × Attempt ContextAnswer
    token_read before db row none = (before, raised overflow_error)
    token_read before db row (some access_token) =
        granted before row access_token (oauth_session_id db row)

    -- the row after its expiry was looked at
    abbrev pub claim_row : Database → Database × OauthState → Database × Attempt ContextAnswer
    claim_row before (db, row) =
        if not (same_optional row.customer_id (some customer_id))
          || not (same_optional row.device_id (some device_id))
        then (
          db,
          returned
              (record (denied failed
                (text "Tradovate OAuth login does not match this license/device.")) {
                  environment = some row.environment;
                  expires_at = row.token_expires_at;
                }),
        )
        else (if not (is_authorized row.status)
            then (
              db,
              returned (record (denied row.status (status_message row)) {
                user_id = row.tradovate_user_id;
                environment = some row.environment;
                expires_at = row.token_expires_at;
              }),
            )
            else token_read before db row
                (decrypt_secret prims token_secret row.access_token_encrypted))

    abbrev pub claim_found : Bool → Database → Option OauthState → Database × Attempt ContextAnswer
    claim_found by_session db none = (
      db,
      returned (
          denied expired (
            if by_session
            then text "Tradovate OAuth session was not found."
            else text "Tradovate OAuth login was not found.")),
    )
    claim_found by_session db (some row) = claim_row db (expire_row_if_needed now db row)

    -- both callers include the access token
    unfoldable pub claim_or_refresh_context :
        Text → Option Text → Database → Database × Attempt ContextAnswer
    unfolding oauth_session_id expire_row_if_needed status_message decrypt_secret
    claim_or_refresh_context state session db =
        if not_blank session
        then claim_found true db (oauth_session db (p.sha256_hex (or_empty session)))
        else (if is_blank state
            then (db, returned (denied failed (text "OAuth state is missing.")))
            else claim_found false db (oauth_state db (p.sha256_hex state)))

module _ (p : Platform) (signer : Option Signer) (prims : Primitives) (token_secret : Text)
    (draw : SessionDraw) (req : CheckRequest) where
  abbrev pub inactive : ContextAnswer
  inactive = denied failed (text "License is not active for Tradovate OAuth.")

  -- `license_response["customer"]["id"]`; an active response has both (`check_license_active`)
  abbrev pub for_licensed :
      Option Customer
      → Option Device
      → Database
      → (Text → Text → Database × Attempt ContextAnswer)
      → Database × Attempt ContextAnswer
  for_licensed none device db continue = (db, raised type_error)
  for_licensed (some customer) none db continue = (db, raised type_error)
  for_licensed (some customer) (some device) db continue = continue customer.id device.id

  abbrev pub if_active :
      LicenseStatus
      → Database × Response
      → (Database → Text → Text → Database × Attempt ContextAnswer)
      → Database × Attempt ContextAnswer
  if_active status (db, response) continue = elim status [
    | LicenseStatus.active ↦ for_licensed response.customer response.device db (continue db)
    | other ↦ (db, returned inactive)
  ]

  abbrev pub complete_with : Text → Database → Text → Text → Database × Attempt ContextAnswer
  complete_with state db customer_id device_id =
      claim_or_refresh_context p prims token_secret draw req.now customer_id device_id true state
        none db

  unfoldable pub complete_tradovate_oauth : Text → Database → Database × Attempt ContextAnswer
  unfolding claim_or_refresh_context check_license
  complete_tradovate_oauth state db =
      let checked = check_license p signer (trader_check req) db in
      if_active checked.1.status checked (complete_with state)

  abbrev pub refresh_with :
      Option Text → Text → Database → Text → Text → Database × Attempt ContextAnswer
  refresh_with session state db customer_id device_id =
      if is_blank (or_empty session) && is_blank state
      then (db, returned (denied failed (text "OAuth session id is missing.")))
      else claim_or_refresh_context p prims token_secret draw req.now customer_id device_id false
          state session db

  unfoldable pub refresh_context : Option Text → Text → Database → Database × Attempt ContextAnswer
  unfolding claim_or_refresh_context check_license
  refresh_context session state db =
      let checked = check_license p signer (trader_check req) db in
      if_active checked.1.status checked (refresh_with session state)
