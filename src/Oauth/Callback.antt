-- ===== src/Oauth/Callback.antt =====
-- The browser's return from Tradovate: `tradovate_oauth_callback_context`, `fail_tradovate_oauth` and
-- `authorize_tradovate_oauth` of autoedge_licensing/service.py.
use autoedge_licensing_serve.Prelude.{Bool, not, Option, none, some, [], ◌∷◌, if◌then◌else◌, take}
use autoedge_licensing_serve.Text.{Text, text, strip, is_truthy, or_empty, ◌or_text◌}
use autoedge_licensing_serve.Time.{Datetime, Stamp, iso, iso_optional}
use autoedge_licensing_serve.Database.{
  Platform, Database, OauthStatus, OauthState, pending, authorized, failed, audit, string, Details,
}
use autoedge_licensing_serve.License.Customers.{normalize_optional_text}
use autoedge_licensing_serve.License.Devices.{last8}
use autoedge_licensing_serve.Security.Primitives.{Primitives, Bytes}
use autoedge_licensing_serve.Security.Tokens.{encrypt_secret}
use autoedge_licensing_serve.Oauth.States.{
  Fields, field, first_text, oauth_state, update_state, expire_row_if_needed, status_message,
  is_pending, token_expires_at, text_value, stamp_value,
}
use autoedge_licensing_serve.Oauth.Start.{Attempt, returned, raised, overflow_error}

pub record CallbackAnswer : Type 0 where
  pub status : OauthStatus
  pub message : Option Text
  pub environment : Option Text
  pub state_last8 : Option Text

abbrev pub plain_answer : OauthStatus → Text → CallbackAnswer
plain_answer status message = record {
  status = status;
  message = some message;
  environment = none;
  state_last8 = none;
}

abbrev pub is_blank : Text → Bool
is_blank s = not (is_truthy (some (strip s)))

module _ (p : Platform) (now : Datetime) where
  abbrev pub context_of : Database × OauthState → Database × CallbackAnswer
  context_of (db, row) = (
    db,
    if is_pending row.status
        then record {
          status = pending;
          message = none;
          environment = some row.environment;
          state_last8 = some row.state_last8;
        }
        else record {
          status = row.status;
          message = some (status_message row);
          environment = some row.environment;
          state_last8 = none;
        },
  )

  abbrev pub context_found : Database → Option OauthState → Database × CallbackAnswer
  context_found db none = (db, plain_answer failed (text "OAuth state is invalid."))
  context_found db (some row) = context_of (expire_row_if_needed now db row)

  unfoldable pub callback_context : Text → Database → Database × CallbackAnswer
  unfolding expire_row_if_needed status_message strip
  callback_context state db =
      if is_blank state
      then (db, plain_answer failed (text "OAuth state is missing."))
      else context_found db (oauth_state db (p.sha256_hex state))

  abbrev pub with_failed : Text → Text → OauthState → OauthState
  with_failed code message row = record row {
    status = failed;
    failure_code = some code;
    failure_message = some message;
    completed_at = some (iso now);
  }

  abbrev pub fail_found :
      Text → Text → Text → Option Text → Database → Option OauthState → Database × CallbackAnswer
  fail_found state_hash code message ip_address db none =
      (db, plain_answer failed (text "OAuth state is invalid."))
  fail_found state_hash code message ip_address db (some row) = (
    audit p (update_state state_hash (with_failed code message) db) now "client" row.customer_id
        "tradovate.oauth_failed" "tradovate_oauth_state" row.state_last8
        (("environment", string row.environment) ∷ ("failure_code", string code) ∷ []) ip_address,
    plain_answer failed message,
  )

  unfoldable pub fail_tradovate_oauth :
      Text → Option Text → Option Text → Option Text → Database → Database × CallbackAnswer
  unfolding normalize_optional_text audit
  fail_tradovate_oauth state failure_code failure_message ip_address db =
      let code =
        or_empty (normalize_optional_text failure_code or_text some (text "oauth_failed")) in
      let message = take 300 (
        or_empty (
          normalize_optional_text failure_message or_text some (text "Tradovate OAuth failed."))) in
      fail_found (p.sha256_hex state) code message ip_address db
        (oauth_state db (p.sha256_hex state))

-- What a call of `authorize_tradovate_oauth` draws: `random_token()`, and three nonces.
pub record Drawn : Type 0 where
  pub session_id : Text
  pub session_nonce : Bytes
  pub access_nonce : Bytes
  pub refresh_nonce : Bytes

module _ (p : Platform) (prims : Primitives) (from_iso : Text → Option Datetime)
    (token_secret : Text) (token_response me_response : Fields) (now : Datetime) where
  abbrev pub user_id_of : Option Text
  user_id_of =
      first_text me_response (text "userId" ∷ text "user_id" ∷ [])
      or_text first_text token_response (text "userId" ∷ text "user_id" ∷ [])

  abbrev pub expires_at_of : Option Stamp
  expires_at_of = iso_optional (token_expires_at from_iso token_response now)

  unfoldable pub with_authorized :
      Text → Option Text → Option Text → Option Text → OauthState → OauthState
  unfolding first_text token_expires_at
  with_authorized session_hash session_encrypted access_encrypted refresh_encrypted row =
      record row {
        status = authorized;
        oauth_session_hash = some session_hash;
        oauth_session_last8 = some (last8 session_hash);
        oauth_session_encrypted = session_encrypted;
        tradovate_user_id = user_id_of;
        tradovate_user_name = first_text me_response (text "fullName" ∷ text "name" ∷ []);
        tradovate_email = first_text me_response (text "email" ∷ []);
        token_type =
            first_text token_response (text "token_type" ∷ []) or_text some (text "Bearer");
        scopes = first_text token_response (text "scope" ∷ text "scopes" ∷ []);
        access_token_encrypted = access_encrypted;
        refresh_token_encrypted = refresh_encrypted;
        token_expires_at = expires_at_of;
        completed_at = some (iso now);
      }

  unfoldable pub authorized_details : OauthState → Details
  unfolding first_text token_expires_at
  authorized_details row =
      ("environment", string row.environment)
      ∷ ("tradovate_user_id", text_value user_id_of)
      ∷ ("token_expires_at", stamp_value p.iso_text expires_at_of)
      ∷ []

  -- The three encryptions; where one raises, the session is rolled back.
  abbrev pub store_tokens :
      Database
      → Database
      → Text
      → Text
      → Option Text
      → OauthState
      → Option (Option Text)
      → Option (Option Text)
      → Option (Option Text)
      → Database × Attempt CallbackAnswer
  store_tokens before db state_hash session_id ip_address row none access refresh =
      (before, raised overflow_error)
  store_tokens before db state_hash session_id ip_address row (some session) none refresh =
      (before, raised overflow_error)
  store_tokens before db state_hash session_id ip_address row (some session) (some access) none =
      (before, raised overflow_error)
  store_tokens before db state_hash session_id ip_address row (some session) (some access)
        (some refresh) =
      (
        audit p
            (update_state state_hash
              (with_authorized (p.sha256_hex session_id) session access refresh) db)
            now "client" row.customer_id "tradovate.oauth_authorized" "tradovate_oauth_state"
            row.state_last8 (authorized_details row) ip_address,
        returned (plain_answer authorized (text "Tradovate OAuth authorized.")),
      )

  module _ (state : Text) (drawn : Drawn) (ip_address : Option Text) where
    abbrev pub authorize_pending :
        Database → Text → Database × OauthState → Database × Attempt CallbackAnswer
    authorize_pending before access_token (db, row) =
        if is_pending row.status
        then store_tokens before db (p.sha256_hex state) drawn.session_id ip_address row
            (encrypt_secret prims token_secret drawn.session_nonce (some drawn.session_id))
            (encrypt_secret prims token_secret drawn.access_nonce (some access_token))
            (encrypt_secret prims token_secret drawn.refresh_nonce
              (normalize_optional_text (field token_response (text "refresh_token"))))
        else (db, returned (plain_answer row.status (status_message row)))

    abbrev pub authorize_found :
        Database → Text → Option OauthState → Database × Attempt CallbackAnswer
    authorize_found db access_token none =
        (db, returned (plain_answer failed (text "OAuth state is invalid.")))
    authorize_found db access_token (some row) =
        authorize_pending db access_token (expire_row_if_needed now db row)

    abbrev pub as_returned : Database × CallbackAnswer → Database × Attempt CallbackAnswer
    as_returned (db, a) = (db, returned a)

    abbrev pub authorize_with : Database → Option Text → Database × Attempt CallbackAnswer
    authorize_with db none = as_returned (
        fail_tradovate_oauth p now state (some (text "missing_access_token"))
          (some (text "Tradovate did not return an access token.")) ip_address db)
    authorize_with db (some access_token) =
        authorize_found db access_token (oauth_state db (p.sha256_hex state))

    unfoldable pub authorize_tradovate_oauth : Database → Database × Attempt CallbackAnswer
    unfolding normalize_optional_text field fail_tradovate_oauth expire_row_if_needed status_message
        audit with_authorized authorized_details encrypt_secret
    authorize_tradovate_oauth db =
        authorize_with db (normalize_optional_text (field token_response (text "access_token")))
