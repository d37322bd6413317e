-- ===== src/Oauth/Refresh.antt =====
-- `store_tradovate_oauth_refresh` of autoedge_licensing/service.py: a renewed access token.
use autoedge_licensing_serve.Prelude.{Option, none, some, [], ◌∷◌, if◌then◌else◌, ◌or◌}
use autoedge_licensing_serve.Text.{Text, text, or_empty, ◌or_text◌}
use autoedge_licensing_serve.Time.{Datetime, Stamp, iso, iso_optional}
use autoedge_licensing_serve.Database.{Platform, Database, OauthState, authorized, failed}
use autoedge_licensing_serve.Admin.{parse_time}
use autoedge_licensing_serve.License.Customers.{normalize_optional_text}
use autoedge_licensing_serve.Security.Primitives.{Primitives, Bytes}
use autoedge_licensing_serve.Security.Tokens.{encrypt_secret}
use autoedge_licensing_serve.Oauth.States.{
  Fields, field, first_text, oauth_state, oauth_session, update_state, status_message,
  is_authorized, token_expires_at,
}
use autoedge_licensing_serve.Oauth.Start.{Attempt, returned, raised, overflow_error}
use autoedge_licensing_serve.Oauth.Context.{
  ContextAnswer, denied, SessionDraw, not_blank, oauth_session_id,
}

module _ (p : Platform) (prims : Primitives) (from_iso : Text → Option Datetime)
    (token_secret : Text) (token_response : Fields) (draw : SessionDraw) (nonce : Bytes)
    (now : Datetime) where
  abbrev pub renewed_expiry : Option Stamp
  renewed_expiry = iso_optional (
      parse_time from_iso (field token_response (text "expirationTime"))
      or token_expires_at from_iso token_response now)

  unfoldable pub with_renewed : Option Text → OauthState → OauthState
  unfolding parse_time field token_expires_at first_text
  with_renewed encrypted row = record row {
    access_token_encrypted = encrypted;
    token_expires_at = renewed_expiry;
    tradovate_user_id =
        first_text token_response (text "userId" ∷ text "user_id" ∷ []) or row.tradovate_user_id;
    last_refreshed_at = some (iso now);
  }

  abbrev pub renewed :
      Database → Text → OauthState → Option (Database × Text) → Database × Attempt ContextAnswer
  renewed before access_token row none = (before, raised overflow_error)
  renewed before access_token row (some (db, session_id)) = (
    db,
    returned (record {
      status = authorized;
      message = text "Tradovate access token renewed.";
      access_token = some access_token;
      oauth_session_id = some session_id;
      user_id = row.tradovate_user_id;
      environment = some row.environment;
      expires_at = row.token_expires_at;
      token_type = row.token_type or_text some (text "Bearer");
    }),
  )

  -- The row that is read back is the one that was written.
  abbrev pub store_renewed :
      Database → Text → OauthState → Option (Option Text) → Database × Attempt ContextAnswer
  store_renewed db access_token row none = (db, raised overflow_error)
  store_renewed db access_token row (some encrypted) =
      let refreshed = with_renewed encrypted row in
      renewed db access_token refreshed (
        oauth_session_id p prims token_secret draw
          (update_state row.state_hash (with_renewed encrypted) db) refreshed)

  abbrev pub refresh_found : Database → Text → Option OauthState → Database × Attempt ContextAnswer
  refresh_found db access_token none =
      (db, returned (denied failed (text "Tradovate OAuth session is invalid.")))
  refresh_found db access_token (some row) =
      if is_authorized row.status
      then store_renewed db access_token row
          (encrypt_secret prims token_secret nonce (some access_token))
      else (db, returned (denied row.status (status_message row)))

  abbrev pub refresh_with :
      Option Text → Text → Database → Option Text → Database × Attempt ContextAnswer
  refresh_with session state db none =
      (db, returned (denied failed (text "Tradovate did not return a renewed access token.")))
  refresh_with session state db (some access_token) = refresh_found db access_token (
      if not_blank session
      then oauth_session db (p.sha256_hex (or_empty session))
      else oauth_state db (p.sha256_hex state))

  unfoldable pub store_refresh : Option Text → Text → Database → Database × Attempt ContextAnswer
  unfolding normalize_optional_text field with_renewed status_message oauth_session_id
      encrypt_secret
  store_refresh session state db = refresh_with session state db (
      normalize_optional_text (field token_response (text "accessToken"))
      or_text normalize_optional_text (field token_response (text "access_token")))
