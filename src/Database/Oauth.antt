-- ===== src/Database/Oauth.antt =====
-- The rows of tradovate_oauth_states (migrations/010_tradovate_oauth.sql and
-- 011_tradovate_oauth_sessions.sql), without the JSON column metadata_json and the column
-- authorization_url, which the code never writes.
use autoedge_licensing_serve.Prelude.{Option}
use autoedge_licensing_serve.Text.{Text}
use autoedge_licensing_serve.Time.{Stamp}

pub data OauthStatus : Type 0 where
  pending authorized failed expired : OauthStatus

pub record OauthState : Type 0 where
  pub state_hash : Text
  pub state_last8 : Text
  pub status : OauthStatus
  pub environment : Text
  pub customer_id : Option Text
  pub device_id : Option Text
  pub license_key_hash : Option Text
  pub email_normalized : Option Text
  pub whop_user_id : Option Text
  pub machine_fingerprint_hash : Text
  pub machine_fingerprint_last8 : Text
  pub app_version : Option Text
  pub client_platform : Option Text
  pub channel : Option Text
  pub ip_address : Option Text
  pub user_agent : Option Text
  pub tradovate_user_id : Option Text
  pub tradovate_user_name : Option Text
  pub tradovate_email : Option Text
  pub token_type : Option Text
  pub scopes : Option Text
  pub access_token_encrypted : Option Text
  pub refresh_token_encrypted : Option Text
  pub token_expires_at : Option Stamp
  pub oauth_session_hash : Option Text
  pub oauth_session_last8 : Option Text
  pub oauth_session_encrypted : Option Text
  pub failure_code : Option Text
  pub failure_message : Option Text
  pub created_at : Stamp
  pub state_expires_at : Stamp
  pub completed_at : Option Stamp
  pub claimed_at : Option Stamp
  pub last_refreshed_at : Option Stamp
