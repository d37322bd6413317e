-- ===== src/Oauth/Start.antt =====
-- `start_tradovate_oauth` of autoedge_licensing/service.py, and `normalize_tradovate_environment` of
-- autoedge_licensing/tradovate.py.
use autoedge_licensing_serve.Prelude.{
  ℕ, ◌+◌, ◌||◌, Option, none, some, [], ◌∷◌, ◌++◌, if◌then◌else◌, max, is_some,
}
use autoedge_licensing_serve.Text.{Text, text, same_text, strip, lower, is_truthy, or_empty}
use autoedge_licensing_serve.Time.{Datetime, Stamp, iso, seconds}
use autoedge_licensing_serve.Database.{
  Platform, Database, Customer, Device, OauthState, pending, audit, string, Details,
}
use autoedge_licensing_serve.License.Outcome.{LicenseStatus}
use autoedge_licensing_serve.License.Customers.{
  normalize_email, normalize_optional_text, hash_license_key,
}
use autoedge_licensing_serve.License.Devices.{hash_fingerprint, last8}
use autoedge_licensing_serve.License.Lease.{Signer}
use autoedge_licensing_serve.License.Check.{CheckRequest, Response, check_license}
use autoedge_licensing_serve.Oauth.States.{oauth_state, cleanup_oauth_states}

-- what Python raises out of these functions
pub data Exception : Type 0 where
  value_error integrity_error overflow_error type_error : Exception

pub data Attempt {ℓ} (A : Type ℓ) : Type ℓ where
  returned : A → Attempt A
  raised : Exception → Attempt A

unfoldable pub normalize_tradovate_environment : Option Text → Option Text
unfolding strip lower same_text
normalize_tradovate_environment value =
    let cleaned = lower (strip (if is_truthy value then or_empty value else text "live")) in
    if same_text cleaned (text "live") || same_text cleaned (text "demo")
    then some cleaned
    else none

pub data StartAnswer : Type 0 where
  refused : LicenseStatus → StartAnswer
  unresolved : StartAnswer
  started : Text → Stamp → Text → Customer → Device → StartAnswer

-- the arguments beside those of the license check
pub record StartRequest : Type 0 where
  pub state : Text
  pub client_platform : Option Text
  pub channel : Option Text
  pub environment : Option Text
  pub state_seconds : ℕ

-- the license check that each of the client's calls makes first
abbrev pub trader_check : CheckRequest → CheckRequest
trader_check req = record req { client_type = some (text "trader_desktop") }

module _ (p : Platform) (signer : Option Signer) (req : CheckRequest) (start : StartRequest) where
  abbrev pub state_expiry : Datetime
  state_expiry = req.now + seconds (max 60 start.state_seconds)

  key_hash : Option Text
  unfolding hash_license_key
  key_hash =
      if is_truthy req.license_key
      then some (hash_license_key p (or_empty req.license_key))
      else none

  unfoldable pub started_row : Text → Customer → Device → OauthState
  unfolding key_hash hash_fingerprint normalize_email normalize_optional_text
  started_row environment customer device = record {
    state_hash = p.sha256_hex start.state;
    state_last8 = last8 (p.sha256_hex start.state);
    status = pending;
    environment = environment;
    customer_id = some customer.id;
    device_id = some device.id;
    license_key_hash = key_hash;
    email_normalized = normalize_email req.email;
    whop_user_id = normalize_optional_text req.whop_user_id;
    machine_fingerprint_hash = hash_fingerprint p req.machine_fingerprint;
    machine_fingerprint_last8 = last8 (hash_fingerprint p req.machine_fingerprint);
    app_version = normalize_optional_text req.app_version;
    client_platform = normalize_optional_text start.client_platform;
    channel = normalize_optional_text start.channel;
    ip_address = req.ip_address;
    user_agent = req.user_agent;
    tradovate_user_id = none;
    tradovate_user_name = none;
    tradovate_email = none;
    token_type = none;
    scopes = none;
    access_token_encrypted = none;
    refresh_token_encrypted = none;
    token_expires_at = none;
    oauth_session_hash = none;
    oauth_session_last8 = none;
    oauth_session_encrypted = none;
    failure_code = none;
    failure_message = none;
    created_at = iso req.now;
    state_expires_at = iso state_expiry;
    completed_at = none;
    claimed_at = none;
    last_refreshed_at = none;
  }

  started_details : Text → Customer → Device → Details
  started_details environment customer device =
      ("customer_id", string customer.id)
      ∷ ("device_id", string device.id)
      ∷ ("environment", string environment)
      ∷ ("state_last8", string (last8 (p.sha256_hex start.state)))
      ∷ []

  -- The INSERT raises where the state's hash is there (the table's PRIMARY KEY); the session is
  -- then rolled back.
  unfoldable pub insert_state : Text → Customer → Device → Database → Database × Attempt StartAnswer
  unfolding cleanup_oauth_states started_row audit started_details
  insert_state environment customer device db =
      let cleaned = cleanup_oauth_states req.now db in
      if is_some (oauth_state cleaned (p.sha256_hex start.state))
      then (db, raised integrity_error)
      else (
        audit p
            (record cleaned {
              tradovate_oauth_states =
                  cleaned.tradovate_oauth_states ++ started_row environment customer device ∷ [];
            })
            req.now "client" (some customer.id) "tradovate.oauth_started" "tradovate_oauth_state"
            (last8 (p.sha256_hex start.state)) (started_details environment customer device)
            req.ip_address,
        returned (started start.state (iso state_expiry) environment customer device),
      )

  abbrev pub start_resolved :
      Text → Option Customer → Option Device → Database → Database × Attempt StartAnswer
  start_resolved environment none device db = (db, returned unresolved)
  start_resolved environment (some customer) none db = (db, returned unresolved)
  start_resolved environment (some customer) (some device) db =
      insert_state environment customer device db

  abbrev pub start_checked :
      Text → LicenseStatus → Database × Response → Database × Attempt StartAnswer
  start_checked environment status (db, response) = elim status [
    | LicenseStatus.active ↦ start_resolved environment response.customer response.device db
    | other ↦ (db, returned (refused other))
  ]

  abbrev pub start_in : Option Text → Database → Database × Attempt StartAnswer
  start_in none db = (db, raised value_error)
  start_in (some environment) db =
      let checked = check_license p signer (trader_check req) db in
      start_checked environment checked.1.status checked

  unfoldable pub start_tradovate_oauth : Database → Database × Attempt StartAnswer
  unfolding normalize_tradovate_environment check_license insert_state
  start_tradovate_oauth = start_in (normalize_tradovate_environment start.environment)
