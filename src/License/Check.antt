-- ===== src/License/Check.antt =====
-- `check_license`, `_license_response` and `_record_check` of autoedge_licensing/service.py. The
-- messages of the answers are left out.
pub mod Active
pub mod Answer
use autoedge_licensing_serve.Prelude.{
  ℕ, ◌+◌, String, Bool, true, false, not, ◌&&◌, ◌||◌, Option, none, some, List, [], ◌∷◌, ◌++◌,
  get_or, min, leb, ltb, if◌then◌else◌, filter_by, is_some,
}
use autoedge_licensing_serve.Text.{Text, text, strip, is_truthy, ◌or_text◌, or_empty}
use autoedge_licensing_serve.Time.{Datetime, Stamp, iso, seconds}
use autoedge_licensing_serve.Database.{
  Platform, Database, Customer, Device, LicenseCheck, fresh_id, count_id, audit, string, number,
  flag, Details,
}
use autoedge_licensing_serve.License.Client.{
  ClientType, trader_desktop, nt8, unknown, client_text, normalize_client_type,
}
use autoedge_licensing_serve.License.Outcome.{LicenseStatus}
use autoedge_licensing_serve.License.Customers.{find_customer}
use autoedge_licensing_serve.License.Devices.{
  DeviceLimit, upsert_device, device_limit_snapshot, mark_device_licensed,
}
use autoedge_licensing_serve.License.Grants.{
  Grant, current_grants, filter_grants_for_client, blocking_status,
}
use autoedge_licensing_serve.License.States.{State, entitlement_states}
use autoedge_licensing_serve.License.Lease.{
  Lease, Signer, finite_expiries, earliest, issue_trader_license_lease,
}

-- the arguments of a call, and the clock's reading
pub record CheckRequest : Type 0 where
  pub license_key : Option Text
  pub email : Option Text
  pub customer_id : Option Text
  pub whop_user_id : Option Text
  pub machine_fingerprint : Text
  pub app_version : Option Text
  pub ip_address : Option Text
  pub user_agent : Option Text
  pub check_interval_seconds : ℕ
  pub grace_period_seconds : ℕ
  pub client_type : Option Text
  pub max_devices : ℕ
  pub now : Datetime

pub record Response : Type 0 where
  pub status : LicenseStatus
  pub server_time : Stamp
  pub customer : Option Customer
  pub device : Option Device
  pub licensed_strategies : List Grant
  pub entitlement_states : List State
  pub expires_at : Option Stamp
  pub next_check_at : Stamp
  pub next_check_seconds : ℕ
  pub grace_period_seconds : ℕ
  pub device_limit : Option DeviceLimit
  pub license_lease : Option Lease

abbrev pub first_expiry : List Stamp → Option Stamp
first_expiry [] = none
first_expiry (s ∷ expiries) = some (earliest s expiries)

abbrev pub status_text : LicenseStatus → Text
status_text LicenseStatus.invalid_request = text "invalid_request"
status_text LicenseStatus.unknown_customer = text "unknown_customer"
status_text LicenseStatus.device_blocked = text "device_blocked"
status_text LicenseStatus.device_limit_exceeded = text "device_limit_exceeded"
status_text LicenseStatus.active = text "active"
status_text LicenseStatus.revoked = text "revoked"
status_text LicenseStatus.suspended = text "suspended"
status_text LicenseStatus.expired = text "expired"
status_text LicenseStatus.unlicensed = text "unlicensed"

abbrev pub device_over_limit : DeviceLimit → Bool
device_over_limit limit =
    (not limit.device_is_counted && leb limit.max_devices limit.active_devices)
    || (limit.device_is_counted && not limit.device_is_within_limit)

module _ (p : Platform) (signer : Option Signer) (req : CheckRequest) where
  abbrev pub client : ClientType
  client = normalize_client_type req.client_type

  unfoldable pub license_response :
      LicenseStatus
      → List Grant
      → Option Customer
      → Option Device
      → Option DeviceLimit
      → List State
      → Option Lease
      → Response
  unfolding finite_expiries earliest
  license_response status grants customer device device_limit states lease = record {
    status = status;
    server_time = iso req.now;
    customer = customer;
    device = device;
    licensed_strategies = grants;
    entitlement_states = states;
    expires_at = first_expiry (finite_expiries grants);
    next_check_at = iso (req.now + seconds req.check_interval_seconds);
    next_check_seconds = req.check_interval_seconds;
    grace_period_seconds = req.grace_period_seconds;
    device_limit = device_limit;
    license_lease = lease;
  }

  unfoldable pub record_check : Database → Option Text → Option Text → Text → Response → Database
  record_check db customer_id device_id identifier response = record (count_id p db) {
    license_checks =
        db.license_checks
        ++ record {
          id = fresh_id p db;
          customer_id = customer_id;
          device_id = device_id;
          request_identifier = identifier;
          app_version = req.app_version;
          client_type = client_text client;
          ip_address = req.ip_address;
          user_agent = req.user_agent;
          status = status_text response.status;
          created_at = iso req.now;
        }
          ∷ [];
  }

  -- the record of a check of a known customer's device, and the answer
  abbrev pub answer : Database → Customer → Device → Response → Database × Response
  answer db customer device response = (
    record_check db (some customer.id) (some device.id)
        (or_empty (customer.email or_text some customer.id)) response,
    response,
  )

  limit_details : Customer → Device → DeviceLimit → Details
  limit_details customer device limit =
      ("customer_id", string customer.id)
      ∷ ("fingerprint_last8", string device.fingerprint_last8)
      ∷ ("active_devices", number limit.active_devices)
      ∷ ("max_devices", number limit.max_devices)
      ∷ ("device_is_counted", flag limit.device_is_counted)
      ∷ ("device_is_within_limit", flag limit.device_is_within_limit)
      ∷ []

  abbrev pub lease_of : Customer → Device → List Grant → Option Lease
  lease_of customer device licensed = elim client [
    | trader_desktop ↦
        issue_trader_license_lease p signer customer device req.machine_fingerprint licensed
          req.grace_period_seconds req.now
    | nt8 ↦ none
    | unknown ↦ none
  ]

  -- a customer with a licensed grant
  unfoldable pub admit_device :
      Database → Customer → Device → DeviceLimit → List State → List Grant → Database × Response
  unfolding record_check license_response audit mark_device_licensed limit_details
  admit_device db customer device limit states licensed =
      if device_over_limit limit
      then answer
          (audit p db req.now "client" (some customer.id) "device.limit_exceeded" "device" device.id
            (limit_details customer device limit) req.ip_address)
          customer device
          (license_response LicenseStatus.device_limit_exceeded [] (some customer) (some device)
            (some limit) states none)
      else (let (db1, marked) = mark_device_licensed db device req.now in
          let limit1 = device_limit_snapshot db1 customer marked req.max_devices in
          answer db1 customer marked (
            license_response LicenseStatus.active licensed (some customer) (some marked)
              (some limit1) states (lease_of customer marked licensed)))

  abbrev pub states_of : Database → Customer → List Grant → List State
  states_of db customer grants = entitlement_states p req.now db customer.id client grants

  -- a customer whose device is not blocked
  unfoldable pub check_grants :
      Database → Customer → Device → DeviceLimit → List Grant → List Grant → Database × Response
  unfolding admit_device
  check_grants db customer device limit grants [] = answer db customer device (
      license_response (blocking_status grants req.now) [] (some customer) (some device)
        (some limit) (states_of db customer grants) none)
  check_grants db customer device limit grants (g ∷ licensed) =
      admit_device db customer device limit (states_of db customer grants) (g ∷ licensed)

  abbrev pub grants_of : Database → Customer → List Grant
  grants_of db customer = filter_grants_for_client (current_grants db customer.id req.now) client

  unfoldable pub check_device : Database → Customer → Device → Database × Response
  unfolding check_grants
  check_device db customer device =
      let limit = device_limit_snapshot db customer device req.max_devices in
      let grants = grants_of db customer in
      if device.is_blocked
      then answer db customer device (
          license_response LicenseStatus.device_blocked [] (some customer) (some device)
            (some limit) [] none)
      else check_grants db customer device limit grants (filter_by (λ g. g.is_licensed) grants)

  unfoldable pub check_customer : Database → Customer → Database × Response
  unfolding check_device upsert_device
  check_customer db customer =
      let (db1, device) =
        upsert_device p customer.id req.machine_fingerprint req.app_version client req.ip_address
          req.user_agent req.now db in
      check_device db1 customer device

  abbrev pub check_found : Database → Option Customer → Database × Response
  check_found db (some customer) = check_customer db customer
  check_found db none =
      let response = license_response LicenseStatus.unknown_customer [] none none none [] none in
      (
        record_check db none none
            (or_empty (
              req.email
              or_text req.customer_id
              or_text req.whop_user_id
              or_text some (text "license_key")))
            response,
        response,
      )

  unfoldable pub check_license : Database → Database × Response
  unfolding check_customer find_customer strip
  check_license db =
      if is_truthy (some (strip req.machine_fingerprint))
      then check_found db
          (find_customer p db req.license_key req.email req.customer_id req.whop_user_id)
      else (db, license_response LicenseStatus.invalid_request [] none none none [] none)
