-- ===== src/Tests.antt =====
-- Small tables and requests for the tests.
pub mod Whop
pub mod License
pub mod Others
pub mod Security
pub mod Oauth
pub mod Events
pub mod Accounts
use autoedge_licensing_serve.Prelude.{
  ℕ, ◌+◌, ◌*◌, Bool, true, false, Option, none, some, List, [], ◌∷◌,
}
use autoedge_licensing_serve.Text.{Text, text}
use autoedge_licensing_serve.Time.{Datetime, Stamp, second, days}
use autoedge_licensing_serve.Database.{
  Platform, Database, Customer, Product, Entitlement, Device, Subscription, WhopPackage, LedgerRow,
  Source, whop, manual,
}
use autoedge_licensing_serve.Whop.Status.{Status, SubscriptionStatus, active, suspended}
use autoedge_licensing_serve.Whop.Expiry.{SubscriptionInfo}
use autoedge_licensing_serve.Whop.Package.{GrantRequest, PackageGrant}
use autoedge_licensing_serve.License.Check.{CheckRequest}

abbrev pub platform : Platform
platform = record { uuid4_hex = λ n. n ∷ []; sha256_hex = λ s. s; iso_text = λ s. s ∷ [] }

abbrev pub today : Datetime
today = 1700000000 * second

abbrev pub customer : Customer
customer = record {
  id = text "c1";
  whop_user_id = none;
  whop_member_id = none;
  email = some (text "a@b");
  email_normalized = some (text "a@b");
  name = none;
  license_key_hash = none;
  license_key_last4 = none;
  max_devices = some 1;
  tags = [];
  created_at = 1;
  updated_at = 1;
}

abbrev pub product : Product
product = record {
  id = text "p1";
  whop_product_id = none;
  slug = text "duo";
  name = text "Duo";
  feature_id = text "f";
  is_active = true;
  subscription_url = none;
  nt8_strategy_key = none;
  trader_enabled = true;
  nt8_enabled = false;
}

-- a row of the package, which ends ten days from now
abbrev pub entitlement : Entitlement
entitlement = record {
  id = text "e1";
  customer_id = text "c1";
  product_id = text "p1";
  subscription_id = some (text "s1");
  package_id = some (text "k1");
  external_id = text "m1:p1";
  source = whop;
  status = active;
  starts_at = some 1600000000;
  expires_at = some 1700864000;
  revoked_at = none;
  manual_reason = none;
  whop_event_id = none;
  created_at = 1;
  updated_at = 1;
}

abbrev pub device : Device
device = record {
  id = text "d1";
  customer_id = text "c1";
  fingerprint_hash = text "other";
  fingerprint_last8 = text "other";
  first_seen_at = 1;
  last_seen_at = 1;
  app_version = none;
  client_type = text "unknown";
  ip_last = none;
  user_agent_last = none;
  is_blocked = false;
  note = none;
  first_licensed_at = some 1;
  last_licensed_at = some 1;
}

abbrev pub subscription : Subscription
subscription = record {
  id = text "s1";
  customer_id = text "c1";
  whop_membership_id = text "m1";
  whop_plan_id = none;
  status = SubscriptionStatus.active;
  raw_status = none;
  current_period_start = some 1600000000;
  current_period_end = some 1700864000;
  cancel_at_period_end = false;
  created_at = 1;
  updated_at = 1;
}

abbrev pub database : Database
database = record {
  customers = customer ∷ [];
  products = product ∷ [];
  subscriptions = subscription ∷ [];
  entitlements = entitlement ∷ [];
  devices = device ∷ [];
  whop_packages = [];
  whop_package_grants = [];
  license_grant_ledger = [];
  license_checks = [];
  webhook_events = [];
  audit_log = [];
  tradovate_oauth_states = [];
  admin_users = [];
  admin_sessions = [];
  drawn = 1;
}

-- a payment with a period
abbrev pub info : SubscriptionInfo
info = record {
  membership_id = some (text "m1");
  entitlement_id = none;
  plan_id = none;
  status = text "active";
  period_start = some today;
  expires_at = some (today + days 30);
  trial_ends_at = none;
  payment_id = some (text "pay1");
  cancel_at_period_end = false;
}

abbrev pub request : GrantRequest
request = record {
  customer_id = text "c1";
  whop_package = record {
    id = text "k1";
    whop_id = text "plan";
    name = text "n";
    default_days = none;
    is_active = true;
    is_ignored = false;
  };
  grant = record { product_id = text "p1"; product_name = text "Duo"; days = some 30 };
  subscription_id = some (text "s1");
  info = info;
  status = active;
  event_type = text "payment.succeeded";
  webhook_id = text "w1";
  ip_address = none;
  now = today;
}

-- a payment with neither start nor end of a period
abbrev pub bare_info : SubscriptionInfo
bare_info = record info { period_start = none; expires_at = none }

abbrev pub check : CheckRequest
check = record {
  license_key = none;
  email = some (text "A@B");
  customer_id = none;
  whop_user_id = none;
  machine_fingerprint = text "machine";
  app_version = none;
  ip_address = none;
  user_agent = none;
  check_interval_seconds = 60;
  grace_period_seconds = 600;
  client_type = some (text "trader_desktop");
  max_devices = 2;
  now = today;
}
