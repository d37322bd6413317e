-- ===== src/Database/Rows.antt =====
-- The rows of the tables (migrations/*.sql).
use autoedge_licensing_serve.Prelude.{ℕ, String, Bool, Option, List}
use autoedge_licensing_serve.Text.{Text}
use autoedge_licensing_serve.Time.{Stamp}
use autoedge_licensing_serve.Whop.Status.{Status, SubscriptionStatus, GrantKind}

pub data Source : Type 0 where
  whop manual : Source

pub record Customer : Type 0 where
  pub id : Text
  pub whop_user_id : Option Text
  pub whop_member_id : Option Text
  pub email : Option Text
  pub email_normalized : Option Text
  pub name : Option Text
  pub license_key_hash : Option Text
  pub license_key_last4 : Option Text
  pub max_devices : Option ℕ
  pub tags : List Text
  pub created_at : Stamp
  pub updated_at : Stamp

pub record Product : Type 0 where
  pub id : Text
  pub whop_product_id : Option Text
  pub slug : Text
  pub name : Text
  pub feature_id : Text
  pub is_active : Bool
  pub subscription_url : Option Text
  pub nt8_strategy_key : Option Text
  pub trader_enabled : Bool
  pub nt8_enabled : Bool

pub record Subscription : Type 0 where
  pub id : Text
  pub customer_id : Text
  pub whop_membership_id : Text
  pub whop_plan_id : Option Text
  pub status : SubscriptionStatus
  pub raw_status : Option Text
  pub current_period_start : Option Stamp
  pub current_period_end : Option Stamp
  pub cancel_at_period_end : Bool
  pub created_at : Stamp
  pub updated_at : Stamp

pub record Entitlement : Type 0 where
  pub id : Text
  pub customer_id : Text
  pub product_id : Text
  pub subscription_id : Option Text
  pub package_id : Option Text
  pub external_id : Text
  pub source : Source
  pub status : Status
  pub starts_at : Option Stamp
  pub expires_at : Option Stamp
  pub revoked_at : Option Stamp
  pub manual_reason : Option Text
  pub whop_event_id : Option Text
  pub created_at : Stamp
  pub updated_at : Stamp

pub record Device : Type 0 where
  pub id : Text
  pub customer_id : Text
  pub fingerprint_hash : Text
  pub fingerprint_last8 : Text
  pub first_seen_at : Stamp
  pub last_seen_at : Stamp
  pub app_version : Option Text
  pub client_type : Text
  pub ip_last : Option Text
  pub user_agent_last : Option Text
  pub is_blocked : Bool
  pub note : Option Text
  pub first_licensed_at : Option Stamp
  pub last_licensed_at : Option Stamp

pub record WhopPackage : Type 0 where
  pub id : Text
  pub whop_id : Text
  pub name : Text
  pub default_days : Option ℕ
  pub is_active : Bool
  pub is_ignored : Bool

pub record WhopPackageGrant : Type 0 where
  pub id : Text
  pub package_id : Text
  pub product_id : Text
  pub days : Option ℕ

-- the values in the details of an audit row or a ledger row
pub data Value : Type 0 where
  null : Value
  string : Text → Value
  number : ℕ → Value
  flag : Bool → Value
  texts : List Text → Value

abbrev pub Details : Type 0
Details = List (String × Value)

pub record LedgerRow : Type 0 where
  pub id : Text
  pub customer_id : Text
  pub package_id : Option Text
  pub product_id : Text
  pub subscription_id : Option Text
  pub entitlement_id : Option Text
  pub whop_event_id : Text
  pub event_fingerprint : Text
  pub grant_kind : GrantKind
  pub days_applied : ℕ
  pub period_start : Option Stamp
  pub period_end : Option Stamp
  pub expires_at_before : Option Stamp
  pub expires_at_after : Option Stamp
  pub details : Details
  pub applied_at : Stamp

pub record LicenseCheck : Type 0 where
  pub id : Text
  pub customer_id : Option Text
  pub device_id : Option Text
  pub request_identifier : Text
  pub app_version : Option Text
  pub client_type : Text
  pub ip_address : Option Text
  pub user_agent : Option Text
  pub status : Text
  pub created_at : Stamp

pub data EventStatus : Type 0 where
  received processed failed : EventStatus

pub record WebhookEvent : Type 0 where
  pub webhook_id : Text
  pub event_type : Text
  pub received_at : Stamp
  pub processed_at : Option Stamp
  pub status : EventStatus
  pub signature_valid : Bool
  pub error : Option Text

pub record AuditRow : Type 0 where
  pub id : Text
  pub actor_type : String
  pub actor_id : Option Text
  pub action : String
  pub entity_type : String
  pub entity_id : Text
  pub details : Details
  pub ip_address : Option Text
  pub created_at : Stamp
