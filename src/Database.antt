-- ===== src/Database.antt =====
-- The SQLite tables as lists of rows in the order of their rowids, with the columns that the
-- modelled code reads or writes; `audit` of autoedge_licensing/service.py; and the functions that
-- the server takes from hashlib, uuid and secrets, as parameters.
pub mod Rows
pub mod Oauth
pub mod Accounts
pub mod Keys
pub mod Unique
unfoldable pub use Rows.*
pub use Oauth.*
pub use Accounts.*
use autoedge_licensing_serve.Prelude.{ℕ, ◌+◌, String, Option, some, none, List, [], ◌∷◌, ◌++◌}
use autoedge_licensing_serve.Text.{Text}
use autoedge_licensing_serve.Time.{Datetime, Stamp, iso}

-- Hashes, random values and the text of a time. `uuid4_hex n` is the n-th identifier that a
-- database is given.
pub record Platform : Type 0 where
  pub uuid4_hex : ℕ → Text
  pub sha256_hex : Text → Text
  pub iso_text : Stamp → Text

pub record Database : Type 0 where
  pub customers : List Customer
  pub products : List Product
  pub subscriptions : List Subscription
  pub entitlements : List Entitlement
  pub devices : List Device
  pub whop_packages : List WhopPackage
  pub whop_package_grants : List WhopPackageGrant
  pub license_grant_ledger : List LedgerRow
  pub license_checks : List LicenseCheck
  pub webhook_events : List WebhookEvent
  pub audit_log : List AuditRow
  pub tradovate_oauth_states : List OauthState
  pub admin_users : List AdminUser
  pub admin_sessions : List AdminSession
  pub drawn : ℕ

module _ (p : Platform) where
  -- `uuid.uuid4().hex`
  abbrev pub fresh_id : Database → Text
  fresh_id db = p.uuid4_hex db.drawn

  abbrev pub count_id : Database → Database
  count_id db = record db { drawn = db.drawn + 1 }

  unfoldable pub audit :
      Database
      → Datetime
      → String
      → Option Text
      → String
      → String
      → Text
      → Details
      → Option Text
      → Database
  audit db now actor_type actor_id action entity_type entity_id details ip_address = record db {
    audit_log =
        db.audit_log
        ++ record {
          id = fresh_id db;
          actor_type = actor_type;
          actor_id = actor_id;
          action = action;
          entity_type = entity_type;
          entity_id = entity_id;
          details = details;
          ip_address = ip_address;
          created_at = iso now;
        }
          ∷ [];
    drawn = db.drawn + 1;
  }
