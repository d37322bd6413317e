-- ===== src/Whop/Package.antt =====
-- `_apply_whop_package_grant` of autoedge_licensing/service.py: one grant of a Whop package.
pub mod Decide
pub mod Coverage
pub mod Applied
pub mod Replay
pub mod Limits
pub mod Ignored
use autoedge_licensing_serve.Prelude.{
  ℕ, ◌+◌, Bool, true, false, not, ◌&&◌, ◌||◌, Option, none, some, List, [], ◌∷◌, ◌++◌, get_or, any,
  find, update_where, is_some, if◌then◌else◌,
}
use autoedge_licensing_serve.Text.{
  Text, text, same_text, same_optional, ◌or_text◌, or_empty, colon_joined,
}
use autoedge_licensing_serve.Time.{
  Datetime, Stamp, iso, iso_optional, parse_stamp, days, later_time,
}
use autoedge_licensing_serve.Database.{
  Platform, Database, Entitlement, LedgerRow, WhopPackage, WhopPackageGrant, Product, whop,
  fresh_id, count_id, audit, string, number, Details,
}
use autoedge_licensing_serve.Whop.Status.{
  kind_text, Status, GrantKind, is_paid, is_granting, grant_kind, status_text,
}
use autoedge_licensing_serve.Whop.Expiry.{SubscriptionInfo, entitlement_expiry_target}
use autoedge_licensing_serve.Whop.Direct.{Decision, is_whop, starts_after, before_of}
use autoedge_licensing_serve.Whop.Ledger.{
  grant_fingerprint, has_fingerprint, paid_period_duplicate_exists, record_grant_ledger,
}
use Decide.{
  Outcome, duplicate_grant, ignored_grant, decided, grant_target, is_relative, package_outcome,
}

-- a row of `_package_grants`: a grant joined with its product
pub record PackageGrant : Type 0 where
  pub product_id : Text
  pub product_name : Text
  pub days : Option ℕ

pub data GrantStatus : Type 0 where
  duplicate ignored : GrantStatus
  entitled : Status → GrantStatus

-- the dictionary that is returned for a grant
pub record Application : Type 0 where
  pub product_id : Text
  pub strategy : Text
  pub status : GrantStatus
  pub grant_kind : GrantKind
  pub days_applied : ℕ
  pub expires_at : Option Stamp

-- `source = 'whop' AND external_id = ? AND package_id = ?`
abbrev pub is_package_row : Text → Text → Entitlement → Bool
is_package_row external_id package_id e =
    is_whop e.source
    && same_text e.external_id external_id
    && same_optional e.package_id (some package_id)

package_details : Text → Text → Text → Status → GrantKind → ℕ → Text → Details
package_details customer_id package_id product_id status kind days_applied webhook_id =
    ("customer_id", string customer_id)
    ∷ ("package_id", string package_id)
    ∷ ("product_id", string product_id)
    ∷ ("status", string (status_text status))
    ∷ ("grant_kind", string (kind_text kind))
    ∷ ("days_applied", number days_applied)
    ∷ ("webhook_id", string webhook_id)
    ∷ []

abbrev pub ledger_details : Text → Status → Text → Details
ledger_details event_type status package_whop_id =
    ("event_type", string event_type)
    ∷ ("status", string (status_text status))
    ∷ ("package_whop_id", string package_whop_id)
    ∷ []

-- the arguments of a call, and the clock's reading
pub record GrantRequest : Type 0 where
  pub customer_id : Text
  pub whop_package : WhopPackage
  pub grant : PackageGrant
  pub subscription_id : Option Text
  pub info : SubscriptionInfo
  pub status : Status
  pub event_type : Text
  pub webhook_id : Text
  pub ip_address : Option Text
  pub now : Datetime

module _ (p : Platform) (r : GrantRequest) where
  abbrev pub external_id : Text
  external_id =
      colon_joined
        (or_empty (
          r.info.membership_id
          or_text r.info.entitlement_id
          or_text some (colon_joined r.whop_package.whop_id (r.customer_id ∷ []))))
        (r.grant.product_id ∷ [])

  abbrev pub grant_days : Option ℕ
  grant_days = elim r.grant.days [ none ↦ r.whop_package.default_days | some d ↦ some d ]

  abbrev pub kind : GrantKind
  kind = grant_kind r.status r.event_type

  abbrev pub existing_row : Database → Option Entitlement
  existing_row db = find (is_package_row external_id r.whop_package.id) db.entitlements

  abbrev pub fingerprint : Text
  fingerprint =
      grant_fingerprint p r.customer_id r.whop_package.id r.grant.product_id r.info r.webhook_id
        kind

  abbrev pub start_time : Option Entitlement → Datetime
  start_time existing = starts_after existing r.info kind r.now

  abbrev pub updated_row : Decision → Datetime → Entitlement → Entitlement
  updated_row d start e = record e {
    customer_id = r.customer_id;
    product_id = r.grant.product_id;
    subscription_id = r.subscription_id;
    package_id = some r.whop_package.id;
    status = d.status;
    starts_at = some (iso start);
    expires_at = iso_optional d.expires_at;
    revoked_at = d.revoked_at;
    whop_event_id = some r.webhook_id;
    updated_at = iso r.now;
  }

  abbrev pub inserted_row : Text → Decision → Datetime → Entitlement
  inserted_row id d start = record {
    id = id;
    customer_id = r.customer_id;
    product_id = r.grant.product_id;
    subscription_id = r.subscription_id;
    package_id = some r.whop_package.id;
    external_id = external_id;
    source = whop;
    status = d.status;
    starts_at = some (iso start);
    expires_at = iso_optional d.expires_at;
    revoked_at = d.revoked_at;
    manual_reason = none;
    whop_event_id = some r.webhook_id;
    created_at = iso r.now;
    updated_at = iso r.now;
  }

  -- the call of `_record_grant_ledger`
  abbrev pub ledger_row : Text → Option Entitlement → Decision → ℕ → LedgerRow
  ledger_row entitlement_id existing d days_applied = record {
    id = [];
    customer_id = r.customer_id;
    package_id = some r.whop_package.id;
    product_id = r.grant.product_id;
    subscription_id = r.subscription_id;
    entitlement_id = some entitlement_id;
    whop_event_id = r.webhook_id;
    event_fingerprint = fingerprint;
    grant_kind = kind;
    days_applied = days_applied;
    period_start = iso_optional r.info.period_start;
    period_end = iso_optional r.info.expires_at;
    expires_at_before = iso_optional (before_of existing);
    expires_at_after = iso_optional d.expires_at;
    details = ledger_details r.event_type r.status r.whop_package.whop_id;
    applied_at = iso r.now;
  }

  abbrev pub applied : GrantStatus → ℕ → Option Stamp → Application
  applied s days_applied expires_at = record {
    product_id = r.grant.product_id;
    strategy = r.grant.product_name;
    status = s;
    grant_kind = kind;
    days_applied = days_applied;
    expires_at = expires_at;
  }

  -- the INSERT or UPDATE of the entitlement: the tables, the row's id and the audited action
  unfoldable pub write_entitlement : Database → Option Entitlement → Decision → Database × Text
  write_entitlement db none d = (
    record (count_id p db) {
      entitlements = db.entitlements ++ inserted_row (fresh_id p db) d (start_time none) ∷ [];
    },
    fresh_id p db,
  )
  write_entitlement db (some e) d = (
    record db {
      entitlements =
          update_where (λ row. same_text row.id e.id) (updated_row d (start_time (some e)))
            db.entitlements;
    },
    e.id,
  )

  -- from the writes to the end of the function
  unfoldable pub conclude : Database → Option Entitlement → Outcome → Database × Application
  unfolding write_entitlement record_grant_ledger audit package_details
  conclude db existing duplicate_grant = (db, applied duplicate 0 none)
  conclude db none ignored_grant = (db, applied ignored 0 none)
  conclude db (some e) ignored_grant = (db, applied (entitled e.status) 0 e.expires_at)
  conclude db existing (decided d days_applied) =
      let (written, id) = write_entitlement db existing d in
      let recorded = record_grant_ledger p written (ledger_row id existing d days_applied) in
      (
        audit p recorded r.now "whop" none
            (if is_some existing then "entitlement.whop_updated" else "entitlement.whop_created")
            "entitlement" id
            (package_details r.customer_id r.whop_package.id r.grant.product_id d.status kind
              days_applied r.webhook_id)
            r.ip_address,
        applied (entitled d.status) days_applied (iso_optional d.expires_at),
      )

  abbrev pub is_duplicate : Database → Bool
  is_duplicate db = is_granting kind && any (has_fingerprint fingerprint) db.license_grant_ledger

  abbrev pub is_duplicate_period : Database → Bool
  is_duplicate_period db =
      is_granting kind
      && paid_period_duplicate_exists db.license_grant_ledger r.customer_id r.whop_package.id
          r.grant.product_id r.subscription_id kind r.info.period_start

  abbrev pub outcome : Database → Option Entitlement → Outcome
  outcome db existing =
      package_outcome kind existing (is_duplicate db) (is_duplicate_period db)
        (is_relative kind r.info grant_days) (grant_target kind r.info grant_days existing r.now)
        grant_days r.status r.now

  unfoldable pub apply_whop_package_grant : Database → Database × Application
  unfolding conclude
  apply_whop_package_grant db = conclude db (existing_row db) (outcome db (existing_row db))
