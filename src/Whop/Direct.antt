-- ===== src/Whop/Direct.antt =====
-- `_upsert_direct_whop_entitlement` of autoedge_licensing/service.py: an event for a product that
-- is mapped by its own Whop id.
pub mod Coverage
use autoedge_licensing_serve.Prelude.{
  Bool, true, false, not, ◌&&◌, ◌||◌, Option, none, some, List, [], ◌∷◌, ◌++◌, ◌or◌, get_or, leb,
  if◌then◌else◌, find, update_where, is_some,
}
use autoedge_licensing_serve.Text.{Text, same_text, ◌or_text◌, or_empty}
use autoedge_licensing_serve.Time.{
  Datetime, Stamp, iso, iso_optional, parse_stamp, earlier_time, later_time, is_after,
}
use autoedge_licensing_serve.Database.{
  Platform, Database, Entitlement, Product, Source, whop, manual, fresh_id, count_id, audit, string,
  Details,
}
use autoedge_licensing_serve.Whop.Status.{
  kind_text, Status, GrantKind, trial, paid, renewal, revoke, expire, suspend, ignored, active,
  expired, revoked, suspended, trialing, pending, is_paid, grant_kind, status_text,
}
use autoedge_licensing_serve.Whop.Expiry.{SubscriptionInfo, entitlement_expiry_target}

-- what an event makes of an entitlement's status, expiry and revocation time
pub record Decision : Type 0 where
  pub status : Status
  pub expires_at : Option Datetime
  pub revoked_at : Option Stamp

-- `existing["status"] in {"revoked", "suspended"}`
abbrev pub is_stopped : Status → Bool
is_stopped revoked = true
is_stopped suspended = true
is_stopped _ = false

abbrev pub is_active_status : Status → Bool
is_active_status active = true
is_active_status _ = false

-- `"active" if status == "expired" and revoked_at is None else status`
abbrev pub restored : Entitlement → Status
restored e = elim e.status [
  | expired ↦ (if is_some e.revoked_at then expired else active)
  | other ↦ other
]

-- `before_expiry is None or before_expiry > now_dt` for a row that exists
abbrev pub is_current : Entitlement → Datetime → Bool
is_current e now = elim (parse_stamp e.expires_at) [
  | none ↦ true
  | some before ↦ is_after (some before) now
]

-- `expires_after is None or before_expiry is None or expires_after <= before_expiry`
abbrev not_extended : Option Datetime → Option Datetime → Bool
not_extended none before = true
not_extended (some after) none = true
not_extended (some after) (some before) = leb after before

abbrev pub is_trial : GrantKind → Bool
is_trial trial = true
is_trial _ = false

-- a trial, payment or renewal for a row that exists
granted : GrantKind → Entitlement → Option Datetime → Status → Decision
granted kind e expires_after status =
    if is_stopped e.status && not_extended expires_after (parse_stamp e.expires_at)
    then record { status = e.status; expires_at = expires_after; revoked_at = e.revoked_at }
    else record {
      status = if is_active_status e.status && is_trial kind then active else status;
      expires_at = expires_after;
      revoked_at = none;
    }

grant_decision : GrantKind → Option Entitlement → Option Datetime → Status → Decision
unfolding granted
grant_decision kind none expires_after status = record {
  status = status;
  expires_at = expires_after;
  revoked_at = none;
}
grant_decision kind (some e) expires_after status = granted kind e expires_after status

abbrev pub before_of : Option Entitlement → Option Datetime
before_of none = none
before_of (some e) = parse_stamp e.expires_at

lapsed : Option Entitlement → Option Datetime → Datetime → Decision
lapsed existing expires_after now = record {
  status = expired;
  expires_at = some (get_or (before_of existing or expires_after) now);
  revoked_at = none;
}

expire_decision : Option Entitlement → Option Datetime → Datetime → Decision
unfolding lapsed
expire_decision none expires_after now = lapsed none expires_after now
expire_decision (some e) expires_after now =
    if is_current e now
    then record { status = restored e; expires_at = expires_after; revoked_at = e.revoked_at }
    else lapsed (some e) expires_after now

-- the `if`/`elif` chain over the grant's kind; `none` is the early return of an ignored event
unfoldable pub direct_decision :
    GrantKind → Option Entitlement → Option Datetime → Status → Datetime → Option Decision
unfolding grant_decision expire_decision
direct_decision revoke existing expires_after status now =
    some (record { status = revoked; expires_at = expires_after; revoked_at = some (iso now) })
direct_decision expire existing expires_after status now =
    some (expire_decision existing expires_after now)
direct_decision suspend existing expires_after status now = some (record {
  status = suspended;
  expires_at = before_of existing or expires_after;
  revoked_at = none;
})
direct_decision ignored existing expires_after status now = none
direct_decision kind existing expires_after status now =
    some (grant_decision kind existing expires_after status)

-- `expires_after` before that chain: a row without expiry keeps none
unfoldable pub direct_expires_after : Option Entitlement → Option Datetime → Option Datetime
direct_expires_after none target = target
direct_expires_after (some e) target = elim (parse_stamp e.expires_at) [
  | none ↦ none
  | some before ↦ later_time (some before) target
]

abbrev pub starts_of : Option Entitlement → Option Datetime
starts_of none = none
starts_of (some e) = parse_stamp e.starts_at

unfoldable pub starts_after :
    Option Entitlement → SubscriptionInfo → GrantKind → Datetime → Datetime
starts_after existing info kind now =
    let start = get_or (earlier_time (starts_of existing) info.period_start) now in
    if is_paid kind then get_or (earlier_time (some start) (some now)) now else start

abbrev pub is_whop : Source → Bool
is_whop whop = true
is_whop manual = false

-- `source = 'whop' AND external_id = ? AND package_id IS NULL`
abbrev pub is_direct_row : Text → Entitlement → Bool
is_direct_row external_id e =
    is_whop e.source && same_text e.external_id external_id && not (is_some e.package_id)

abbrev pub external_id_of : SubscriptionInfo → Text → Text
external_id_of info webhook_id =
    or_empty (info.membership_id or_text info.entitlement_id or_text some webhook_id)

direct_details : Text → Text → Status → GrantKind → Text → Text → Details
direct_details customer_id product_id status kind event_type webhook_id =
    ("customer_id", string customer_id)
    ∷ ("product_id", string product_id)
    ∷ ("status", string (status_text status))
    ∷ ("grant_kind", string (kind_text kind))
    ∷ ("event_type", string event_type)
    ∷ ("webhook_id", string webhook_id)
    ∷ []

module _ (p : Platform) (customer_id product_id : Text) (subscription_id : Option Text)
    (event_type webhook_id : Text) (ip_address : Option Text) where
  -- the columns of an UPDATE
  abbrev pub updated_row : Decision → Datetime → Datetime → Entitlement → Entitlement
  updated_row d start now e = record e {
    customer_id = customer_id;
    product_id = product_id;
    subscription_id = subscription_id;
    status = d.status;
    starts_at = some (iso start);
    expires_at = iso_optional d.expires_at;
    revoked_at = d.revoked_at;
    whop_event_id = some webhook_id;
    updated_at = iso now;
  }

  -- the row of an INSERT
  abbrev pub inserted_row : Text → Text → Decision → Datetime → Datetime → Entitlement
  inserted_row id external_id d start now = record {
    id = id;
    customer_id = customer_id;
    product_id = product_id;
    subscription_id = subscription_id;
    package_id = none;
    external_id = external_id;
    source = whop;
    status = d.status;
    starts_at = some (iso start);
    expires_at = iso_optional d.expires_at;
    revoked_at = d.revoked_at;
    manual_reason = none;
    whop_event_id = some webhook_id;
    created_at = iso now;
    updated_at = iso now;
  }

  -- the early return of an ignored event, or the INSERT or UPDATE and the audit entry, with the
  -- row that it wrote
  unfoldable pub write_direct :
      Database
      → Option Entitlement
      → Text
      → GrantKind
      → Option Decision
      → Datetime
      → Datetime
      → Database × Option Entitlement
  unfolding direct_details audit
  write_direct db existing external_id kind none start now = (db, existing)
  write_direct db none external_id kind (some d) start now =
      let id = fresh_id p db in
      let rows = db.entitlements ++ inserted_row id external_id d start now ∷ [] in
      (
        audit p (record (count_id p db) { entitlements = rows }) now "whop" none
            "entitlement.whop_created" "entitlement" id
            (direct_details customer_id product_id d.status kind event_type webhook_id) ip_address,
        find (λ r. same_text r.id id) rows,
      )
  write_direct db (some e) external_id kind (some d) start now =
      let rows =
        update_where (λ r. same_text r.id e.id) (updated_row d start now) db.entitlements in
      (
        audit p (record db { entitlements = rows }) now "whop" none "entitlement.whop_updated"
            "entitlement" e.id
            (direct_details customer_id product_id d.status kind event_type webhook_id) ip_address,
        find (λ r. same_text r.id e.id) rows,
      )

  -- `none` beside the database stands for `{"status": "ignored"}`.
  unfoldable pub upsert_direct_whop_entitlement :
      Database → SubscriptionInfo → Status → Datetime → Database × Option Entitlement
  unfolding direct_decision direct_expires_after starts_after write_direct
  upsert_direct_whop_entitlement db info status now =
      let external_id = external_id_of info webhook_id in
      let existing = find (is_direct_row external_id) db.entitlements in
      let kind = grant_kind status event_type in
      let start = starts_after existing info kind now in
      let expires_after =
        direct_expires_after existing (entitlement_expiry_target kind info none now) in
      write_direct db existing external_id kind
        (direct_decision kind existing expires_after status now) start now
