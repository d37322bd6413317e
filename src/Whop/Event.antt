-- ===== src/Whop/Event.antt =====
-- A webhook event from its receipt to its end: `process_whop_event`, `_upsert_whop_entitlement`,
-- `_find_whop_package`, `_find_direct_whop_product` and `_package_grants` of
-- autoedge_licensing/service.py, from what the `_extract` functions read of the payload on.
pub mod Preserve
pub mod Once
pub mod Failed
pub mod Replay
use autoedge_licensing_serve.Prelude.{
  ℕ, ◌+◌, Bool, true, false, not, ◌&&◌, ◌||◌, Option, none, some, List, [], ◌∷◌, ◌++◌, ◌or◌, String,
  find, filter_by, update_where, is_some, if◌then◌else◌, any,
}
use autoedge_licensing_serve.Text.{
  Text, text, same_text, same_optional, is_truthy, or_empty, ◌or_text◌,
}
use autoedge_licensing_serve.Time.{Datetime, iso}
use autoedge_licensing_serve.Sorting.{sort_by, text_lt}
use autoedge_licensing_serve.Database.{
  Platform, Database, Customer, Product, Entitlement, WhopPackage, WhopPackageGrant, WebhookEvent,
  EventStatus, received, processed, failed, audit, string, Details,
}
use autoedge_licensing_serve.Whop.Status.{
  Status, SubscriptionStatus, normalize_entitlement_status, normalize_subscription_status,
}
use autoedge_licensing_serve.Whop.Expiry.{SubscriptionInfo}
use autoedge_licensing_serve.Whop.Subscription.{upsert_whop_subscription}
use autoedge_licensing_serve.Whop.Direct.{upsert_direct_whop_entitlement}
use autoedge_licensing_serve.Whop.Package
use autoedge_licensing_serve.Whop.Package.{
  PackageGrant, GrantRequest, GrantStatus, Application, entitled, apply_whop_package_grant,
}
use autoedge_licensing_serve.Whop.Customers.{CustomerRequest, create_or_update_customer}
use autoedge_licensing_serve.Oauth.States.{text_value}

-- the three sessions of `_upsert_whop_entitlement`: the look for the package or product, with the
-- reading of the payload before it; `create_or_update_customer`; and the subscription and the grants
pub data Session : Type 0 where
  package_session customer_session grant_session : Session

abbrev pub fails_in : Session → Option Session → Bool
fails_in package_session (some package_session) = true
fails_in customer_session (some customer_session) = true
fails_in grant_session (some grant_session) = true
fails_in _ _ = false

-- what is read of a payload, what a call draws, and the session, if any, in which the database, the
-- driver or `datetime` raises an exception
pub record Event : Type 0 where
  pub event_type : Text
  pub webhook_id : Text
  pub signature_valid : Bool
  pub email : Option Text
  pub name : Option Text
  pub whop_user_id : Option Text
  pub whop_member_id : Option Text
  pub plan_id : Option Text
  pub product_id : Option Text
  pub info : SubscriptionInfo
  pub ip_address : Option Text
  pub raw_key : Text
  pub raises_in : Option Session
  pub now : Datetime

-- the "status" of the dictionary that is returned
pub data Answer : Type 0 where
  duplicate_event unmapped_package ignored_package inactive_package no_package_grants : Answer
  direct_processed : Option Entitlement → Answer
  package_processed : Status → List Application → Answer

pub data Outcome : Type 0 where
  returned : Answer → Outcome
  raised : Outcome

abbrev pub found_by {ℓ} : {A : Type ℓ} → (A → Option Text) → Option Text → List A → Option A
found_by column candidate rows =
    if is_truthy candidate then find (λ r. same_optional (column r) candidate) rows else none

unfoldable pub find_whop_package : Database → Event → Option WhopPackage
unfolding same_text
find_whop_package db e =
    found_by (λ k. some k.whop_id) e.plan_id db.whop_packages
    or found_by (λ k. some k.whop_id) e.product_id db.whop_packages

unfoldable pub find_direct_whop_product : Database → Event → Option Product
unfolding same_text
find_direct_whop_product db e =
    found_by (λ (r : Product). r.whop_product_id) e.product_id db.products
    or found_by (λ (r : Product). r.whop_product_id) e.plan_id db.products

-- JOIN products ON products.id = whop_package_grants.product_id
abbrev pub joined : List Product → List WhopPackageGrant → List PackageGrant
joined products [] = []
joined products (g ∷ grants) = elim (find (λ (r : Product). same_text r.id g.product_id) products) [
  | none ↦ joined products grants
  | some r ↦
      record { product_id = g.product_id; product_name = r.name; days = g.days }
      ∷ joined products grants
]

unfoldable pub package_grants : Database → Text → List PackageGrant
unfolding sort_by text_lt same_text
package_grants db package_id =
    sort_by (λ g h. text_lt g.product_name h.product_name)
      (joined db.products
        (filter_by (λ g. same_text g.package_id package_id) db.whop_package_grants))

-- `next(iter(applied_statuses)) if len(applied_statuses) == 1 else status`, over the statuses so
-- far, where one was seen and no other
abbrev pub same_status : Status → Status → Bool
same_status Status.active Status.active = true
same_status Status.trialing Status.trialing = true
same_status Status.expired Status.expired = true
same_status Status.revoked Status.revoked = true
same_status Status.suspended Status.suspended = true
same_status Status.pending Status.pending = true
same_status _ _ = false

abbrev pub entitled_statuses : List Application → List Status
entitled_statuses [] = []
entitled_statuses (a ∷ applications) = elim a.status [
  | entitled s ↦ s ∷ entitled_statuses applications
  | other ↦ entitled_statuses applications
]

abbrev pub common_status : Status → List Status → Status
common_status status [] = status
common_status status (s ∷ statuses) =
    if any (λ t. not (same_status s t)) statuses then status else s

module _ (p : Platform) (e : Event) where
  abbrev pub event_row : WebhookEvent
  event_row = record {
    webhook_id = e.webhook_id;
    event_type = e.event_type;
    received_at = iso e.now;
    processed_at = none;
    status = received;
    signature_valid = e.signature_valid;
    error = none;
  }

  abbrev pub is_event : WebhookEvent → Bool
  is_event w = same_text w.webhook_id e.webhook_id

  -- ON CONFLICT(webhook_id) DO UPDATE
  abbrev pub received_again : WebhookEvent → WebhookEvent
  received_again w = record w {
    event_type = e.event_type;
    received_at = iso e.now;
    status = received;
    signature_valid = e.signature_valid;
    error = none;
  }

  abbrev pub update_event : (WebhookEvent → WebhookEvent) → Database → Database
  update_event change db = record db {
    webhook_events = update_where is_event change db.webhook_events;
  }

  unfoldable pub receive : Option WebhookEvent → Database → Database
  receive none db = record db { webhook_events = db.webhook_events ++ event_row ∷ [] }
  receive (some w) db = update_event received_again db

  -- the fold over the grants, with what each of them answered
  unfoldable pub apply_grants :
      (PackageGrant → GrantRequest) → List PackageGrant → Database → Database × List Application
  unfolding apply_whop_package_grant
  apply_grants request [] db = (db, [])
  apply_grants request (g ∷ grants) db =
      let first = apply_whop_package_grant p (request g) db in
      let rest = apply_grants request grants first.0 in (rest.0, first.1 ∷ rest.1)

  abbrev pub status_of : Status
  status_of = normalize_entitlement_status (some e.info.status) e.event_type

  abbrev pub package_audit : String → WhopPackage → Customer → Database → Database
  package_audit action whop_package customer db =
      audit p db e.now "whop" none action "whop_package" whop_package.id
        (("customer_id", string customer.id)
          ∷ ("event_type", string e.event_type)
          ∷ ("webhook_id", string e.webhook_id)
          ∷ [])
        e.ip_address

  abbrev pub request_of : Customer → WhopPackage → Option Text → PackageGrant → GrantRequest
  request_of customer whop_package subscription_id grant = record {
    customer_id = customer.id;
    whop_package = whop_package;
    grant = grant;
    subscription_id = subscription_id;
    info = e.info;
    status = status_of;
    event_type = e.event_type;
    webhook_id = e.webhook_id;
    ip_address = e.ip_address;
    now = e.now;
  }

  abbrev pub apply_package :
      Customer → WhopPackage → Option Text → List PackageGrant → Database → Database × Outcome
  apply_package customer whop_package subscription_id [] db =
      (package_audit "whop_package.no_grants" whop_package customer db, returned no_package_grants)
  apply_package customer whop_package subscription_id (g ∷ grants) db =
      let done = apply_grants (request_of customer whop_package subscription_id) (g ∷ grants) db in
      (
        done.0,
        returned (package_processed (common_status status_of (entitled_statuses done.1)) done.1),
      )

  abbrev pub apply_mapping :
      Customer → Option WhopPackage → Option Product → Database × Option Text → Database × Outcome
  apply_mapping customer none none (db, subscription_id) = (db, returned unmapped_package)
  apply_mapping customer none (some product) (db, subscription_id) =
      let done =
        upsert_direct_whop_entitlement p customer.id product.id subscription_id e.event_type
          e.webhook_id e.ip_address db e.info status_of e.now in
      (done.0, returned (direct_processed done.1))
  apply_mapping customer (some whop_package) product (db, subscription_id) =
      if whop_package.is_ignored
      then (package_audit "whop_package.ignored" whop_package customer db, returned ignored_package)
      else (if whop_package.is_active
          then apply_package customer whop_package subscription_id
              (package_grants db whop_package.id) db
          else (
            package_audit "whop_package.inactive" whop_package customer db,
            returned inactive_package,
          ))

  abbrev pub customer_request : CustomerRequest
  customer_request = record {
    email = e.email;
    name = e.name;
    whop_user_id = e.whop_user_id;
    whop_member_id = e.whop_member_id;
    license_key = none;
    generate_key = true;
    raw_key = e.raw_key;
    actor_type = "whop";
    actor_id = none;
    ip_address = e.ip_address;
    now = e.now;
  }

  -- the customer, committed in a session of its own
  abbrev pub created_customer : Database → Option (Database × Customer)
  created_customer db =
      if fails_in customer_session e.raises_in
      then none
      else create_or_update_customer p customer_request db

  -- A session that raises is rolled back; the customer of an earlier one stays.
  abbrev pub with_customer :
      Option WhopPackage
      → Option Product
      → Database
      → Option (Database × Customer)
      → Database × Outcome
  with_customer whop_package product db none = (db, raised)
  with_customer whop_package product db (some (db1, customer)) =
      if fails_in grant_session e.raises_in
      then (db1, raised)
      else apply_mapping customer whop_package product (
          upsert_whop_subscription customer.id e.info
            (normalize_subscription_status (some e.info.status) e.event_type) e.now p db1)

  abbrev pub unmapped : Database → Database
  unmapped db =
      audit p db e.now "whop" none "whop_package.unmapped" "webhook_event" e.webhook_id
        (("event_type", string e.event_type)
          ∷ ("webhook_id", string e.webhook_id)
          ∷ ("plan_id", text_value e.plan_id)
          ∷ ("product_id", text_value e.product_id)
          ∷ ("email", text_value e.email)
          ∷ [])
        e.ip_address

  abbrev pub mapped : Option WhopPackage → Option Product → Database → Database × Outcome
  mapped none none db = (unmapped db, returned unmapped_package)
  mapped none (some product) db = with_customer none (some product) db (created_customer db)
  mapped (some whop_package) product db =
      with_customer (some whop_package) none db (created_customer db)

  unfoldable pub upsert_whop_entitlement : Database → Database × Outcome
  unfolding find_whop_package find_direct_whop_product create_or_update_customer
      upsert_whop_subscription upsert_direct_whop_entitlement package_grants apply_grants
      normalize_entitlement_status normalize_subscription_status audit
  upsert_whop_entitlement db =
      if fails_in package_session e.raises_in
      then (db, raised)
      else mapped (find_whop_package db e) (find_direct_whop_product db e) db

  -- how the event ends: marked with what happened
  abbrev pub finish : Text → Database × Outcome → Database × Outcome
  finish error (db, returned a) = (
    update_event (λ w. record w { status = processed; processed_at = some (iso e.now) }) db,
    returned a,
  )
  finish error (db, raised) =
      (update_event (λ w. record w { status = failed; error = some error }) db, raised)

  abbrev pub is_processed : Option WebhookEvent → Bool
  is_processed none = false
  is_processed (some w) = elim w.status [ processed ↦ true | received ↦ false | failed ↦ false ]

  -- `error` is the text of the exception, if one is raised
  unfoldable pub process_whop_event : Text → Database → Database × Outcome
  unfolding receive upsert_whop_entitlement
  process_whop_event error db =
      let existing = find is_event db.webhook_events in
      if is_processed existing
      then (db, returned duplicate_event)
      else finish error (upsert_whop_entitlement (receive existing db))
