-- ===== src/Whop/Event/Preserve.antt =====
-- The handlers of an event leave the table of webhook events as it is.
use autoedge_licensing_serve.Prelude.{
  ◌≡◌, refl, ◌∙◌, Option, none, some, List, [], ◌∷◌, Bool-cases, inl, inr, find, any,
}
use autoedge_licensing_serve.Text.{Text, is_truthy}
use autoedge_licensing_serve.Time.{Datetime}
use autoedge_licensing_serve.Database.{
  Platform, Database, Customer, Product, Entitlement, Subscription, WhopPackage, LedgerRow, audit,
  fresh_id,
}
use autoedge_licensing_serve.Whop.Status.{
  Status, SubscriptionStatus, grant_kind, normalize_subscription_status,
}
use autoedge_licensing_serve.Whop.Expiry.{SubscriptionInfo}
use autoedge_licensing_serve.Whop.Ledger.{record_grant_ledger, has_fingerprint}
use autoedge_licensing_serve.Whop.Subscription.{
  upsert_whop_subscription, write_subscription, existing_sub,
}
use autoedge_licensing_serve.Whop.Direct.{Decision, upsert_direct_whop_entitlement, write_direct}
use autoedge_licensing_serve.Whop.Package.{
  PackageGrant, GrantRequest, apply_whop_package_grant, conclude, existing_row, write_entitlement,
  ledger_row, outcome,
}
use autoedge_licensing_serve.Whop.Package.Decide.{duplicate_grant, ignored_grant, decided}
use autoedge_licensing_serve.Whop.Package.Decide
use autoedge_licensing_serve.Whop.Customers.{
  CustomerRequest, create_or_update_customer, write_customer, new_customer, known_customer, clashes,
  is_known,
}
use autoedge_licensing_serve.Whop.Event.{
  Event, upsert_whop_entitlement, mapped, with_customer, apply_mapping, apply_package, apply_grants,
  find_whop_package, find_direct_whop_product, package_grants, customer_request, request_of,
  status_of, created_customer, fails_in, package_session, customer_session, grant_session,
}

-- the two databases have the same webhook events
abbrev pub SameEvents : Database → Database → Type 0
SameEvents db db' = db'.webhook_events ≡ db.webhook_events

module _ (p : Platform) where
  ledger-SameEvents :
      (db : Database) (row : LedgerRow) → SameEvents db (record_grant_ledger p db row)
  unfolding record_grant_ledger
  ledger-SameEvents db row =
      elim (Bool-cases (any (has_fingerprint row.event_fingerprint) db.license_grant_ledger)) [
        | inl e ↦ rw e
        | inr e ↦ rw e
      ]

  conclude-SameEvents :
      (r : GrantRequest) (db : Database) (existing : Option Entitlement) (out : Decide.Outcome)
      → SameEvents db (conclude p r db existing out).0
  unfolding conclude write_entitlement audit
  conclude-SameEvents r db existing duplicate_grant = refl
  conclude-SameEvents r db none ignored_grant = refl
  conclude-SameEvents r db (some e) ignored_grant = refl
  conclude-SameEvents r db none (decided d n) =
      let (written, id) = write_entitlement p r db none d in
      ledger-SameEvents written (ledger_row p r id none d n)
  conclude-SameEvents r db (some e) (decided d n) =
      let (written, id) = write_entitlement p r db (some e) d in
      ledger-SameEvents written (ledger_row p r id (some e) d n)

  grants-SameEvents :
      (e : Event) (request : PackageGrant → GrantRequest) (grants : List PackageGrant)
      (db : Database)
      → SameEvents db (apply_grants p e request grants db).0
  unfolding apply_grants apply_whop_package_grant
  grants-SameEvents e request [] db = refl
  grants-SameEvents e request (g ∷ grants) db =
      let r = request g in
      grants-SameEvents e request grants (apply_whop_package_grant p r db).0
      ∙ conclude-SameEvents r db (existing_row p r db) (outcome p r db (existing_row p r db))

  subscription-SameEvents :
      (customer_id : Text) (info : SubscriptionInfo) (status : SubscriptionStatus) (now : Datetime)
      (db : Database)
      → SameEvents db (upsert_whop_subscription customer_id info status now p db).0
  unfolding upsert_whop_subscription write_subscription
  subscription-SameEvents customer_id info status now db =
      elim (Bool-cases (is_truthy info.membership_id)) [
        | inl e ↦ simp e (written (existing_sub customer_id info status now db))
        | inr e ↦ simp e
      ]
    where
      written :
          (o : Option Subscription)
          → SameEvents db (write_subscription customer_id info status now p db o).0
      written none = refl
      written (some s) = refl

  direct-SameEvents :
      (customer_id product_id : Text) (subscription_id : Option Text) (event_type webhook_id : Text)
      (ip : Option Text) (db : Database) (info : SubscriptionInfo) (status : Status)
      (now : Datetime)
      → SameEvents db
          (upsert_direct_whop_entitlement p customer_id product_id subscription_id event_type
            webhook_id ip db info status now).0
  unfolding upsert_direct_whop_entitlement write_direct audit
  direct-SameEvents customer_id product_id subscription_id event_type webhook_id ip db info status
        now =
      written _ _ _ _
    where
      written :
          (existing : Option Entitlement) (id : Text) (d : Option Decision) (start : Datetime)
          → SameEvents db
              (write_direct p customer_id product_id subscription_id event_type webhook_id ip db
                existing id
                (grant_kind status event_type)
                d
                start
                now).0
      written existing id none start = refl
      written none id (some d) start = refl
      written (some e) id (some d) start = refl

  -- the same, where nothing was raised
  abbrev KeepsEvents : Database → Option (Database × Customer) → Type 0
  KeepsEvents db none = Unit
  KeepsEvents db (some (db', c)) = SameEvents db db'

  written-KeepsEvents :
      (req : CustomerRequest) (db : Database) (o : Option Customer)
      → KeepsEvents db (write_customer p req db o)
  unfolding write_customer audit
  written-KeepsEvents req db none =
      elim (Bool-cases (clashes (new_customer p req (fresh_id p db)) db.customers)) [
        | inl clash ↦ rw clash tt
        | inr free ↦ rw free refl
      ]
  written-KeepsEvents req db (some c) =
      elim (Bool-cases (clashes (known_customer p req c) db.customers)) [
        | inl clash ↦ rw clash tt
        | inr free ↦ rw free refl
      ]

  customer-KeepsEvents :
      (req : CustomerRequest) (db : Database) → KeepsEvents db (create_or_update_customer p req db)
  unfolding create_or_update_customer
  customer-KeepsEvents req db = written-KeepsEvents req db (find (is_known p req) db.customers)

  module _ (e : Event) where
    package-SameEvents :
        (customer : Customer) (whop_package : WhopPackage) (subscription_id : Option Text)
        (grants : List PackageGrant) (db : Database)
        → SameEvents db (apply_package p e customer whop_package subscription_id grants db).0
    unfolding audit
    package-SameEvents customer whop_package subscription_id [] db = refl
    package-SameEvents customer whop_package subscription_id (g ∷ grants) db =
        grants-SameEvents e (request_of p e customer whop_package subscription_id) (g ∷ grants) db

    mapping-SameEvents :
        (customer : Customer) (whop_package : Option WhopPackage) (product : Option Product)
        (subscription_id : Option Text) (db : Database)
        → SameEvents db (apply_mapping p e customer whop_package product (db, subscription_id)).0
    unfolding audit
    mapping-SameEvents customer none none subscription_id db = refl
    mapping-SameEvents customer none (some product) subscription_id db =
        direct-SameEvents customer.id product.id subscription_id e.event_type e.webhook_id
          e.ip_address db e.info (status_of p e) e.now
    mapping-SameEvents customer (some k) product subscription_id db =
        elim (Bool-cases k.is_ignored) [
          | inl skipped ↦ simp skipped
          | inr used ↦ elim (Bool-cases k.is_active) [
            | inl on ↦
                simp (used, on)
                  (package-SameEvents customer k subscription_id (package_grants db k.id) db)
            | inr off ↦ simp (used, off)
          ]
        ]

    granted-SameEvents :
        (whop_package : Option WhopPackage) (product : Option Product) (db db1 : Database)
        (customer : Customer)
        → SameEvents db db1
        → SameEvents db
            (apply_mapping p e customer whop_package product (
              upsert_whop_subscription customer.id e.info
                (normalize_subscription_status (some e.info.status) e.event_type)
                e.now
                p
                db1)).0
    granted-SameEvents whop_package product db db1 customer k =
        let sub_status = normalize_subscription_status (some e.info.status) e.event_type in
        let subscribed = upsert_whop_subscription customer.id e.info sub_status e.now p db1 in
        mapping-SameEvents customer whop_package product subscribed.1 subscribed.0
        ∙ subscription-SameEvents customer.id e.info sub_status e.now db1
        ∙ k

    created-KeepsEvents : (db : Database) → KeepsEvents db (created_customer p e db)
    created-KeepsEvents db = elim (Bool-cases (fails_in customer_session e.raises_in)) [
      | inl fails ↦ rw fails tt
      | inr works ↦ rw works (customer-KeepsEvents (customer_request p e) db)
    ]

    with_customer-SameEvents :
        (whop_package : Option WhopPackage) (product : Option Product) (db : Database)
        (o : Option (Database × Customer))
        → KeepsEvents db o
        → SameEvents db (with_customer p e whop_package product db o).0
    with_customer-SameEvents whop_package product db none k = refl
    with_customer-SameEvents whop_package product db (some (db1, customer)) k =
        elim (Bool-cases (fails_in grant_session e.raises_in)) [
          | inl fails ↦ rw fails k
          | inr works ↦ rw works (granted-SameEvents whop_package product db db1 customer k)
        ]

    mapped-SameEvents :
        (whop_package : Option WhopPackage) (product : Option Product) (db : Database)
        → SameEvents db (mapped p e whop_package product db).0
    unfolding audit
    mapped-SameEvents none none db = refl
    mapped-SameEvents none (some product) db =
        with_customer-SameEvents none (some product) db _ (created-KeepsEvents db)
    mapped-SameEvents (some k) product db =
        with_customer-SameEvents (some k) none db _ (created-KeepsEvents db)

    -- Whatever an event grants, the table of events is left to `process_whop_event`.
    pub entitlement-SameEvents : (db : Database) → SameEvents db (upsert_whop_entitlement p e db).0
    unfolding upsert_whop_entitlement
    entitlement-SameEvents db = elim (Bool-cases (fails_in package_session e.raises_in)) [
      | inl fails ↦ rw fails
      | inr works ↦
          rw works (mapped-SameEvents (find_whop_package db e) (find_direct_whop_product db e) db)
    ]
