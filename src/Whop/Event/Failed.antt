-- ===== src/Whop/Event/Failed.antt =====
-- A failed event leaves no part of its grants, and is handled when it is delivered again.
use autoedge_licensing_serve.Prelude.{
  ◌≡◌, ◌≢◌, ◌⊎◌, refl, sym, ◌∙◌, ap, subst, arith, false, Option, none, some, List, [], ◌∷◌,
  Bool-cases, inl, inr, find,
}
use autoedge_licensing_serve.Text.{Text}
use autoedge_licensing_serve.Database.{
  Platform, Database, Customer, Product, WhopPackage, WebhookEvent, failed, audit, fresh_id,
}
use autoedge_licensing_serve.Whop.Status.{normalize_subscription_status}
use autoedge_licensing_serve.Whop.Subscription.{upsert_whop_subscription}
use autoedge_licensing_serve.Whop.Package.{PackageGrant}
use autoedge_licensing_serve.Whop.Customers.{
  CustomerRequest, create_or_update_customer, write_customer, new_customer, known_customer, clashes,
  is_known,
}
use autoedge_licensing_serve.Whop.Event.{
  Event, Outcome, returned, raised, duplicate_event, receive, finish, is_processed,
  process_whop_event, upsert_whop_entitlement, mapped, with_customer, apply_mapping, apply_package,
  find_whop_package, find_direct_whop_product, package_grants, customer_request, created_customer,
  fails_in, package_session, customer_session, grant_session,
}
use autoedge_licensing_serve.Whop.Event.Once.{event_of, finished, finish-eq, process-eq, handled}

-- the two databases have the same subscriptions, entitlements and ledger
abbrev pub SameGrants : Database → Database → Type 0
SameGrants db db1 =
    (db1.subscriptions ≡ db.subscriptions)
    × (db1.entitlements ≡ db.entitlements)
    × (db1.license_grant_ledger ≡ db.license_grant_ledger)

module _ (p : Platform) (req : CustomerRequest) where
  written-SameGrants :
      (db : Database) (o : Option Customer) {db1 : Database} {c : Customer}
      → write_customer p req db o ≡ some (db1, c)
      → SameGrants db db1
  unfolding write_customer audit
  written-SameGrants db none {db1} h =
      elim (Bool-cases (clashes (new_customer p req (fresh_id p db)) db.customers)) [
        | inl clash ↦ cc (rw clash at h)
        | inr free ↦ let h' = rw free at h in (ground arith, ground arith, ground arith)
      ]
  written-SameGrants db (some known) {db1} h =
      elim (Bool-cases (clashes (known_customer p req known) db.customers)) [
        | inl clash ↦ cc (rw clash at h)
        | inr free ↦ let h' = rw free at h in (ground arith, ground arith, ground arith)
      ]

  customer-SameGrants :
      (db : Database) {db1 : Database} {c : Customer}
      → create_or_update_customer p req db ≡ some (db1, c)
      → SameGrants db db1
  unfolding create_or_update_customer
  customer-SameGrants db h = written-SameGrants db (find (is_known p req) db.customers) h

module _ (p : Platform) (e : Event) where
  mapping_returns :
      (customer : Customer) (k : Option WhopPackage) (product : Option Product) (db : Database)
      (subscription_id : Option Text)
      → (apply_mapping p e customer k product (db, subscription_id)).1 ≢ raised
  mapping_returns customer none none db subscription_id h = cc
  mapping_returns customer none (some product) db subscription_id h = cc
  mapping_returns customer (some k) product db subscription_id h = elim (Bool-cases k.is_ignored) [
    | inl skipped ↦ let h' = simp skipped at h in cc
    | inr used ↦ elim (Bool-cases k.is_active) [
      | inl on ↦ grants_return (package_grants db k.id) (simp (used, on) at h)
      | inr off ↦ let h' = simp (used, off) at h in cc
    ]
  ]
    where
      grants_return :
          (grants : List PackageGrant)
          → (apply_package p e customer k subscription_id grants db).1 ≢ raised
      grants_return [] h = cc
      grants_return (g ∷ grants) h = cc

  -- nothing is written, or what `create_or_update_customer` commits
  abbrev IsRolledBack : Database → Database → Type 0
  IsRolledBack db after =
      (after ≡ db)
      ⊎ ((c : Customer) × (create_or_update_customer p (customer_request p e) db ≡ some (after, c)))

  created-eq :
      (db : Database) {made : Database × Customer}
      → created_customer p e db ≡ some made
      → create_or_update_customer p (customer_request p e) db ≡ some made
  created-eq db h = elim (Bool-cases (fails_in customer_session e.raises_in)) [
    | inl fails ↦ cc (rw fails at h)
    | inr works ↦ rw works at h
  ]

  with_customer-IsRolledBack :
      (k : Option WhopPackage) (product : Option Product) (db : Database)
      (o : Option (Database × Customer))
      → created_customer p e db ≡ o
      → (with_customer p e k product db o).1 ≡ raised
      → IsRolledBack db (with_customer p e k product db o).0
  with_customer-IsRolledBack k product db none made h = inl refl
  with_customer-IsRolledBack k product db (some (db1, c)) made h =
      elim (Bool-cases (fails_in grant_session e.raises_in)) [
        | inl fails ↦ rw fails (inr (c, created-eq db made))
        | inr works ↦
            let subscribed =
              upsert_whop_subscription c.id e.info
                (normalize_subscription_status (some e.info.status) e.event_type) e.now p db1 in
            absurd (mapping_returns c k product subscribed.0 subscribed.1 (rw works at h))
      ]

  mapped-IsRolledBack :
      (k : Option WhopPackage) (product : Option Product) (db : Database)
      → (mapped p e k product db).1 ≡ raised
      → IsRolledBack db (mapped p e k product db).0
  mapped-IsRolledBack none none db h = cc
  mapped-IsRolledBack none (some product) db h =
      with_customer-IsRolledBack none (some product) db (created_customer p e db) refl h
  mapped-IsRolledBack (some k) product db h =
      with_customer-IsRolledBack (some k) none db (created_customer p e db) refl h

  raised-IsRolledBack :
      (db : Database)
      → (upsert_whop_entitlement p e db).1 ≡ raised
      → IsRolledBack db (upsert_whop_entitlement p e db).0
  unfolding upsert_whop_entitlement
  raised-IsRolledBack db h = elim (Bool-cases (fails_in package_session e.raises_in)) [
    | inl fails ↦ rw fails (inl refl)
    | inr works ↦ rw works (
        mapped-IsRolledBack (find_whop_package db e) (find_direct_whop_product db e) db
          (rw works at h))
  ]

  receive-SameGrants :
      (db : Database) (existing : Option WebhookEvent) → SameGrants db (receive p e existing db)
  unfolding receive
  receive-SameGrants db none = (refl, refl, refl)
  receive-SameGrants db (some w) = (refl, refl, refl)

  receive-customers :
      (db : Database) (existing : Option WebhookEvent)
      → (receive p e existing db).customers ≡ db.customers
  unfolding receive
  receive-customers db none = refl
  receive-customers db (some w) = refl

  -- the customers are as they were, or as `create_or_update_customer` left them
  abbrev pub HasCommitted : Database → Database → Type 0
  HasCommitted db db1 =
      (db1.customers ≡ db.customers)
      ⊎ ((db2 : Database) × (c : Customer) × (create_or_update_customer p (customer_request p e)
              (receive p e (event_of e.webhook_id db) db)
            ≡ some (db2, c))
          × (db1.customers ≡ db2.customers))

  -- the tables after the handling raised
  rolled_back :
      (db after : Database)
      → IsRolledBack (receive p e (event_of e.webhook_id db) db) after
      → HasCommitted db after × SameGrants db after
  rolled_back db after (inl same) =
      let arrived = receive-SameGrants db (event_of e.webhook_id db) in
      rw same (inl (receive-customers db (event_of e.webhook_id db)), arrived)
  rolled_back db after (inr (c, made)) =
      let arrived = receive-SameGrants db (event_of e.webhook_id db) in
      let kept = customer-SameGrants p (customer_request p e) _ made in
      (inr (after, c, made, refl), (kept.0 ∙ arrived.0, kept.1 ∙ arrived.1, kept.2 ∙ arrived.2))

  -- what a failed event leaves behind
  abbrev pub HasFailed : Text → Database → Database → Type 0
  HasFailed error db db1 =
      ((w : WebhookEvent) × (event_of e.webhook_id db1 ≡ some w)
        × (w.status ≡ failed)
        × (w.error ≡ some error)
        × ((later : Event) (error' : Text)
            → let again = record later { webhook_id = e.webhook_id } in
              process_whop_event p again error' db1
              ≡ finish p again error'
                  (upsert_whop_entitlement p again (receive p again (some w) db1))))
      × HasCommitted db db1
      × SameGrants db db1

module _ (p : Platform) where
  -- a failed row is no duplicate
  retried :
      (later : Event) (error : Text) (db : Database) {w : WebhookEvent}
      → event_of later.webhook_id db ≡ some w
      → w.status ≡ failed
      → process_whop_event p later error db
        ≡ finish p later error (upsert_whop_entitlement p later (receive p later (some w) db))
  unfolding process_whop_event
  retried later error db {w} found bad =
      let new : is_processed p later (some w) ≡ false = simp bad in rw (found, new)

  -- An event whose handling raises, in whichever session, is marked as failed, under its webhook id
  -- and with the text of the exception. No subscription, entitlement or ledger row is changed or
  -- added; the customers are as before, or as `create_or_update_customer` committed them. A later
  -- delivery under that webhook id is handled again.
  pub process_whop_event_failed :
      (e : Event) (error : Text) (db : Database) {db1 : Database}
      → process_whop_event p e error db ≡ (db1, raised)
      → HasFailed p e error db db1
  unfolding process_whop_event
  process_whop_event_failed e error db {db1} h =
      elim (Bool-cases (is_processed p e (event_of e.webhook_id db))) [
        | inl known ↦
            let h' : (db, returned duplicate_event) ≡ (db1, raised) = rw known at h in
            let r : returned duplicate_event ≡ raised = ap (λ (x : Database × Outcome). x.1) h' in
            cc
        | inr new ↦ by_outcome (handled p e db).1 refl (sym (process-eq p e error db new) ∙ h)
      ]
    where
      by_outcome :
          (o : Outcome)
          → (handled p e db).1 ≡ o
          → finish p e error (handled p e db) ≡ (db1, raised)
          → HasFailed p e error db db1
      by_outcome (returned a) q h' =
          let r : returned a ≡ raised =
            ap (λ (x : Database × Outcome). x.1)
              (sym (finish-eq p e error (handled p e db) q) ∙ h') in
          cc
      by_outcome raised q h' =
          let change = λ (w : WebhookEvent). record w { status = failed; error = some error } in
          let same =
            ap (λ (x : Database × Outcome). x.0)
              (sym (finish-eq p e error (handled p e db) q) ∙ h') in
          let (w, found) = finished p e db change (λ w. refl) in
          let arrived = receive p e (event_of e.webhook_id db) db in
          let (committed, kept) =
            rolled_back p e db (handled p e db).0 (raised-IsRolledBack p e arrived q) in
          subst (HasFailed p e error db) same (
            (
              change w,
              found,
              refl,
              refl,
              (λ later error'.
                  retried (record later { webhook_id = e.webhook_id }) error' _ found refl),
            ),
            committed,
            kept,
          )
