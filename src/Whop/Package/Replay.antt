-- ===== src/Whop/Package/Replay.antt =====
-- An event that is delivered again.
use autoedge_licensing_serve.Prelude.{
  ℕ, ◌≡◌, ◌≢◌, refl, Bool, true, false, Option, none, some, arith, any, is_some,
}
use autoedge_licensing_serve.Text.{Text}
use autoedge_licensing_serve.Time.{Datetime}
use autoedge_licensing_serve.Database.{Platform, Database, Entitlement, fresh_id}
use autoedge_licensing_serve.Database.Keys.{HasKey, IsFresh, expiries}
use autoedge_licensing_serve.Whop.Status.{Status, GrantKind, trial, paid, is_granting, is_paid}
use autoedge_licensing_serve.Whop.Ledger.{paid_period_duplicate_exists, has_fingerprint}
use autoedge_licensing_serve.Whop.Expiry.{SubscriptionInfo}
use autoedge_licensing_serve.Whop.Package.Decide.{
  Outcome, duplicate_grant, ignored_grant, decided, package_outcome, is_relative,
}
use autoedge_licensing_serve.Whop.Package.{
  GrantRequest, kind, existing_row, outcome, fingerprint, grant_days, is_duplicate,
  is_duplicate_period, conclude, apply_whop_package_grant, ledger_row,
}
use autoedge_licensing_serve.Whop.Package.Applied.{
  IsApplied, decided-Covers, target_fixed, fingerprint_fixed, target_of, conclude-IsApplied,
  IsApplied-keeps, redelivered, any-record_grant_ledger,
}

-- A duplicate that was refused is refused again at any later time.
refused_again :
    (kind : GrantKind) (existing : Option Entitlement) (duplicate period relative : Bool)
    (target : Option Datetime) (days : Option ℕ) (status : Status) (now now' : Datetime)
    → is_granting kind ≡ true
    → package_outcome kind existing duplicate period relative target days status now
      ≡ duplicate_grant
    → package_outcome kind existing duplicate period relative target days status now'
      ≡ duplicate_grant
unfolding package_outcome
refused_again trial existing duplicate period relative target days status now now' g h =
    ground arith
refused_again _ existing duplicate period relative target days status now now' g h = ground arith

not-ignored :
    (kind : GrantKind) (existing : Option Entitlement) (duplicate period relative : Bool)
    (target : Option Datetime) (days : Option ℕ) (status : Status) (now : Datetime)
    → is_granting kind ≡ true
    → package_outcome kind existing duplicate period relative target days status now ≢ ignored_grant
unfolding package_outcome
not-ignored trial existing duplicate period relative target days status now g = ground arith
not-ignored _ existing duplicate period relative target days status now g = ground arith

module _ (p : Platform) (r : GrantRequest) (webhook_id : Text) (now : Datetime) where
  abbrev again : GrantRequest
  again = redelivered r webhook_id now

  redelivered-IsApplied :
      (db : Database) (target : Option Datetime)
      → is_granting (kind p r) ≡ true
      → IsApplied p r db target
      → IsApplied p again db target
  redelivered-IsApplied db target g a = record {
    key = a.key;
    row = a.row;
    found = a.found;
    covers = a.covers;
    recorded =
        rw
          (fingerprint_fixed p r.customer_id r.whop_package.id r.grant.product_id r.info webhook_id
            r.webhook_id (kind p r) g)
          a.recorded;
  }

  refused_outcome :
      (db : Database) (existing : Option Entitlement)
      → is_granting (kind p r) ≡ true
      → is_some r.info.period_start ≡ true
      → outcome p r db existing ≡ duplicate_grant
      → outcome p again db existing ≡ duplicate_grant
  refused_outcome db existing g s made =
      rw
        (
          fingerprint_fixed p r.customer_id r.whop_package.id r.grant.product_id r.info webhook_id
              r.webhook_id (kind p r) g,
          target_fixed (kind p r) r.info (grant_days p r) existing existing now r.now g s,
        )
        (refused_again (kind p r) existing _ _ _ _ _ r.status r.now now g made)

  replay_after :
      (db : Database) (out : Outcome)
      → HasKey db.entitlements
      → IsFresh (fresh_id p db) db.entitlements
      → is_granting (kind p r) ≡ true
      → is_some r.info.period_start ≡ true
      → outcome p r db (existing_row p r db) ≡ out
      → let db1 = (conclude p r db (existing_row p r db) out).0 in
        (expiries (apply_whop_package_grant p again db1).0.entitlements ≡ expiries db1.entitlements)
        × ((apply_whop_package_grant p again db1).1.days_applied ≡ 0)
  replay_after db duplicate_grant key fresh g s made =
      unfold conclude apply_whop_package_grant in
      rw (refused_outcome db (existing_row p r db) g s made) (refl, refl)
  replay_after db ignored_grant key fresh g s made =
      absurd (not-ignored (kind p r) _ _ _ _ _ _ _ _ g made)
  replay_after db (decided d n) key fresh g s made =
      let target = target_of p r (existing_row p r db) in
      IsApplied-keeps p again _ target g
        (redelivered-IsApplied _ target g (
          conclude-IsApplied p r db target (existing_row p r db) d n key fresh refl
            (decided-Covers (kind p r) (existing_row p r db) _ _ _ target _ r.status r.now g made)))
        (λ existing.
          target_fixed (kind p r) r.info (grant_days p r) existing (existing_row p r db) now r.now g
            s)

  -- A trial, payment or renewal with a known start of its period, delivered again at any time and
  -- under any webhook id, changes no row's expiry and counts no further days. The entitlements have
  -- distinct ids, and the next identifier is new.
  pub replay_adds_nothing :
      (db : Database)
      → HasKey db.entitlements
      → IsFresh (fresh_id p db) db.entitlements
      → is_granting (kind p r) ≡ true
      → is_some r.info.period_start ≡ true
      → let db1 = (apply_whop_package_grant p r db).0 in
        (expiries (apply_whop_package_grant p again db1).0.entitlements ≡ expiries db1.entitlements)
        × ((apply_whop_package_grant p again db1).1.days_applied ≡ 0)
  unfolding apply_whop_package_grant
  replay_adds_nothing db key fresh g s = replay_after db _ key fresh g s refl

-- what refuses an event whose period is not in the ledger is its fingerprint
duplicate_of_refused :
    (kind : GrantKind) (existing : Option Entitlement) (duplicate relative : Bool)
    (target : Option Datetime) (days : Option ℕ) (status : Status) (now : Datetime)
    → package_outcome kind existing duplicate false relative target days status now
      ≡ duplicate_grant
    → duplicate ≡ true
unfolding package_outcome
duplicate_of_refused trial existing duplicate relative target days status now h = ground arith
duplicate_of_refused _ existing duplicate relative target days status now h = ground arith

-- a duplicate that only counts days from today is refused
refused_relative :
    (kind : GrantKind) (existing : Option Entitlement) (period : Bool) (target : Option Datetime)
    (days : Option ℕ) (status : Status) (now : Datetime)
    → is_paid kind ≡ true
    → package_outcome kind existing true period true target days status now ≡ duplicate_grant
unfolding package_outcome
refused_relative paid existing period target days status now h = refl
refused_relative _ existing period target days status now h = ground arith

pub granting_of_paid : (kind : GrantKind) → is_paid kind ≡ true → is_granting kind ≡ true
granting_of_paid paid h = refl
granting_of_paid _ h = ground arith

pub no_start :
    (kind : GrantKind) (info : SubscriptionInfo) (days : Option ℕ)
    → is_relative kind info days ≡ true
    → (is_paid kind ≡ true) × (info.period_start ≡ none)
unfolding is_relative
no_start kind info days h = ground arith

module _ (p : Platform) (r : GrantRequest) where
  -- the ledger after the first delivery of a payment without a start of its period
  pub recorded_after :
      (db : Database) (existing : Option Entitlement) (out : Outcome)
      → is_granting (kind p r) ≡ true
      → is_duplicate_period p r db ≡ false
      → outcome p r db existing ≡ out
      → any
          (has_fingerprint (fingerprint p r))
          (conclude p r db existing out).0.license_grant_ledger
        ≡ true
  unfolding conclude
  recorded_after db existing duplicate_grant g period made =
      let d =
        duplicate_of_refused (kind p r) existing (is_duplicate p r db) _ _ _ r.status r.now
          (rw period at made) in
      ground (arith, d)
  recorded_after db existing ignored_grant g period made =
      absurd (not-ignored (kind p r) _ _ _ _ _ _ _ _ g made)
  recorded_after db none (decided d n) g period made =
      any-record_grant_ledger p _ (ledger_row p r (fresh_id p db) none d n)
  recorded_after db (some e) (decided d n) g period made =
      any-record_grant_ledger p _ (ledger_row p r e.id (some e) d n)

  pub no_period : (db : Database) → r.info.period_start ≡ none → is_duplicate_period p r db ≡ false
  unfolding paid_period_duplicate_exists
  no_period db start = rw start (ground arith)

  pub refused_in :
      (db : Database) (existing : Option Entitlement)
      → is_relative (kind p r) r.info (grant_days p r) ≡ true
      → any (has_fingerprint (fingerprint p r)) db.license_grant_ledger ≡ true
      → outcome p r db existing ≡ duplicate_grant
  refused_in db existing rel recorded =
      let h = (no_start (kind p r) r.info (grant_days p r) rel).0 in
      rw (rel, granting_of_paid (kind p r) h, recorded)
        (refused_relative (kind p r) existing _ _ _ r.status r.now h)
