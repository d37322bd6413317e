-- ===== src/Whop/Package/Applied.antt =====
-- An event that has been applied: what the ledger and the row then hold, and what a further
-- delivery makes of them.
use autoedge_licensing_serve.Prelude.{
  ℕ, ◌≤◌, ◌≡◌, refl, Bool, true, Option, none, some, List, ◌∷◌, [], ◌++◌, arith, inl, inr, any,
  is_some, Bool-cases,
}
use autoedge_licensing_serve.Text.{Text}
use autoedge_licensing_serve.Text.Laws.{same_text_self}
use autoedge_licensing_serve.Time.{Datetime, Stamp, iso, iso_optional}
use autoedge_licensing_serve.Database.{Platform, Database, Entitlement, LedgerRow, fresh_id}
use autoedge_licensing_serve.Database.Keys.{
  HasKey, IsFresh, HasKey-insert, HasKey-update, expiries, expiries-update, find-update,
  find-insert, find-passes,
}
use autoedge_licensing_serve.Whop.Status.{Status, GrantKind, trial, is_granting}
use autoedge_licensing_serve.Whop.Direct.{Decision}
use autoedge_licensing_serve.Whop.Ledger.{record_grant_ledger, has_fingerprint, grant_fingerprint}
use autoedge_licensing_serve.Whop.Expiry.{SubscriptionInfo, entitlement_expiry_target}
use autoedge_licensing_serve.Whop.Package.Decide.{
  Outcome, duplicate_grant, ignored_grant, decided, package_outcome, grant_target, is_relative,
}
use autoedge_licensing_serve.Whop.Package.{
  GrantRequest, external_id, kind, existing_row, outcome, fingerprint, grant_days,
  is_duplicate_period, is_package_row, conclude, apply_whop_package_grant, updated_row,
  inserted_row, start_time, ledger_row,
}
use autoedge_licensing_serve.Whop.Package.Coverage.{entitlements-record_grant_ledger}

-- a stored expiry reaches a target
abbrev pub Covers : Option Stamp → Option Datetime → Type 0
Covers none target = Unit
Covers (some s) none = Unit
Covers (some s) (some t) = iso t ≤ s

-- what a grant stores reaches what it asked for
pub decided-Covers :
    (kind : GrantKind) (existing : Option Entitlement) (duplicate period relative : Bool)
    (target : Option Datetime) (days : Option ℕ) (status : Status) (now : Datetime) {d : Decision}
    {n : ℕ}
    → is_granting kind ≡ true
    → package_outcome kind existing duplicate period relative target days status now ≡ decided d n
    → Covers (iso_optional d.expires_at) target
unfolding package_outcome
decided-Covers trial existing duplicate period relative target days status now g h = ground arith
decided-Covers _ existing duplicate period relative target days status now g h = ground arith

-- A duplicate whose target is reached leaves the expiry and counts no days.
duplicate_keeps :
    (kind : GrantKind) (e : Entitlement) (period relative : Bool) (target : Option Datetime)
    (days : Option ℕ) (status : Status) (now : Datetime) {d : Decision} {n : ℕ}
    → is_granting kind ≡ true
    → Covers e.expires_at target
    → package_outcome kind (some e) true period relative target days status now ≡ decided d n
    → (iso_optional d.expires_at ≡ e.expires_at) × (n ≡ 0)
unfolding package_outcome
duplicate_keeps trial e period relative target days status now g c h = ground arith
duplicate_keeps _ e period relative target days status now g c h = ground arith

-- With a period's start the target depends neither on the clock nor on what is stored.
pub target_fixed :
    (kind : GrantKind) (info : SubscriptionInfo) (days : Option ℕ)
    (existing existing' : Option Entitlement) (now now' : Datetime)
    → is_granting kind ≡ true
    → is_some info.period_start ≡ true
    → grant_target kind info days existing now ≡ grant_target kind info days existing' now'
unfolding grant_target entitlement_expiry_target
target_fixed trial info days existing existing' now now' g s = ground arith
target_fixed _ info days existing existing' now now' g s = ground arith

pub fingerprint_fixed :
    (p : Platform) (c k i : Text) (info : SubscriptionInfo) (w w' : Text) (kind : GrantKind)
    → is_granting kind ≡ true
    → grant_fingerprint p c k i info w kind ≡ grant_fingerprint p c k i info w' kind
unfolding grant_fingerprint
fingerprint_fixed p c k i info w w' trial g = refl
fingerprint_fixed p c k i info w w' _ g = ground arith

-- the same event, delivered with another webhook id at another time
abbrev pub redelivered : GrantRequest → Text → Datetime → GrantRequest
redelivered r webhook_id now = record r { webhook_id = webhook_id; now = now }

abbrev pub target_of : Platform → GrantRequest → Option Entitlement → Option Datetime
target_of p r existing = grant_target (kind p r) r.info (grant_days p r) existing r.now

pub any-record_grant_ledger :
    (p : Platform) (db : Database) (row : LedgerRow)
    → any
        (has_fingerprint row.event_fingerprint)
        (record_grant_ledger p db row).license_grant_ledger
      ≡ true
unfolding record_grant_ledger
any-record_grant_ledger p db row =
    elim (Bool-cases (any (has_fingerprint row.event_fingerprint) db.license_grant_ledger)) [
      | inl there ↦ rw there there
      | inr new ↦ rw new (added db.license_grant_ledger)
    ]
  where
    added :
        (rows : List LedgerRow)
        → any
            (has_fingerprint row.event_fingerprint)
            (rows ++ record row { id = fresh_id p db } ∷ [])
          ≡ true
    added [] = rw same_text_self
    added (x ∷ rows) = ground (arith, added rows)

-- the event is in the ledger, and its row covers what it asks for
pub record IsApplied (p : Platform) (r : GrantRequest) (db : Database) (target : Option Datetime)
    : Type 0 where
  pub key : HasKey db.entitlements
  pub row : Entitlement
  pub found : existing_row p r db ≡ some row
  pub covers : Covers row.expires_at target
  pub recorded : any (has_fingerprint (fingerprint p r)) db.license_grant_ledger ≡ true

module _ (p : Platform) (r : GrantRequest) where
  pub updated_row-passes :
      (d : Decision) (start : Datetime) (e : Entitlement)
      → is_package_row (external_id p r) r.whop_package.id e ≡ true
      → is_package_row (external_id p r) r.whop_package.id (updated_row p r d start e) ≡ true
  updated_row-passes d start e h = ground (arith, same_text_self r.whop_package.id)

  pub conclude-IsApplied :
      (db : Database) (target : Option Datetime) (existing : Option Entitlement) (d : Decision)
      (n : ℕ)
      → HasKey db.entitlements
      → IsFresh (fresh_id p db) db.entitlements
      → existing_row p r db ≡ existing
      → Covers (iso_optional d.expires_at) target
      → IsApplied p r (conclude p r db existing (decided d n)).0 target
  unfolding conclude
  conclude-IsApplied db target none d n key fresh found c = record {
    key = rw entitlements-record_grant_ledger (HasKey-insert db.entitlements _ key fresh);
    row = inserted_row p r (fresh_id p db) d (start_time p r none);
    found = rw entitlements-record_grant_ledger (
        find-insert _ _ db.entitlements found
          (ground (arith, same_text_self (external_id p r), same_text_self r.whop_package.id)));
    covers = c;
    recorded = any-record_grant_ledger p _ (ledger_row p r (fresh_id p db) none d n);
  }
  conclude-IsApplied db target (some e) d n key fresh found c = record {
    key = rw entitlements-record_grant_ledger (HasKey-update _ _ db.entitlements (λ x. refl) key);
    row = updated_row p r d (start_time p r (some e)) e;
    found = rw entitlements-record_grant_ledger (
        find-update _ _ db.entitlements key found
          (updated_row-passes d (start_time p r (some e)) e (find-passes _ db.entitlements found)));
    covers = c;
    recorded = any-record_grant_ledger p _ (ledger_row p r e.id (some e) d n);
  }

  -- a further decision that keeps the expiry of the row that is found
  conclude_keeps :
      (db : Database) (e : Entitlement) (out : Outcome)
      → HasKey db.entitlements
      → existing_row p r db ≡ some e
      → ((d : Decision) (n : ℕ)
          → out ≡ decided d n
          → (iso_optional d.expires_at ≡ e.expires_at) × (n ≡ 0))
      → (expiries (conclude p r db (some e) out).0.entitlements ≡ expiries db.entitlements)
        × ((conclude p r db (some e) out).1.days_applied ≡ 0)
  unfolding conclude
  conclude_keeps db e duplicate_grant key found h = (refl, refl)
  conclude_keeps db e ignored_grant key found h = (refl, refl)
  conclude_keeps db e (decided d n) key found h = (
    rw entitlements-record_grant_ledger
        (expiries-update _ _ db.entitlements key found (h d n refl).0),
    (h d n refl).1,
  )

-- A delivery of an event that is in the ledger, whose target is reached.
pub IsApplied-keeps :
    (p : Platform) (r : GrantRequest) (db : Database) (target : Option Datetime)
    → is_granting (kind p r) ≡ true
    → IsApplied p r db target
    → ((existing : Option Entitlement) → target_of p r existing ≡ target)
    → (expiries (apply_whop_package_grant p r db).0.entitlements ≡ expiries db.entitlements)
      × ((apply_whop_package_grant p r db).1.days_applied ≡ 0)
unfolding apply_whop_package_grant
IsApplied-keeps p r db target g a t = rw a.found (
    conclude_keeps p r db a.row (outcome p r db (some a.row)) a.key a.found λ d n made.
      duplicate_keeps (kind p r) a.row _ _ target _ r.status r.now g a.covers (
        let q : package_outcome (kind p r) (some a.row) true (is_duplicate_period p r db)
              (is_relative (kind p r) r.info (grant_days p r)) target (grant_days p r) r.status
              r.now
            ≡ decided d n =
          ground (arith, a.recorded, t (some a.row)) in
        q))
