-- ===== src/Whop/Package/Limits.antt =====
-- A suspension of access without expiry, and a payment that is delivered again without the start
-- of its period.
use autoedge_licensing_serve.Prelude.{
  ℕ, ◌+◌, ◌≤◌, ◌<◌, ◌*◌, ◌≡◌, refl, Bool, true, false, Option, none, some, arith, any,
}
use autoedge_licensing_serve.Time.{Datetime, Stamp, iso, days, second}
use autoedge_licensing_serve.Database.{Platform, Database, Entitlement}
use autoedge_licensing_serve.Database.Keys.{HasKey, find-update, find-passes}
use autoedge_licensing_serve.Whop.Status.{GrantKind, suspend, paid, Status, is_paid, is_granting}
use autoedge_licensing_serve.Whop.Ledger.{has_fingerprint}
use autoedge_licensing_serve.Whop.Expiry.{SubscriptionInfo, entitlement_expiry_target}
use autoedge_licensing_serve.Whop.Direct.{Decision}
use autoedge_licensing_serve.Whop.Package.Decide.{
  decided, package_outcome, grant_target, is_relative, granted,
}
use autoedge_licensing_serve.Whop.Package.{
  GrantRequest, existing_row, outcome, kind, grant_days, fingerprint, conclude,
  apply_whop_package_grant, is_duplicate_period, start_time, updated_row,
}
use autoedge_licensing_serve.Whop.Package.Coverage.{entitlements-record_grant_ledger}
use autoedge_licensing_serve.Whop.Package.Applied.{updated_row-passes}

suspend_outcome :
    (kind : GrantKind) (info : SubscriptionInfo) (e : Entitlement)
    (duplicate period relative : Bool) (grant_days : Option ℕ) (status : Status) (now x : Datetime)
    → kind ≡ suspend
    → e.expires_at ≡ none
    → info.expires_at ≡ some x
    → (d : Decision) × (package_outcome kind
          (some e)
          duplicate
          period
          relative
          (grant_target kind info grant_days (some e) now)
          grant_days
          status
          now
        ≡ decided d 0)
      × (d.expires_at ≡ some x)
unfolding package_outcome grant_target entitlement_expiry_target
suspend_outcome suspend info e duplicate period relative none status now x k lifetime end = (
  record { status = Status.suspended; expires_at = some x; revoked_at = none },
  ground arith,
  refl,
)
suspend_outcome suspend info e duplicate period relative (some g) status now x k lifetime end = (
  record { status = Status.suspended; expires_at = some x; revoked_at = none },
  ground arith,
  refl,
)
suspend_outcome _ info e duplicate period relative g status now x k lifetime end =
    absurd (ground arith)

late_target :
    (kind : GrantKind) (info : SubscriptionInfo) (existing : Option Entitlement) (d : ℕ)
    (now x : Datetime)
    → is_paid kind ≡ true
    → info.period_start ≡ none
    → info.expires_at ≡ some x
    → x ≤ now + days d
    → grant_target kind info (some d) existing now ≡ some (now + days d)
unfolding grant_target entitlement_expiry_target is_relative
late_target paid info existing d now x k start end le = ground arith
late_target _ info existing d now x k start end le = ground arith

late_outcome :
    (kind : GrantKind) (e : Entitlement) (period : Bool) (d : ℕ) (status : Status)
    (now t : Datetime) (s : Stamp)
    → is_paid kind ≡ true
    → e.expires_at ≡ some s
    → s * second < t
    → (package_outcome kind (some e) true period false (some t) (some d) status now
        ≡ decided (granted kind (some e) (some t) status) 0)
      × ((granted kind (some e) (some t) status).expires_at ≡ some t)
unfolding package_outcome granted
late_outcome paid e period d status now t s k ends lt = (ground arith, ground arith)
late_outcome _ e period d status now t s k ends lt = (ground arith, ground arith)

not_relative :
    (kind : GrantKind) (info : SubscriptionInfo) (days : Option ℕ) {x : Datetime}
    → info.expires_at ≡ some x
    → is_relative kind info days ≡ false
unfolding is_relative
not_relative kind info days end = ground arith

granting_of_paid : (kind : GrantKind) → is_paid kind ≡ true → is_granting kind ≡ true
granting_of_paid paid h = refl
granting_of_paid _ h = ground arith

module _ (p : Platform) (r : GrantRequest) (db : Database) (e : Entitlement)
    (key : HasKey db.entitlements) (found : existing_row p r db ≡ some e) where
  -- the row after a decision on a row that exists
  row_after :
      (d : Decision) (n : ℕ)
      → existing_row p r (conclude p r db (some e) (decided d n)).0
        ≡ some (updated_row p r d (start_time p r (some e)) e)
  unfolding conclude
  row_after d n = rw entitlements-record_grant_ledger (
      find-update _ _ db.entitlements key found (
        updated_row-passes p r d (start_time p r (some e)) e (find-passes _ db.entitlements found)))

  -- A suspension with a period's end, of the grant's row when that has no expiry, gives the row the
  -- period's end as its expiry. The entitlements have distinct ids.
  pub suspension_limits_lifetime :
      (x : Datetime)
      → kind p r ≡ suspend
      → e.expires_at ≡ none
      → r.info.expires_at ≡ some x
      → (e' : Entitlement) × (existing_row p r (apply_whop_package_grant p r db).0 ≡ some e')
        × (e'.expires_at ≡ some (iso x))
  unfolding apply_whop_package_grant
  suspension_limits_lifetime x k lifetime end =
      let (d, made, until) =
        suspend_outcome (kind p r) r.info e _ _ _ (grant_days p r) r.status r.now x k lifetime
          end in
      let o : outcome p r db (some e) ≡ decided d 0 = made in
      (updated_row p r d (start_time p r (some e)) e, rw (found, o) (row_after d 0), rw until)

  -- A payment that is in the ledger, with configured days and a period's end but no start of the
  -- period, delivered again when the row's coverage ends before the configured days counted from
  -- now do, and the period's end is not after those, moves the row's expiry to the configured days
  -- from now, and counts no days for it. The entitlements have distinct ids.
  pub late_redelivery_extends :
      (d : ℕ) (x : Datetime) (s : Stamp)
      → is_paid (kind p r) ≡ true
      → grant_days p r ≡ some d
      → r.info.period_start ≡ none
      → r.info.expires_at ≡ some x
      → x ≤ r.now + days d
      → e.expires_at ≡ some s
      → s * second < r.now + days d
      → any (has_fingerprint (fingerprint p r)) db.license_grant_ledger ≡ true
      → (e' : Entitlement) × (existing_row p r (apply_whop_package_grant p r db).0 ≡ some e')
        × (e'.expires_at ≡ some (iso (r.now + days d)))
        × ((apply_whop_package_grant p r db).1.days_applied ≡ 0)
  unfolding apply_whop_package_grant
  late_redelivery_extends d x s k gd start end le ends lt recorded =
      let (made, until) =
        late_outcome (kind p r) e (is_duplicate_period p r db) d r.status r.now (r.now + days d) s k
          ends lt in
      let o : outcome p r db (some e)
          ≡ decided (granted (kind p r) (some e) (some (r.now + days d)) r.status) 0 =
        rw
          (
            gd,
            late_target (kind p r) r.info (some e) d r.now x k start end le,
            not_relative (kind p r) r.info (some d) end,
            granting_of_paid (kind p r) k,
            recorded,
          )
          (rw (granting_of_paid (kind p r) k) at made) in
      let d' = granted (kind p r) (some e) (some (r.now + days d)) r.status in
      (
        updated_row p r d' (start_time p r (some e)) e,
        rw (found, o) (row_after d' 0),
        rw until,
        rw (found, o) (unfold conclude in refl),
      )
