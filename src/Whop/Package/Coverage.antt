-- ===== src/Whop/Package/Coverage.antt =====
-- What a package grant makes of the coverage that is stored.
use autoedge_licensing_serve.Prelude.{
  ◌≡◌, ◌≢◌, refl, Bool, Option, none, some, arith, Option-cases, inl, inr, find, ℕ,
}
use autoedge_licensing_serve.Time.{Datetime, iso_optional}
use autoedge_licensing_serve.Database.{Platform, Database, Entitlement, LedgerRow}
use autoedge_licensing_serve.Database.Keys.{
  HasKey, NotShorter, KeepsCoverage, KeepsCoverage-refl, KeepsCoverage-insert, KeepsCoverage-update,
}
use autoedge_licensing_serve.Whop.Status.{Status, GrantKind, suspend}
use autoedge_licensing_serve.Whop.Direct.{Decision}
use autoedge_licensing_serve.Whop.Ledger.{record_grant_ledger}
use autoedge_licensing_serve.Whop.Package.Decide.{
  Outcome, duplicate_grant, ignored_grant, decided, package_outcome,
}
use autoedge_licensing_serve.Whop.Package.{
  GrantRequest, is_package_row, external_id, kind, existing_row, outcome, conclude,
  apply_whop_package_grant,
}

-- the ledger is another table
pub entitlements-record_grant_ledger :
    (p : Platform) (db : Database) (row : LedgerRow)
    → (record_grant_ledger p db row).entitlements ≡ db.entitlements
unfolding record_grant_ledger
entitlements-record_grant_ledger p db row = ground arith

-- a suspension of access without expiry is left out
outcome-NotShorter :
    (kind : GrantKind) (e : Entitlement) (duplicate period relative : Bool)
    (target : Option Datetime) (days : Option ℕ) (status : Status) (now : Datetime) {d : Decision}
    {n : ℕ}
    → (kind ≡ suspend → e.expires_at ≢ none)
    → package_outcome kind (some e) duplicate period relative target days status now ≡ decided d n
    → NotShorter e.expires_at (iso_optional d.expires_at)
unfolding package_outcome
outcome-NotShorter suspend e duplicate period relative target days status now limited h =
    elim (Option-cases e.expires_at) [
      | inl without ↦ absurd (limited refl without)
      | inr (s, with') ↦ ground arith
    ]
outcome-NotShorter _ e duplicate period relative target days status now limited h = ground arith

module _ (p : Platform) (r : GrantRequest) where
  conclude-KeepsCoverage :
      (db : Database) (test : Entitlement → Bool) (existing : Option Entitlement) (out : Outcome)
      → HasKey db.entitlements
      → find test db.entitlements ≡ existing
      → ((e : Entitlement) (d : Decision) (n : ℕ)
          → existing ≡ some e
          → out ≡ decided d n
          → NotShorter e.expires_at (iso_optional d.expires_at))
      → KeepsCoverage db.entitlements (conclude p r db existing out).0.entitlements
  unfolding conclude
  conclude-KeepsCoverage db test existing duplicate_grant key found h =
      KeepsCoverage-refl db.entitlements
  conclude-KeepsCoverage db test none ignored_grant key found h = KeepsCoverage-refl db.entitlements
  conclude-KeepsCoverage db test (some e) ignored_grant key found h =
      KeepsCoverage-refl db.entitlements
  conclude-KeepsCoverage db test none (decided d n) key found h =
      rw entitlements-record_grant_ledger (KeepsCoverage-insert db.entitlements _)
  conclude-KeepsCoverage db test (some e) (decided d n) key found h =
      rw entitlements-record_grant_ledger
        (KeepsCoverage-update test _ db.entitlements key found refl (h e d n refl refl))

  -- Whatever the event, every entitlement row is still in its place under its id, and its expiry
  -- is no earlier than before; access without expiry stays so. The entitlements have distinct ids,
  -- and a suspension does not meet a row without expiry.
  pub package-KeepsCoverage :
      (db : Database)
      → HasKey db.entitlements
      → (kind p r ≡ suspend
          → (e : Entitlement) → existing_row p r db ≡ some e
          → e.expires_at ≢ none)
      → KeepsCoverage db.entitlements (apply_whop_package_grant p r db).0.entitlements
  unfolding apply_whop_package_grant
  package-KeepsCoverage db key limited =
      conclude-KeepsCoverage db (is_package_row (external_id p r) r.whop_package.id)
        (existing_row p r db) (outcome p r db (existing_row p r db)) key refl
        λ e d n found made.
          outcome-NotShorter (kind p r) e _ _ _ _ _ r.status r.now (λ k. limited k e found)
            (rw found at made)
