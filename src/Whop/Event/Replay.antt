-- ===== src/Whop/Event/Replay.antt =====
-- The grants of an event that is delivered again under another webhook id.
use autoedge_licensing_serve.Prelude.{
  ◌≡◌, refl, ◌∙◌, ap, arith, true, Option, none, some, List, [], ◌∷◌, ◌++◌, All, any, Bool-cases,
  inl, inr,
}
use autoedge_licensing_serve.Text.{Text}
use autoedge_licensing_serve.Time.{Datetime}
use autoedge_licensing_serve.Database.{
  Platform, Database, Customer, Entitlement, LedgerRow, WhopPackage, audit, fresh_id,
}
use autoedge_licensing_serve.Whop.Ledger.{has_fingerprint, record_grant_ledger}
use autoedge_licensing_serve.Whop.Package.{
  PackageGrant, GrantRequest, kind, grant_days, fingerprint, existing_row, outcome, conclude,
  write_entitlement, ledger_row, apply_whop_package_grant,
}
use autoedge_licensing_serve.Whop.Package.Decide.{
  Outcome, duplicate_grant, ignored_grant, decided, is_relative,
}
use autoedge_licensing_serve.Whop.Package.Applied.{redelivered, fingerprint_fixed}
use autoedge_licensing_serve.Whop.Package.Replay.{
  recorded_after, no_period, refused_in, granting_of_paid, no_start,
}
use autoedge_licensing_serve.Whop.Event.{Event, request_of, apply_grants}

abbrev HasEntry : Text → Database → Type 0
HasEntry f db = any (has_fingerprint f) db.license_grant_ledger ≡ true

any-added :
    (f : Text) (rows : List LedgerRow) (row : LedgerRow)
    → any (has_fingerprint f) rows ≡ true
    → any (has_fingerprint f) (rows ++ row ∷ []) ≡ true
any-added f [] row h = cc
any-added f (r ∷ rows) row h = elim (Bool-cases (has_fingerprint f r)) [
  | inl e ↦ ground (arith, e)
  | inr e ↦ ground (arith, e, h, any-added f rows row (ground (arith, e, h)))
]

module _ (p : Platform) where
  record-HasEntry :
      (f : Text) (db : Database) (row : LedgerRow)
      → HasEntry f db
      → HasEntry f (record_grant_ledger p db row)
  unfolding record_grant_ledger
  record-HasEntry f db row h =
      elim (Bool-cases (any (has_fingerprint row.event_fingerprint) db.license_grant_ledger)) [
        | inl e ↦ rw e h
        | inr e ↦ rw e (any-added f db.license_grant_ledger (record row { id = fresh_id p db }) h)
      ]

  conclude-HasEntry :
      (f : Text) (r : GrantRequest) (db : Database) (existing : Option Entitlement) (out : Outcome)
      → HasEntry f db
      → HasEntry f (conclude p r db existing out).0
  unfolding conclude write_entitlement audit
  conclude-HasEntry f r db existing duplicate_grant h = h
  conclude-HasEntry f r db none ignored_grant h = h
  conclude-HasEntry f r db (some e) ignored_grant h = h
  conclude-HasEntry f r db none (decided d n) h =
      let (written, id) = write_entitlement p r db none d in
      record-HasEntry f written (ledger_row p r id none d n) h
  conclude-HasEntry f r db (some e) (decided d n) h =
      let (written, id) = write_entitlement p r db (some e) d in
      record-HasEntry f written (ledger_row p r id (some e) d n) h

  grants-HasEntry :
      (e : Event) (request : PackageGrant → GrantRequest) (f : Text) (grants : List PackageGrant)
      (db : Database)
      → HasEntry f db
      → HasEntry f (apply_grants p e request grants db).0
  unfolding apply_grants apply_whop_package_grant
  grants-HasEntry e request f [] db h = h
  grants-HasEntry e request f (g ∷ grants) db h =
      let r = request g in
      grants-HasEntry e request f grants (apply_whop_package_grant p r db).0
        (conclude-HasEntry f r db (existing_row p r db) (outcome p r db (existing_row p r db)) h)

  -- counts its days from the end of the coverage, or from now
  abbrev pub CountsOn : GrantRequest → Type 0
  CountsOn r = is_relative (kind p r) r.info (grant_days p r) ≡ true

  grants_recorded :
      (e : Event) (request : PackageGrant → GrantRequest) (grants : List PackageGrant)
      (db : Database)
      → All (λ g. CountsOn (request g)) grants
      → All
          (λ g. HasEntry (fingerprint p (request g)) (apply_grants p e request grants db).0)
          grants
  unfolding apply_grants apply_whop_package_grant
  grants_recorded e request [] db a = tt
  grants_recorded e request (g ∷ grants) db a =
      let r = request g in
      let (paid', start) = no_start (kind p r) r.info (grant_days p r) a.0 in
      let first = (apply_whop_package_grant p r db).0 in
      (
        grants-HasEntry e request (fingerprint p r) grants first (
            recorded_after p r db (existing_row p r db) _ (granting_of_paid (kind p r) paid')
              (no_period p r db start) refl),
        grants_recorded e request grants first a.1,
      )

  again_unchanged :
      (r : GrantRequest) (webhook_id : Text) (now : Datetime) (db : Database)
      → CountsOn r
      → HasEntry (fingerprint p r) db
      → (apply_whop_package_grant p (redelivered r webhook_id now) db).0 ≡ db
  unfolding apply_whop_package_grant conclude
  again_unchanged r webhook_id now db counts recorded =
      let (paid', start) = no_start (kind p r) r.info (grant_days p r) counts in
      let r' = redelivered r webhook_id now in
      let same =
        fingerprint_fixed p r.customer_id r.whop_package.id r.grant.product_id r.info webhook_id
          r.webhook_id (kind p r) (granting_of_paid (kind p r) paid') in
      ap (λ (out : Outcome). (conclude p r' db (existing_row p r' db) out).0)
        (refused_in p r' db (existing_row p r' db) counts (rw same recorded))

  grants_again :
      (e : Event) (request : PackageGrant → GrantRequest) (webhook_id : Text) (now : Datetime)
      (grants : List PackageGrant) (db : Database)
      → All (λ g. CountsOn (request g)) grants
      → All (λ g. HasEntry (fingerprint p (request g)) db) grants
      → (apply_grants p e (λ g. redelivered (request g) webhook_id now) grants db).0 ≡ db
  unfolding apply_grants
  grants_again e request webhook_id now [] db a h = refl
  grants_again e request webhook_id now (g ∷ grants) db a h =
      ap
        (λ (d : Database).
          (apply_grants p e (λ g. redelivered (request g) webhook_id now) grants d).0)
        (again_unchanged (request g) webhook_id now db a.0 h.0)
      ∙ grants_again e request webhook_id now grants db a.1 h.1

  -- Some grants of a package are applied for an event that is a payment or renewal with neither a
  -- start nor an end of a period, and each of them has configured days, its own or the package's,
  -- so that these are counted from the end of the coverage. When the loop over these grants has run
  -- and runs again for the same event, at any time and under any webhook id, the second run leaves
  -- the database as it is: no entitlement, ledger row or audit entry is added or changed.
  pub grants_replay_unchanged :
      (e : Event) (webhook_id : Text) (now : Datetime) (customer : Customer)
      (whop_package : WhopPackage) (subscription_id : Option Text) (grants : List PackageGrant)
      (db : Database)
      → All (λ g. CountsOn (request_of p e customer whop_package subscription_id g)) grants
      → let again = record e { webhook_id = webhook_id; now = now } in
        let db1 =
          (apply_grants p e (request_of p e customer whop_package subscription_id) grants db).0 in
        (apply_grants p again
          (request_of p again customer whop_package subscription_id)
          grants
          db1).0
        ≡ db1
  grants_replay_unchanged e webhook_id now customer whop_package subscription_id grants db counts =
      let request = request_of p e customer whop_package subscription_id in
      grants_again (record e { webhook_id = webhook_id; now = now }) request webhook_id now grants
        (apply_grants p e request grants db).0 counts (grants_recorded e request grants db counts)
