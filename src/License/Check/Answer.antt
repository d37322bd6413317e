-- ===== src/License/Check/Answer.antt =====
-- The strategies in the answer to a license check.
use autoedge_licensing_serve.Prelude.{
  ◌≡◌, ◌≢◌, ◌↔◌, refl, true, Option, none, some, List, [], ◌∷◌, All, All-filter, All-weaken,
  Bool-cases, inl, inr, ◌∙◌, sym,
}
use mathlib.Core.List.{Memᴰ}
use autoedge_licensing_serve.Text.{Text, strip, is_truthy}
use autoedge_licensing_serve.Time.{Datetime}
use autoedge_licensing_serve.Database.{Platform, Database, Customer, Device, audit}
use autoedge_licensing_serve.License.Outcome.{LicenseStatus}
use autoedge_licensing_serve.License.Customers.{find_customer}
use autoedge_licensing_serve.License.Devices.{
  DeviceLimit, upsert_device, write_device, known_device,
}
use autoedge_licensing_serve.License.Grants.{Grant}
use autoedge_licensing_serve.License.Grants.Blocking.{
  GivesAccess, is_licensed_row_iff, blocking_status_precedence,
}
use autoedge_licensing_serve.License.Grants.Origin.{IsGrantOf, filtered_grants_lem}
use autoedge_licensing_serve.License.States.{State}
use autoedge_licensing_serve.License.Lease.{Signer}
use autoedge_licensing_serve.License.Check.{
  CheckRequest, Response, admit_device, check_grants, check_device, check_customer, check_license,
  states_of, client, device_over_limit, grants_of, license_response,
}

-- a grant that is backed by an entitlement row of the customer that gives access to its product,
-- both as they stand in the tables
abbrev pub IsBacked : Database → Text → Datetime → Grant → Type 0
IsBacked db customer_id now g =
    Memᴰ g.row db.entitlements
    × Memᴰ g.product db.products
    × (g.row.customer_id ≡ customer_id)
    × (g.product.id ≡ g.row.product_id)
    × GivesAccess g.row g.product now

-- Every strategy is backed, and the answer is "active" exactly if there is one.
abbrev pub IsFair : Database → Text → Datetime → Response → Type 0
IsFair db customer_id now response =
    All (IsBacked db customer_id now) response.licensed_strategies
    × ((response.status ≡ LicenseStatus.active) ↔ (response.licensed_strategies ≢ []))

licensed-IsBacked :
    (db : Database) (c : Text) (now : Datetime) (g : Grant)
    → IsGrantOf db.entitlements db.products c now g × (g.is_licensed ≡ true)
    → IsBacked db c now g
licensed-IsBacked db c now g ((row, product, mine, own, judged), licensed) =
    (row, product, mine, own, (is_licensed_row_iff g.row g.product now).0 (sym judged ∙ licensed))

module _ (p : Platform) (signer : Option Signer) (req : CheckRequest) where
  admit-IsFair :
      (before db : Database) (customer : Customer) (device : Device) (limit : DeviceLimit)
      (states : List State) (g : Grant) (licensed : List Grant)
      → All (IsBacked before customer.id req.now) (g ∷ licensed)
      → IsFair before customer.id req.now
          (admit_device p signer req db customer device limit states (g ∷ licensed)).1
  unfolding admit_device license_response
  admit-IsFair before db customer device limit states g licensed a =
      elim (Bool-cases (device_over_limit limit)) [
        | inl over ↦ rw over (tt, ((λ e. cc), λ ne. absurd (ne refl)))
        | inr room ↦ rw room (a, ((λ e n. cc), λ ne. refl))
      ]

  grants-IsFair :
      (before db : Database) (customer : Customer) (device : Device) (limit : DeviceLimit)
      (grants licensed : List Grant)
      → All (IsBacked before customer.id req.now) licensed
      → IsFair before customer.id req.now
          (check_grants p signer req db customer device limit grants licensed).1
  unfolding check_grants license_response
  grants-IsFair before db customer device limit grants [] a = (
    tt,
    ((λ e. absurd ((blocking_status_precedence grants req.now).3 e)), λ ne. absurd (ne refl)),
  )
  grants-IsFair before db customer device limit grants (g ∷ licensed) a =
      admit-IsFair before db customer device limit (states_of p signer req db customer grants) g
        licensed a

  device-IsFair :
      (db : Database) (customer : Customer) (device : Device)
      → IsFair db customer.id req.now (check_device p signer req db customer device).1
  unfolding check_device license_response
  device-IsFair db customer device = elim (Bool-cases device.is_blocked) [
    | inl blocked ↦ simp blocked (tt, ((λ e. cc), λ ne. absurd (ne refl)))
    | inr free ↦ simp free (
        grants-IsFair db db customer device _ _ _ (
          All-weaken _ _ _ (licensed-IsBacked db customer.id req.now) (
            All-filter (IsGrantOf db.entitlements db.products customer.id req.now) _
              (grants_of p signer req db customer)
              (filtered_grants_lem customer.id req.now db (client p signer req)))))
  ]

  -- a device is written to no other table
  written-IsFair :
      (db : Database) (customer : Customer) (o : Option Device)
      → let (db1, device) =
          write_device p customer.id req.machine_fingerprint req.app_version
            (client p signer req)
            req.ip_address
            req.user_agent
            req.now
            db
            o in
        IsFair db customer.id req.now (check_device p signer req db1 customer device).1
  unfolding write_device audit
  written-IsFair db customer none = device-IsFair _ customer _
  written-IsFair db customer (some d) = device-IsFair _ customer _

  -- The answer to a license check of a customer that the identifiers find is "active" exactly if
  -- it lists a strategy. Every strategy that it lists belongs to a row of the entitlements, as it
  -- was stored before the check, which is that customer's; its product is the row's own, stands in
  -- the table of products and is on sale; and the row is neither revoked nor yet to start nor ended,
  -- and is active or in trial, or a Whop row that was stored as expired with a date to come.
  pub check_license_answer :
      (db : Database) {customer : Customer}
      → find_customer p db req.license_key req.email req.customer_id req.whop_user_id
        ≡ some customer
      → IsFair db customer.id req.now (check_license p signer req db).1
  unfolding check_license check_customer upsert_device license_response
  check_license_answer db {customer} found =
      elim (Bool-cases (is_truthy (some (strip req.machine_fingerprint)))) [
        | inl given ↦
            rw (given, found)
              (written-IsFair db customer (
                known_device p customer.id req.machine_fingerprint req.app_version
                  (client p signer req) req.ip_address req.user_agent req.now db))
        | inr blank ↦ rw blank (tt, ((λ e. cc), λ ne. absurd (ne refl)))
      ]
