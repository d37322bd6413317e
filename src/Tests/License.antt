-- ===== src/Tests/License.antt =====
-- Tests of the license check and of the administrators' operations.
use autoedge_licensing_serve.Prelude.{
  map, ℕ, ◌+◌, ◌/◌, ◌≤◌, ◌<◌, ◌≡◌, ◌≢◌, ◌↔◌, ◌⊎◌, refl, true, false, Option, none, some, List, [],
  ◌∷◌, max, any, is_some, All, find, filter_by, length,
}
use autoedge_licensing_serve.Text.{Text, text, same_text, lower, strip, strip_left, colon_joined}
use autoedge_licensing_serve.Sorting.{sort_by}
use autoedge_licensing_serve.Time.{Datetime, second}
use autoedge_licensing_serve.Database.{string, Database, Entitlement}
use autoedge_licensing_serve.Whop.Status.{Status, revoked, suspended}
use autoedge_licensing_serve.License.Outcome.{LicenseStatus}
use autoedge_licensing_serve.License.Customers.{find_customer, normalize_email}
use autoedge_licensing_serve.License.Devices.{
  hash_fingerprint, active_device_count, effective_max_devices,
}
use autoedge_licensing_serve.License.Grants.{
  is_offered, Grant, grant_of, has_status, blocking_status, is_licensed_row, is_of, product_of,
  best_by_product,
}
use autoedge_licensing_serve.License.Grants.Best.{AsGood, best_by_product-AsGood}
use autoedge_licensing_serve.License.Grants.Blocking.{
  GivesAccess, is_licensed_row_iff, blocking_status_precedence,
}
use autoedge_licensing_serve.License.Lease.{Signer, LeaseClaims, lease_claims}
use autoedge_licensing_serve.License.Lease.Bounds.{NotAfter, lease_bounds}
use autoedge_licensing_serve.License.Client.{trader_desktop}
use autoedge_licensing_serve.License.States.{removed, removed_states, entitlement_states}
use autoedge_licensing_serve.License.States.Removed.{removed_lem}
use autoedge_licensing_serve.License.Check.{check_license}
use autoedge_licensing_serve.License.Check.Active.{check_license_count}
use autoedge_licensing_serve.License.Check.Answer.{IsFair, check_license_answer}
use autoedge_licensing_serve.Admin.{
  ok, value_error, block_all_customer_devices, is_to_block, manual_set_entitlement,
}
use autoedge_licensing_serve.Admin.Blocking.{block_all_lem}
use autoedge_licensing_serve.Tests.{
  platform, today, customer, product, entitlement, device, database, check,
}

program : Unit {0}
unfolding check_license find_customer normalize_email strip strip_left lower same_text colon_joined
    lease_claims grant_of hash_fingerprint sort_by block_all_customer_devices manual_set_entitlement
program = tt

abbrev signer : Signer
signer = record {
  key_id = text "key";
  sign = λ claims. claims.sub;
  issuer = text "i";
  audience = text "a";
  random_jti = λ now. [];
}

-- the customer has the one device that the limit allows, and checks with another
check_license_count_example :
    active_device_count (check_license platform (some signer) check database).0 (text "c1")
    ≤ max (active_device_count database (text "c1")) (effective_max_devices customer 2)
unfolding program
check_license_count_example =
    check_license_count platform (some signer) check database customer refl (tt, tt) (refl, tt)

check_license_answer_example :
    IsFair database (text "c1") today (check_license platform (some signer) check database).1
unfolding program
check_license_answer_example = check_license_answer platform (some signer) check database refl

is_licensed_row_iff_example :
    (is_licensed_row entitlement product today ≡ true) ↔ GivesAccess entitlement product today
is_licensed_row_iff_example = is_licensed_row_iff entitlement product today

abbrev grants : List Grant
grants =
    grant_of today (record entitlement { status = suspended }) product
    ∷ grant_of today entitlement product
    ∷ grant_of today (record entitlement { expires_at = none }) product
    ∷ []

best_by_product-AsGood_example :
    All
      (λ g.
        (b : Grant) × (find (is_of (product_of g)) (best_by_product [] grants) ≡ some b)
        × AsGood g b)
      grants
best_by_product-AsGood_example = best_by_product-AsGood grants

blocking_status_precedence_example :
    ((blocking_status grants today ≡ LicenseStatus.revoked) ↔ (
      (any (has_status Status.revoked) grants ≡ true)
      ⊎ (any (λ g. is_some g.row.revoked_at) grants ≡ true)))
    × (blocking_status grants today ≡ LicenseStatus.suspended
        → (any (has_status Status.suspended) grants ≡ true)
          × (any (has_status Status.revoked) grants ≡ false))
    × (blocking_status [] today ≡ LicenseStatus.unlicensed)
    × (blocking_status grants today ≢ LicenseStatus.active)
blocking_status_precedence_example = blocking_status_precedence grants today

abbrev claims : LeaseClaims
claims = record {
  iss = text "i";
  aud = text "a";
  sub = text "c1";
  device_id = text "d1";
  device_fingerprint_sha256 = text "machine";
  features = record { id = text "f"; exp = some 1700864000 } ∷ [];
  iat = 1700000000;
  nbf = 1700000000;
  exp = 1700000600;
  jti = [];
}

abbrev one_grant : List Grant
one_grant = grant_of today entitlement product ∷ []

lease_bounds_example :
    (claims.iat ≡ today / second)
    × (claims.nbf ≡ claims.iat)
    × (claims.iat < claims.exp)
    × (claims.exp ≤ claims.iat + 600)
    × All (λ g. NotAfter claims.exp g.row.expires_at) one_grant
    × (claims.sub ≡ customer.id)
    × (claims.device_id ≡ device.id)
unfolding program
lease_bounds_example =
    lease_bounds platform signer customer device (text "machine") one_grant 600 today
      {claims = claims} refl

abbrev blocked_all : Database × ℕ
blocked_all =
    elim (block_all_customer_devices platform (text "admin") none today (text "c1") none database) [
      | ok done ↦ done
      | value_error e ↦ (database, 0)
    ]

block_all_lem_example :
    (active_device_count blocked_all.0 (text "c1") ≡ 0)
    × ((other : Text)
        → other ≢ text "c1"
        → active_device_count blocked_all.0 other ≡ active_device_count database other)
    × (length (
          filter_by
            (is_to_block platform (text "admin") none today (text "c1"))
            blocked_all.0.devices)
        ≡ 0)
unfolding program
block_all_lem_example =
    block_all_lem platform (text "admin") none today (text "c1") none database {db' = blocked_all.0}
      {n = blocked_all.1} refl

abbrev from_iso : Text → Option Datetime
from_iso s = none

abbrev set_again : Database × Option Entitlement
set_again =
    elim (manual_set_entitlement platform (text "admin") none today (text "c1") (text "p1") none
      from_iso (text "active") (some (text " 1800000000 ")) database) [
        | ok done ↦ done
        | value_error e ↦ (database, none)
      ]

-- a removal of another product, which is still on sale
abbrev removal_database : Database
removal_database = record database {
  products = product ∷ record product { id = text "p2" } ∷ [];
  audit_log =
      record {
        id = text "a1";
        actor_type = "admin";
        actor_id = none;
        action = "entitlement.removed";
        entity_type = "entitlement";
        entity_id = text "e2";
        details = ("customer_id", string (text "c1")) ∷ ("product_id", string (text "p2")) ∷ [];
        ip_address = none;
        created_at = 5;
      }
      ∷ [];
}

removal_shown :
    map
      (λ s. s.product_id)
      (removed_states platform today removal_database
        (text "c1")
        trader_desktop
        []
        removal_database.audit_log)
    ≡ text "p2" ∷ []
unfolding program removed_states is_offered
removal_shown = refl

removed_lem_example :
    All
      (λ s.
        s.status ≡ removed
        → any (same_text s.product_id) (map (λ g. g.product.id) one_grant) ≡ false)
      (entitlement_states platform today removal_database (text "c1") trader_desktop one_grant)
removed_lem_example =
    removed_lem platform today removal_database (text "c1") trader_desktop one_grant
