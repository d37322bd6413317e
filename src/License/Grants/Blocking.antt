-- ===== src/License/Grants/Blocking.antt =====
-- The answer to a customer without a licensed grant, and what a licensed row is.
use autoedge_licensing_serve.Prelude.{
  ◌≤◌, ◌<◌, ◌*◌, ◌≡◌, ◌≢◌, ◌↔◌, inl, inr, refl, true, false, Option, none, some, List, [], arith,
  any, ◌⊎◌, is_some,
}
use autoedge_licensing_serve.Time.{Datetime, Stamp, second, parse_stamp}
use autoedge_licensing_serve.Database.{Entitlement, Product, whop}
use autoedge_licensing_serve.Whop.Status.{Status, expired}
use autoedge_licensing_serve.License.Outcome.{LicenseStatus}
use autoedge_licensing_serve.License.Grants.{
  Grant, has_status, blocking_status, is_licensed_row, grants_access, has_started, has_not_ended,
}

-- What it takes for an entitlement row to give access: its product is on sale, the row was not
-- revoked, it has started, it has not ended, and it is active or in trial, or is a Whop row that
-- was stored as expired and yet has a date to come.
pub record GivesAccess (e : Entitlement) (product : Product) (now : Datetime) : Type 0 where
  pub on_sale : product.is_active ≡ true
  pub not_revoked : e.revoked_at ≡ none
  pub started : (s : Stamp) → e.starts_at ≡ some s → s * second ≤ now
  pub running : (s : Stamp) → e.expires_at ≡ some s → now < s * second
  pub open_status :
      (grants_access e.status ≡ true)
      ⊎ ((e.source ≡ whop) × (e.status ≡ expired) × (is_some e.expires_at ≡ true))

has_started_iff :
    (o : Option Stamp) (now : Datetime)
    → (has_started (parse_stamp o) now ≡ true) ↔ ((s : Stamp) → o ≡ some s → s * second ≤ now)
has_started_iff none now = (λ _ s e. cc, λ _. refl)
has_started_iff (some t) now = (λ h s e. ground arith, λ f. ground (arith, f t refl))

has_not_ended_iff :
    (o : Option Stamp) (now : Datetime)
    → (has_not_ended (parse_stamp o) now ≡ true) ↔ ((s : Stamp) → o ≡ some s → now < s * second)
has_not_ended_iff none now = (λ _ s e. cc, λ _. refl)
has_not_ended_iff (some t) now = (λ h s e. ground arith, λ f. ground (arith, f t refl))

licensed-GivesAccess :
    (e : Entitlement) (product : Product) (now : Datetime)
    → is_licensed_row e product now ≡ true
    → GivesAccess e product now
unfolding is_licensed_row
licensed-GivesAccess e product now h = record {
  on_sale = ground arith;
  not_revoked = ground arith;
  started = (has_started_iff e.starts_at now).0 (ground arith);
  running = (has_not_ended_iff e.expires_at now).0 (ground arith);
  open_status = ground arith;
}

GivesAccess-licensed :
    (e : Entitlement) (product : Product) (now : Datetime)
    → GivesAccess e product now
    → is_licensed_row e product now ≡ true
unfolding is_licensed_row
GivesAccess-licensed e product now a =
    let started = (has_started_iff e.starts_at now).1 a.started in
    let running = (has_not_ended_iff e.expires_at now).1 a.running in
    elim a.open_status [ inl plain ↦ ground arith | inr (w, x, t) ↦ ground arith ]

-- A row is licensed exactly when its product is on sale, the row was not revoked, has started if it
-- has a start, has not ended if it has an end, and is active or in trial, or is a Whop row that was
-- stored as expired and has an end.
pub is_licensed_row_iff :
    (e : Entitlement) (product : Product) (now : Datetime)
    → (is_licensed_row e product now ≡ true) ↔ GivesAccess e product now
is_licensed_row_iff e product now =
    (licensed-GivesAccess e product now, GivesAccess-licensed e product now)

-- The answer names a revocation exactly when a grant is revoked or carries a revocation time, and
-- a suspension only when one is suspended and none is revoked; without grants it is "unlicensed", and
-- it is never "active".
pub blocking_status_precedence :
    (grants : List Grant) (now : Datetime)
    → ((blocking_status grants now ≡ LicenseStatus.revoked) ↔ (
        (any (has_status Status.revoked) grants ≡ true)
        ⊎ (any (λ g. is_some g.row.revoked_at) grants ≡ true)))
      × (blocking_status grants now ≡ LicenseStatus.suspended
          → (any (has_status Status.suspended) grants ≡ true)
            × (any (has_status Status.revoked) grants ≡ false))
      × (blocking_status [] now ≡ LicenseStatus.unlicensed)
      × (blocking_status grants now ≢ LicenseStatus.active)
unfolding blocking_status
blocking_status_precedence grants now = (ground arith, ground arith, refl, ground arith)
