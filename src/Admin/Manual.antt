-- ===== src/Admin/Manual.antt =====
-- Entitlements that an administrator sets.
use autoedge_licensing_serve.Prelude.{◌≡◌, ◌↔◌, true, Option, is_some}
use autoedge_licensing_serve.Text.{Text}
use autoedge_licensing_serve.Time.{Datetime, iso_optional}
use autoedge_licensing_serve.Database.{Database, Entitlement}
use autoedge_licensing_serve.Whop.Status.{Status, revoked}

-- what the row of a manual entitlement holds after it was set
abbrev pub IsStored : Status → Option Datetime → Entitlement → Type 0
IsStored status expiry e =
    (e.status ≡ status)
    × (e.expires_at ≡ iso_optional expiry)
    × ((is_some e.revoked_at ≡ true) ↔ (status ≡ revoked))
