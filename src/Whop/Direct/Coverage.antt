-- ===== src/Whop/Direct/Coverage.antt =====
-- The coverage of direct entitlements under events.
use autoedge_licensing_serve.Prelude.{◌≡◌, refl, Bool, Option, none, some, arith, find}
use autoedge_licensing_serve.Text.{Text}
use autoedge_licensing_serve.Time.{Datetime, iso_optional}
use autoedge_licensing_serve.Database.{Platform, Database, Entitlement}
use autoedge_licensing_serve.Database.Keys.{
  HasKey, NotShorter, KeepsCoverage, KeepsCoverage-refl, KeepsCoverage-insert, KeepsCoverage-update,
}
use autoedge_licensing_serve.Whop.Status.{Status, GrantKind, trial, grant_kind}
use autoedge_licensing_serve.Whop.Expiry.{SubscriptionInfo, entitlement_expiry_target}
use autoedge_licensing_serve.Whop.Direct.{
  Decision, direct_decision, direct_expires_after, external_id_of, is_direct_row, write_direct,
  upsert_direct_whop_entitlement,
}

-- what is stored is not shorter than what was stored
decision-NotShorter :
    (kind : GrantKind) (e : Entitlement) (target : Option Datetime) (status : Status)
    (now : Datetime) {d : Decision}
    → direct_decision kind (some e) (direct_expires_after (some e) target) status now ≡ some d
    → NotShorter e.expires_at (iso_optional d.expires_at)
unfolding direct_decision direct_expires_after
decision-NotShorter trial e target status now h = ground arith
decision-NotShorter _ e target status now h = ground arith

module _ (p : Platform) (customer_id product_id : Text) (subscription_id : Option Text)
    (event_type webhook_id : Text) (ip_address : Option Text) where
  write-KeepsCoverage :
      (db : Database) (test : Entitlement → Bool) (existing : Option Entitlement)
      (external_id : Text) (kind : GrantKind) (decision : Option Decision) (start now : Datetime)
      → HasKey db.entitlements
      → find test db.entitlements ≡ existing
      → ((e : Entitlement) (d : Decision)
          → existing ≡ some e
          → decision ≡ some d
          → NotShorter e.expires_at (iso_optional d.expires_at))
      → KeepsCoverage db.entitlements
          (write_direct p customer_id product_id subscription_id event_type webhook_id ip_address db
            existing external_id kind decision start now).0.entitlements
  unfolding write_direct
  write-KeepsCoverage db test existing external_id kind none start now key found h =
      KeepsCoverage-refl db.entitlements
  write-KeepsCoverage db test none external_id kind (some d) start now key found h =
      KeepsCoverage-insert db.entitlements _
  write-KeepsCoverage db test (some e) external_id kind (some d) start now key found h =
      KeepsCoverage-update test _ db.entitlements key found refl (h e d refl refl)

  -- Whatever the event, no entitlement row disappears or loses access time: every row is still in
  -- its place under its id, and its expiry is no earlier than before; access without expiry stays
  -- so. The entitlements have distinct ids.
  pub direct-KeepsCoverage :
      (db : Database) (info : SubscriptionInfo) (status : Status) (now : Datetime)
      → HasKey db.entitlements
      → KeepsCoverage db.entitlements
          (upsert_direct_whop_entitlement p customer_id product_id subscription_id event_type
            webhook_id ip_address db info status now).0.entitlements
  unfolding upsert_direct_whop_entitlement
  direct-KeepsCoverage db info status now key =
      let test = is_direct_row (external_id_of info webhook_id) in
      let kind = grant_kind status event_type in
      write-KeepsCoverage db test (find test db.entitlements) _ _ _ _ now key refl λ e d found made.
        decision-NotShorter kind e (entitlement_expiry_target kind info none now) status now (
          let q : direct_decision kind (some e)
                (direct_expires_after (some e) (entitlement_expiry_target kind info none now))
                status now
              ≡ some d =
            rw found at made in
          q)
