-- ===== src/Whop/Package/Ignored.antt =====
-- A cancellation at the period's end.
use autoedge_licensing_serve.Prelude.{◌≡◌, refl, true, Option, none, some}
use autoedge_licensing_serve.Text.{Text}
use autoedge_licensing_serve.Database.{Platform, Database, Entitlement}
use autoedge_licensing_serve.Whop.Status.{
  Status, ignored, is_cancel_at_period_end_event, grant_kind,
}
use autoedge_licensing_serve.Whop.Direct.{
  upsert_direct_whop_entitlement, direct_decision, write_direct,
}
use autoedge_licensing_serve.Whop.Package.Decide.{ignored_grant, package_outcome}
use autoedge_licensing_serve.Whop.Package.{
  GrantRequest, conclude, apply_whop_package_grant, existing_row,
}

cancel-ignored :
    (status : Status) (event_type : Text)
    → is_cancel_at_period_end_event event_type ≡ true
    → grant_kind status event_type ≡ ignored
unfolding grant_kind
cancel-ignored status event_type h = rw h

conclude-ignored :
    (p : Platform) (r : GrantRequest) (db : Database) (existing : Option Entitlement)
    → (conclude p r db existing ignored_grant).0 ≡ db
unfolding conclude
conclude-ignored p r db none = refl
conclude-ignored p r db (some e) = refl

-- An event that announces a cancellation at the period's end changes nothing in the database,
-- neither through a package nor through a product that is mapped directly, whatever status it
-- comes with.
pub cancel_at_period_end_unchanged :
    (p : Platform) (r : GrantRequest) (product_id : Text) (db : Database)
    → is_cancel_at_period_end_event r.event_type ≡ true
    → ((apply_whop_package_grant p r db).0 ≡ db)
      × ((upsert_direct_whop_entitlement p r.customer_id product_id r.subscription_id r.event_type
            r.webhook_id r.ip_address db r.info r.status r.now).0
          ≡ db)
unfolding apply_whop_package_grant package_outcome upsert_direct_whop_entitlement direct_decision
    write_direct
cancel_at_period_end_unchanged p r product_id db h =
    let k = cancel-ignored r.status r.event_type h in
    (rw k (conclude-ignored p r db (existing_row p r db)), rw k refl)
