-- ===== src/Whop/Ledger/Fingerprint.antt =====
-- Which events share a fingerprint.
use autoedge_licensing_serve.Prelude.{◌≡◌, true, arith}
use autoedge_licensing_serve.Text.{Text, is_truthy}
use autoedge_licensing_serve.Database.{Platform}
use autoedge_licensing_serve.Whop.Status.{GrantKind, is_paid}
use autoedge_licensing_serve.Whop.Expiry.{SubscriptionInfo}
use autoedge_licensing_serve.Whop.Ledger.{grant_fingerprint}

-- A payment and a renewal that carry the same payment id have one fingerprint for a product,
-- whatever customer, package, membership, period or webhook delivery they name.
pub payment_fingerprint_shared :
    (p : Platform) (customer_id customer_id' package_id package_id' product_id : Text)
    (info info' : SubscriptionInfo) (webhook_id webhook_id' : Text) (kind kind' : GrantKind)
    → is_paid kind ≡ true
    → is_paid kind' ≡ true
    → is_truthy info.payment_id ≡ true
    → info.payment_id ≡ info'.payment_id
    → grant_fingerprint p customer_id package_id product_id info webhook_id kind
      ≡ grant_fingerprint p customer_id' package_id' product_id info' webhook_id' kind'
unfolding grant_fingerprint
payment_fingerprint_shared p c c' k k' product_id info info' w w' kind kind' h h' t same =
    ground arith
