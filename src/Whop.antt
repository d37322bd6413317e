-- ===== src/Whop.antt =====
-- Whop webhook events and the entitlements that they grant (autoedge_licensing/service.py).
pub mod Status
pub mod Expiry
pub mod Ledger
pub mod Direct
pub mod Package
pub mod Subscription
pub mod Customers
pub mod Event
