-- ===== src/License.antt =====
-- License checks of TraderPro clients (autoedge_licensing/service.py).
pub mod Client
pub mod Outcome
pub mod Grants
pub mod Devices
pub mod Customers
pub mod Lease
pub mod Check
pub mod States
