-- ===== src/Oauth.antt =====
-- The Tradovate OAuth logins of autoedge_licensing/service.py.
pub mod States
pub mod Start
pub mod Callback
pub mod Context
pub mod Refresh
pub mod Evolution
pub mod Calls
pub mod Steps
pub mod Lifecycle
pub mod Release
pub mod Delivery
