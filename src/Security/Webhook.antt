-- ===== src/Security/Webhook.antt =====
-- Signatures of webhooks and bearer tokens: `_candidate_webhook_keys`, `verify_standard_webhook`
-- and `verify_bearer` of autoedge_licensing/security.py. Header names and values are texts; a
-- dictionary that repeats a name up to case has the last value.
pub mod Verify
pub mod Searches
pub mod Genuine
