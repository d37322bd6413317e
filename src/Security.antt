-- ===== src/Security.antt =====
-- The helpers of autoedge_licensing/security.py: stored secrets, signed values and webhook
-- signatures. Hashing, base64, UTF-8 and random bytes are parameters.
pub mod Primitives
pub mod Tokens
pub mod Signed
pub mod Webhook
pub mod Passwords
