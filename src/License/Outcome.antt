-- ===== src/License/Outcome.antt =====
-- The `status` of a license response (autoedge_licensing/service.py).

pub data LicenseStatus : Type 0 where
  invalid_request unknown_customer device_blocked device_limit_exceeded : LicenseStatus
  active revoked suspended expired unlicensed : LicenseStatus
