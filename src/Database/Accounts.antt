-- ===== src/Database/Accounts.antt =====
-- The rows of admin_users and admin_sessions (migrations/001_init.sql).
use autoedge_licensing_serve.Prelude.{Bool, Option}
use autoedge_licensing_serve.Text.{Text}
use autoedge_licensing_serve.Time.{Stamp}

pub record AdminUser : Type 0 where
  pub id : Text
  pub username : Text
  pub password_hash : Text
  pub is_active : Bool
  pub created_at : Stamp
  pub last_login_at : Option Stamp

pub record AdminSession : Type 0 where
  pub id : Text
  pub admin_user_id : Text
  pub token_hash : Text
  pub created_at : Stamp
  pub expires_at : Stamp
  pub last_seen_at : Stamp
  pub ip_address : Option Text
  pub user_agent : Option Text
  pub revoked_at : Option Stamp
