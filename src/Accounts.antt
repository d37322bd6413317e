-- ===== src/Accounts.antt =====
-- Administrators' accounts and sessions in autoedge_licensing/service.py: `create_admin_user`,
-- `authenticate_admin`, `admin_from_session`, `revoke_session` and `change_admin_password`. A call
-- that raises gives none: its transaction is rolled back.
pub mod SignedOut
pub mod SignedIn
use autoedge_licensing_serve.Prelude.{
  ℕ, ◌+◌, ◌*◌, Bool, true, false, not, ◌&&◌, Option, none, some, List, [], ◌∷◌, ◌++◌, length, any,
  find, ltb, is_some, update_where, if◌then◌else◌, ◌or◌,
}
use autoedge_licensing_serve.Text.{Text, text, same_text, strip, is_truthy}
use autoedge_licensing_serve.Time.{Datetime, Stamp, iso, seconds}
use autoedge_licensing_serve.Database.{
  Platform, Database, AdminUser, AdminSession, Value, null, string, audit, fresh_id, count_id,
}
use autoedge_licensing_serve.Security.Primitives.{Bytes}
use autoedge_licensing_serve.Security.Passwords.{Hasher, hash_password, verify_password}

-- `timedelta(hours=h)`
abbrev pub hours : ℕ → Datetime
hours h = seconds (h * 3600)

-- WHERE username = ? AND is_active = 1
abbrev pub has_username : Text → AdminUser → Bool
has_username username user = same_text user.username username && user.is_active

-- WHERE id = ? AND is_active = 1
abbrev pub has_admin_id : Text → AdminUser → Bool
has_admin_id id user = same_text user.id id && user.is_active

abbrev pub has_token : Text → AdminSession → Bool
has_token token_hash session = same_text session.token_hash token_hash

abbrev pub is_open : Text → Stamp → AdminSession → Bool
is_open token_hash now session =
    has_token token_hash session && not (is_some session.revoked_at) && ltb now session.expires_at

-- admin_sessions JOIN admin_users: the first row that passes
abbrev pub joined : Text → Stamp → List AdminUser → List AdminSession → Option AdminUser
joined token_hash now users [] = none
joined token_hash now users (session ∷ sessions) =
    let rest = joined token_hash now users sessions in
    if is_open token_hash now session
    then find (has_admin_id session.admin_user_id) users or rest
    else rest

-- UPDATE admin_sessions SET last_seen_at = ? WHERE token_hash = ?
abbrev pub touch : Text → Stamp → Database → Database
touch token_hash now db = record db {
  admin_sessions =
      update_where (has_token token_hash) (λ s. record s { last_seen_at = now }) db.admin_sessions;
}

abbrev pub recognised : Text → Stamp → Database → Option AdminUser → Database × Option AdminUser
recognised token_hash now db none = (db, none)
recognised token_hash now db (some user) = (touch token_hash now db, some user)

-- UPDATE admin_users SET … WHERE id = ?
abbrev pub update_admin : Text → (AdminUser → AdminUser) → Database → Database
update_admin id f db = record db {
  admin_users = update_where (λ user. same_text user.id id) f db.admin_users;
}

-- UPDATE admin_sessions SET revoked_at = ? WHERE token_hash = ?
abbrev pub revoke_token : Text → Stamp → Database → Database
revoke_token token_hash now db = record db {
  admin_sessions =
      update_where (has_token token_hash) (λ s. record s { revoked_at = some now })
        db.admin_sessions;
}

abbrev pub is_live_of : Text → AdminSession → Bool
is_live_of admin_id session =
    same_text session.admin_user_id admin_id && not (is_some session.revoked_at)

-- UPDATE admin_sessions SET revoked_at = ? WHERE admin_user_id = ? AND revoked_at IS NULL
abbrev pub revoke_all : Text → Stamp → Database → Database
revoke_all admin_id now db = record db {
  admin_sessions =
      update_where (is_live_of admin_id) (λ s. record s { revoked_at = some now })
        db.admin_sessions;
}

pub data Change : Type 0 where
  too_short : Change
  not_active : Change
  wrong_password : Change
  changed : Change

module _ (p : Platform) (h : Hasher) where
  abbrev pub insert_admin : Text → Datetime → Database → Option Text → Option (Database × Text)
  insert_admin username now db none = none
  insert_admin username now db (some password_hash) =
      if any (λ user. same_text user.username (strip username)) db.admin_users
      then none
      else some (
        audit p
            (record db {
              admin_users =
                  db.admin_users
                  ++ record {
                    id = fresh_id p db;
                    username = strip username;
                    password_hash = password_hash;
                    is_active = true;
                    created_at = iso now;
                    last_login_at = none;
                  }
                    ∷ [];
              drawn = db.drawn + 1;
            })
            now "system" none "admin_user.created" "admin_user" (fresh_id p db)
            (("username", string username) ∷ []) none,
        fresh_id p db,
      )

  -- `salt` is what `os.urandom` gives; a second row of one username raises IntegrityError
  unfoldable pub create_admin_user :
      Text → Text → Bytes → Datetime → Database → Option (Database × Text)
  create_admin_user username password salt now db =
      insert_admin username now db (hash_password h password salt)

  abbrev pub with_login : Datetime → AdminUser → AdminUser
  with_login now user = record user { last_login_at = some (iso now) }

  abbrev pub new_session :
      Text → Text → Text → Datetime → ℕ → Option Text → Option Text → AdminSession
  new_session id token admin_user_id now session_hours ip_address user_agent = record {
    id = id;
    admin_user_id = admin_user_id;
    token_hash = p.sha256_hex token;
    created_at = iso now;
    expires_at = iso (now + hours session_hours);
    last_seen_at = iso now;
    ip_address = ip_address;
    user_agent = user_agent;
    revoked_at = none;
  }

  -- the row is returned as it was read, before this login; a token whose hash is already there
  -- raises IntegrityError
  abbrev pub open_session :
      Text
      → ℕ
      → Option Text
      → Option Text
      → Datetime
      → Database
      → AdminUser
      → Option (Database × Option (AdminUser × Text))
  open_session token session_hours ip_address user_agent now db user =
      if any (has_token (p.sha256_hex token)) db.admin_sessions
      then none
      else some (
        audit p
            (update_admin user.id (with_login now) (record db {
              admin_sessions =
                  db.admin_sessions
                  ++ new_session (fresh_id p db) token user.id now session_hours ip_address
                      user_agent
                    ∷ [];
              drawn = db.drawn + 1;
            }))
            now "admin" (some user.id) "admin.login" "admin_user" user.id
            (("username", string user.username) ∷ []) ip_address,
        some (user, token),
      )

  abbrev pub when_verified :
      {A : Type 0} → Option Bool → (Database × A) → Option (Database × A) → Option (Database × A)
  when_verified none refused accepted = none
  when_verified (some false) refused accepted = some refused
  when_verified (some true) refused accepted = accepted

  abbrev pub authenticate_user :
      Text
      → Text
      → ℕ
      → Option Text
      → Option Text
      → Datetime
      → Database
      → Option AdminUser
      → Option (Database × Option (AdminUser × Text))
  authenticate_user password token session_hours ip_address user_agent now db none = some (db, none)
  authenticate_user password token session_hours ip_address user_agent now db (some user) =
      when_verified (verify_password h password user.password_hash) (db, none)
        (open_session token session_hours ip_address user_agent now db user)

  -- `token` is what `random_token()` gives
  unfoldable pub authenticate_admin :
      Text
      → Text
      → ℕ
      → Option Text
      → Option Text
      → Text
      → Datetime
      → Database
      → Option (Database × Option (AdminUser × Text))
  unfolding same_text strip
  authenticate_admin username password session_hours ip_address user_agent token now db =
      authenticate_user password token session_hours ip_address user_agent now db
        (find (has_username (strip username)) db.admin_users)

  abbrev pub session_of : Text → Datetime → Database → Database × Option AdminUser
  session_of token_hash now db =
      recognised token_hash (iso now) db
        (joined token_hash (iso now) db.admin_users db.admin_sessions)

  unfoldable pub admin_from_session :
      Option Text → Datetime → Database → Database × Option AdminUser
  unfolding same_text
  admin_from_session none now db = (db, none)
  admin_from_session (some []) now db = (db, none)
  admin_from_session (some (c ∷ token)) now db = session_of (p.sha256_hex (c ∷ token)) now db

  abbrev pub audit_logout : Option Text → Datetime → Database → Database
  audit_logout none now db = db
  audit_logout (some []) now db = db
  audit_logout (some (c ∷ admin_id)) now db =
      audit p db now "admin" (some (c ∷ admin_id)) "admin.logout" "admin_user" (c ∷ admin_id) []
        none

  unfoldable pub revoke_session : Text → Option Text → Datetime → Database → Database
  unfolding same_text audit
  revoke_session token admin_id now db =
      audit_logout admin_id now (revoke_token (p.sha256_hex token) (iso now) db)

  abbrev pub set_password :
      Text → Text → Option Text → Datetime → Database → Option Text → Option (Database × Change)
  set_password admin_id username ip_address now db none = none
  set_password admin_id username ip_address now db (some password_hash) = some (
    audit p
        (revoke_all admin_id (iso now)
          (update_admin admin_id (λ user. record user { password_hash = password_hash }) db))
        now "admin" (some admin_id) "admin.password_changed" "admin_user" admin_id
        (("username", string username) ∷ []) ip_address,
    changed,
  )

  abbrev pub change_user :
      Text
      → Text
      → Text
      → Option Text
      → Bytes
      → Datetime
      → Database
      → Option AdminUser
      → Option (Database × Change)
  change_user admin_id current new ip_address salt now db none = some (db, not_active)
  change_user admin_id current new ip_address salt now db (some user) =
      when_verified (verify_password h current user.password_hash) (db, wrong_password)
        (set_password admin_id user.username ip_address now db (hash_password h new salt))

  unfoldable pub change_admin_password :
      Text → Text → Text → Option Text → Bytes → Datetime → Database → Option (Database × Change)
  unfolding same_text
  change_admin_password admin_id current new ip_address salt now db =
      if ltb (length new) 12
      then some (db, too_short)
      else change_user admin_id current new ip_address salt now db
          (find (has_admin_id admin_id) db.admin_users)
