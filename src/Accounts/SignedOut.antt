-- ===== src/Accounts/SignedOut.antt =====
-- A changed password signs its administrator out.
use autoedge_licensing_serve.Prelude.{
  ◌≡◌, ◌≢◌, refl, ◌∙◌, sym, Bool, true, false, Option, none, some, List, [], ◌∷◌, All, arith, find,
  is_some, update_where, Bool-cases, Option-cases, length, ◌≤◌, if◌then◌else◌, inl, inr, ltb,
}
use autoedge_licensing_serve.Text.{Text, same_text}
use autoedge_licensing_serve.Text.Laws.{eq_of_same_text, same_text_self}
use autoedge_licensing_serve.Time.{Stamp, Datetime, iso}
use autoedge_licensing_serve.Database.{Platform, Database, AdminUser, AdminSession, audit}
use autoedge_licensing_serve.Database.Unique.{found-passes, find-written}
use autoedge_licensing_serve.Security.Primitives.{Bytes}
use autoedge_licensing_serve.Security.Passwords.{Hasher, verify_password, hash_password}
use autoedge_licensing_serve.Accounts.{
  Change, changed, wrong_password, when_verified, set_password, change_user, too_short,
  change_admin_password, admin_from_session, joined, is_open, is_live_of, has_admin_id,
}

-- the session is another administrator's, or revoked
abbrev IsClosed : Text → AdminSession → Type 0
IsClosed admin_id s = same_text s.admin_user_id admin_id ≡ true → is_some s.revoked_at ≡ true

revoked-IsClosed :
    (admin_id : Text) (now : Stamp) (sessions : List AdminSession)
    → All
        (IsClosed admin_id)
        (update_where (is_live_of admin_id) (λ s. record s { revoked_at = some now }) sessions)
revoked-IsClosed admin_id now [] = tt
revoked-IsClosed admin_id now (s ∷ sessions) = (
  elim (Bool-cases (is_live_of admin_id s)) [
    | inl live ↦ rw live (λ _. refl)
    | inr closed ↦ rw closed (λ own. ground (arith, closed, own))
  ],
  revoked-IsClosed admin_id now sessions,
)

found_other :
    (id admin_id : Text) (users : List AdminUser) {user : AdminUser}
    → same_text id admin_id ≡ false
    → find (has_admin_id id) users ≡ some user
    → user.id ≢ admin_id
found_other id admin_id users {user} other f e =
    let hit : same_text user.id id ≡ true =
      ground (arith, found-passes (has_admin_id id) users f) in
    let same : id ≡ admin_id = sym (eq_of_same_text user.id id hit) ∙ e in
    ground (arith, other, same, same_text_self admin_id)

open_other :
    (admin_id token_hash : Text) (now : Stamp) (s : AdminSession)
    → IsClosed admin_id s
    → is_open token_hash now s ≡ true
    → same_text s.admin_user_id admin_id ≡ false
open_other admin_id token_hash now s closed e =
    elim (Bool-cases (same_text s.admin_user_id admin_id)) [
      | inl own ↦ ground (arith, e, closed own)
      | inr other ↦ other
    ]

joined_other :
    (admin_id token_hash : Text) (now : Stamp) (users : List AdminUser)
    (sessions : List AdminSession) {user : AdminUser}
    → All (IsClosed admin_id) sessions
    → joined token_hash now users sessions ≡ some user
    → user.id ≢ admin_id
joined_other admin_id token_hash now users [] a j = cc
joined_other admin_id token_hash now users (s ∷ sessions) {user} a j =
    elim (Bool-cases (is_open token_hash now s)) [
      | inr e ↦ joined_other admin_id token_hash now users sessions a.1 (rw e at j)
      | inl e ↦ elim (Option-cases (find (has_admin_id s.admin_user_id) users)) [
        | inl f ↦ joined_other admin_id token_hash now users sessions a.1 (rw (e, f) at j)
        | inr (other, f) ↦
            found_other s.admin_user_id admin_id users {user = user}
              (open_other admin_id token_hash now s a.0 e)
              (let q : other ≡ user = ground (arith, rw (e, f) at j) in rw (← q) f)
      ]
    ]

module _ (p : Platform) (h : Hasher) where
  session_other :
      (admin_id : Text) (token : Option Text) (now : Datetime) (db : Database) {user : AdminUser}
      → All (IsClosed admin_id) db.admin_sessions
      → (admin_from_session p h token now db).1 ≡ some user
      → user.id ≢ admin_id
  unfolding admin_from_session
  session_other admin_id none now db a f = cc
  session_other admin_id (some []) now db a f = cc
  session_other admin_id (some (c ∷ token)) now db {user} a f =
      elim (Option-cases
        (joined (p.sha256_hex (c ∷ token)) (iso now) db.admin_users db.admin_sessions)) [
          | inl e ↦ ground (arith, rw e at f)
          | inr (other, e) ↦
              joined_other admin_id (p.sha256_hex (c ∷ token)) (iso now) db.admin_users
                db.admin_sessions {user = user} a (e ∙ rw e at f)
        ]

  verified_lem :
      (v : Option Bool) (db : Database) (accepted : Option (Database × Change)) {db' : Database}
      → when_verified p h v (db, wrong_password) accepted ≡ some (db', changed)
      → (v ≡ some true) × (accepted ≡ some (db', changed))
  verified_lem none db accepted made = ground arith
  verified_lem (some false) db accepted made = ground arith
  verified_lem (some true) db accepted made = (refl, made)

  set_password_lem :
      (admin_id username : Text) (ip_address : Option Text) (now : Datetime) (db : Database)
      (hash : Option Text) {db' : Database}
      → set_password p h admin_id username ip_address now db hash ≡ some (db', changed)
      → (encoded : Text) × (hash ≡ some encoded)
        × (db'.admin_users
            ≡ update_where
                (λ u. same_text u.id admin_id)
                (λ u. record u { password_hash = encoded })
                db.admin_users)
        × (db'.admin_sessions
            ≡ update_where
                (is_live_of admin_id)
                (λ s. record s { revoked_at = some (iso now) })
                db.admin_sessions)
  unfolding audit
  set_password_lem admin_id username ip_address now db none made = ground arith
  set_password_lem admin_id username ip_address now db (some encoded) made =
      (encoded, refl, ground arith, ground arith)

  change_user_lem :
      (admin_id current new : Text) (ip_address : Option Text) (salt : Bytes) (now : Datetime)
      (db : Database) (found : Option AdminUser) {db' : Database}
      → change_user p h admin_id current new ip_address salt now db found ≡ some (db', changed)
      → (user : AdminUser) × (encoded : Text) × (found ≡ some user)
        × (verify_password h current user.password_hash ≡ some true)
        × (hash_password h new salt ≡ some encoded)
        × (db'.admin_users
            ≡ update_where
                (λ u. same_text u.id admin_id)
                (λ u. record u { password_hash = encoded })
                db.admin_users)
        × (db'.admin_sessions
            ≡ update_where
                (is_live_of admin_id)
                (λ s. record s { revoked_at = some (iso now) })
                db.admin_sessions)
  change_user_lem admin_id current new ip_address salt now db none made = ground arith
  change_user_lem admin_id current new ip_address salt now db (some user) made =
      let (verified, set) = verified_lem (verify_password h current user.password_hash) db _ made in
      let (encoded, hashed, users, sessions) =
        set_password_lem admin_id user.username ip_address now db (hash_password h new salt) set in
      (user, encoded, refl, verified, hashed, users, sessions)

  long_enough :
      (new : Text) (db : Database) (continue : Option (Database × Change)) {db' : Database}
      → (if ltb (length new) 12 then some (db, too_short) else continue) ≡ some (db', changed)
      → (12 ≤ length new) × (continue ≡ some (db', changed))
  long_enough new db continue made = ground arith

  -- A change of an administrator's password that succeeds had a new password of at least twelve
  -- characters and the current password of the active administrator; the administrator's row holds
  -- the hash of the new password, and no session token, whatever the time, gives that administrator.
  pub change_admin_password_lem :
      (admin_id current new : Text) (ip_address : Option Text) (salt : Bytes) (now : Datetime)
      (db : Database) {db' : Database}
      → change_admin_password p h admin_id current new ip_address salt now db ≡ some (db', changed)
      → (12 ≤ length new)
        × ((user : AdminUser) × (encoded : Text) × (find (has_admin_id admin_id) db.admin_users
              ≡ some user)
            × (verify_password h current user.password_hash ≡ some true)
            × (hash_password h new salt ≡ some encoded)
            × (find (has_admin_id admin_id) db'.admin_users
                ≡ some (record user { password_hash = encoded })))
        × ((token : Option Text) (later : Datetime) (other : AdminUser)
            → (admin_from_session p h token later db').1 ≡ some other
            → other.id ≢ admin_id)
  unfolding change_admin_password
  change_admin_password_lem admin_id current new ip_address salt now db {db'} made =
      let (long, made') = long_enough new db _ made in
      let (user, encoded, found, verified, hashed, users, sessions) =
        change_user_lem admin_id current new ip_address salt now db
          (find (has_admin_id admin_id) db.admin_users) made' in
      (
        long,
        (
          user,
          encoded,
          found,
          verified,
          hashed,
          rw users (
              find-written (has_admin_id admin_id) (λ u. same_text u.id admin_id)
                (λ u. record u { password_hash = encoded }) db.admin_users (λ u. refl)
                (λ u e. ground (arith, e)) found),
        ),
        (λ token later other f.
            session_other admin_id token later db'
              (rw sessions (revoked-IsClosed admin_id (iso now) db.admin_sessions)) f),
      )
