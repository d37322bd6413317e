-- ===== src/Accounts/SignedIn.antt =====
-- A login opens a session.
use autoedge_licensing_serve.Prelude.{
  ℕ, ◌+◌, ◌≡◌, refl, ◌∙◌, Bool, true, false, Option, none, some, List, [], ◌∷◌, ◌++◌, arith, find,
  any, update_where, Bool-cases, inl, inr, ltb, ◌or◌, if◌then◌else◌,
}
use autoedge_licensing_serve.Text.{Text, same_text, strip, is_truthy}
use autoedge_licensing_serve.Text.Laws.{same_text_self}
use autoedge_licensing_serve.Time.{Stamp, Datetime, iso}
use autoedge_licensing_serve.Database.{Platform, Database, AdminUser, AdminSession, audit, fresh_id}
use autoedge_licensing_serve.Database.Unique.{found-IsOnly, find-written, HasUnique, IsOnly}
use autoedge_licensing_serve.Security.Passwords.{Hasher, verify_password}
use autoedge_licensing_serve.Accounts.{
  authenticate_admin, authenticate_user, open_session, when_verified, admin_from_session, joined,
  is_open, has_token, has_admin_id, has_username, with_login, new_session, hours, recognised,
}

joined-last :
    (token_hash : Text) (now : Stamp) (users : List AdminUser) (sessions : List AdminSession)
    (session : AdminSession)
    → any (has_token token_hash) sessions ≡ false
    → joined token_hash now users (sessions ++ session ∷ []) ≡ (
        if is_open token_hash now session
        then find (has_admin_id session.admin_user_id) users or none
        else none)
joined-last token_hash now users [] session new = refl
joined-last token_hash now users (s ∷ sessions) session new =
    let closed : is_open token_hash now s ≡ false = ground (arith, new) in
    rw closed (joined-last token_hash now users sessions session (ground (arith, new)))

recognised-read :
    (token_hash : Text) (now : Stamp) (db : Database) (user : Option AdminUser)
    → (recognised token_hash now db user).1 ≡ user
recognised-read token_hash now db none = refl
recognised-read token_hash now db (some user) = refl

find-by_id :
    (username : Text) (users : List AdminUser) {user : AdminUser}
    → IsOnly AdminUser.id user users
    → find (has_username username) users ≡ some user
    → find (has_admin_id user.id) users ≡ some user
find-by_id username [] o f = cc
find-by_id username (u ∷ users) {user} o f = elim (Bool-cases (has_username username u)) [
  | inl hit ↦
      let q : u ≡ user = ground arith in
      let own : has_admin_id user.id u ≡ true =
        rw q (ground (arith, same_text_self user.id, rw q at hit)) in
      rw (own, q) refl
  | inr miss ↦ elim (Bool-cases (has_admin_id user.id u)) [
    | inl own ↦ rw own (let q : u ≡ user = o.0 (ground (arith, own)) in rw q refl)
    | inr other ↦ rw other (find-by_id username users o.1 (rw miss at f))
  ]
]

module _ (p : Platform) (h : Hasher) (session_hours : ℕ) (ip_address user_agent : Option Text)
    (now : Datetime) where
  -- what a login writes
  abbrev IsOpened : Text → Database → Database → AdminUser → Type 0
  IsOpened token db db' user =
      (any (has_token (p.sha256_hex token)) db.admin_sessions ≡ false)
      × (db'.admin_users
          ≡ update_where (λ u. same_text u.id user.id) (with_login p h now) db.admin_users)
      × (db'.admin_sessions
          ≡ db.admin_sessions
            ++ new_session p h (fresh_id p db) token user.id now session_hours ip_address user_agent
              ∷ [])

  open_session_lem :
      (token : Text) (db : Database) (user : AdminUser) {db' : Database} {read : AdminUser}
      {given : Text}
      → open_session p h token session_hours ip_address user_agent now db user
        ≡ some (db', some (read, given))
      → (read ≡ user) × (given ≡ token) × IsOpened token db db' user
  unfolding audit
  open_session_lem token db user made =
      elim (Bool-cases (any (has_token (p.sha256_hex token)) db.admin_sessions)) [
        | inl e ↦ ground (arith, rw e at made)
        | inr e ↦
            let made' = rw e at made in
            (ground arith, ground arith, (e, ground arith, ground arith))
      ]

  accepted_lem :
      (v : Option Bool) (db : Database) (accepted : Option (Database × Option (AdminUser × Text)))
      {db' : Database} {found : AdminUser × Text}
      → when_verified p h v (db, none) accepted ≡ some (db', some found)
      → (v ≡ some true) × (accepted ≡ some (db', some found))
  accepted_lem none db accepted made = ground arith
  accepted_lem (some false) db accepted made = ground arith
  accepted_lem (some true) db accepted made = (refl, made)

  authenticate_user_lem :
      (password token : Text) (db : Database) (found : Option AdminUser) {db' : Database}
      {user : AdminUser} {given : Text}
      → authenticate_user p h password token session_hours ip_address user_agent now db found
        ≡ some (db', some (user, given))
      → (found ≡ some user)
        × (given ≡ token)
        × (verify_password h password user.password_hash ≡ some true)
        × IsOpened token db db' user
  authenticate_user_lem password token db none made = ground arith
  authenticate_user_lem password token db (some user) made =
      let (verified, opened) =
        accepted_lem (verify_password h password user.password_hash) db _ made in
      let (same, given, written) = open_session_lem token db user opened in
      (rw same refl, given, rw same verified, rw same written)

  session_found :
      (username token : Text) (db db' : Database) (user : AdminUser) (later : Datetime)
      → HasUnique AdminUser.id db.admin_users
      → find (has_username username) db.admin_users ≡ some user
      → is_truthy (some token) ≡ true
      → IsOpened token db db' user
      → (admin_from_session p h (some token) later db').1 ≡ (
          if ltb (iso later) (iso (now + hours session_hours))
          then some (with_login p h now user)
          else none)
  unfolding admin_from_session
  session_found username [] db db' user later unique found full opened = ground arith
  session_found username (c ∷ token) db db' user later unique found full (new, users, sessions) =
      let token_hash = p.sha256_hex (c ∷ token) in
      let kept =
        find-written (has_admin_id user.id) (λ u. same_text u.id user.id) (with_login p h now)
          db.admin_users (λ u. refl) (λ u e. ground (arith, e))
          (find-by_id username db.admin_users
            (found-IsOnly AdminUser.id (has_username username) db.admin_users unique found)
            found) in
      recognised-read token_hash (iso later) db' _
      ∙ rw (users, sessions)
          (joined-last token_hash (iso later) _ db.admin_sessions _ new
            ∙ rw (same_text_self token_hash, kept) refl)

  -- A login that succeeds gives the active administrator of that name, whose password was verified,
  -- and a token: until the hours of the session are over that token gives the administrator, with
  -- the login's time, and from then on nobody. The administrators have distinct ids and the drawn
  -- token is not empty.
  pub authenticate_admin_lem :
      (username password token : Text) (db : Database) {db' : Database} {user : AdminUser}
      {given : Text}
      → HasUnique AdminUser.id db.admin_users
      → is_truthy (some token) ≡ true
      → authenticate_admin p h username password session_hours ip_address user_agent token now db
        ≡ some (db', some (user, given))
      → (find (has_username (strip username)) db.admin_users ≡ some user)
        × (verify_password h password user.password_hash ≡ some true)
        × ((later : Datetime)
            → (admin_from_session p h (some given) later db').1 ≡ (
                if ltb (iso later) (iso (now + hours session_hours))
                then some (with_login p h now user)
                else none))
  unfolding authenticate_admin
  authenticate_admin_lem username password token db {db'} {user} unique full made =
      let (found, given, verified, opened) =
        authenticate_user_lem password token db
          (find (has_username (strip username)) db.admin_users) made in
      (
        found,
        verified,
        (λ later.
            rw given
              (session_found (strip username) token db db' user later unique found full opened)),
      )
