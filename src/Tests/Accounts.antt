-- ===== src/Tests/Accounts.antt =====
-- A toy PBKDF2, and the theorems on passwords and administrators' sessions at concrete inputs.
use autoedge_licensing_serve.Prelude.{
  ◌+◌, ◌≡◌, ◌≢◌, ◌≤◌, ◌↔◌, refl, true, Option, none, some, [], ◌∷◌, ◌++◌, length, All, find, ltb,
  arith, if◌then◌else◌,
}
use autoedge_licensing_serve.Text.{Text, text, strip}
use autoedge_licensing_serve.Time.{Datetime, iso}
use autoedge_licensing_serve.Database.{Database, AdminUser, audit}
use autoedge_licensing_serve.Security.Primitives.{Bytes}
use autoedge_licensing_serve.Security.Passwords.{Hasher, hash_password, verify_password}
use autoedge_licensing_serve.Security.Passwords.Verified.{verify-hash_password, derived}
use autoedge_licensing_serve.Accounts.{
  authenticate_admin, change_admin_password, admin_from_session, has_admin_id, has_username, Change,
  with_login, hours, changed,
}
use autoedge_licensing_serve.Accounts.SignedIn.{authenticate_admin_lem}
use autoedge_licensing_serve.Accounts.SignedOut.{change_admin_password_lem}
use autoedge_licensing_serve.Tests.{platform, database, today}
use autoedge_licensing_serve.Tests.Security.{encode, decode, decode-encode}

abbrev hasher : Hasher
hasher = record {
  pbkdf2 = λ password salt iterations. some (salt ++ password);
  utf8_encode = λ s. s;
  b64encode = encode;
  b64decode = decode;
}

encode_no_dollar : (b : Bytes) → All (λ c. c ≢ b'$') (encode b)
encode_no_dollar [] = tt
encode_no_dollar (n ∷ b) = (
  (λ e. omega arith),
  ((λ e. omega arith), ((λ e. omega arith), ((λ e. omega arith), encode_no_dollar b))),
)

abbrev salt : Bytes
salt = 1 ∷ 2 ∷ []

abbrev encoded : Text
encoded = text "pbkdf2_sha256$210000$" ++ (encode salt ++ b'$' ∷ encode (salt ++ text "secret"))

verify-hash_password_example :
    (verify_password hasher (text "guess") encoded ≡ some true)
    ↔ (derived hasher (text "guess") salt ≡ derived hasher (text "secret") salt)
unfolding hash_password
verify-hash_password_example =
    verify-hash_password hasher decode-encode encode_no_dollar (text "secret") (text "guess")
      encoded salt refl

abbrev admin : AdminUser
admin = record {
  id = text "a1";
  username = text "boss";
  password_hash = encoded;
  is_active = true;
  created_at = 1;
  last_login_at = none;
}

abbrev staffed : Database
staffed = record database { admin_users = admin ∷ [] }

abbrev database_of : {A : Type 0} → Option (Database × A) → Database
database_of none = staffed
database_of (some (db, result)) = db

abbrev login : Option (Database × Option (AdminUser × Text))
login =
    authenticate_admin platform hasher (text " boss ") (text "secret") 12 none none (text "token")
      today staffed

abbrev change : Option (Database × Change)
change =
    change_admin_password platform hasher (text "a1") (text "secret") (text "a longer one") none
      salt (today + hours 1) (database_of login)

logged_in : login ≡ some (database_of login, some (admin, text "token"))
unfolding authenticate_admin verify_password strip
logged_in = refl

password_changed : change ≡ some (database_of change, changed)
unfolding change_admin_password authenticate_admin verify_password hash_password strip audit
password_changed = refl

authenticate_admin_lem_example :
    (find (has_username (strip (text " boss "))) staffed.admin_users ≡ some admin)
    × (verify_password hasher (text "secret") encoded ≡ some true)
    × ((later : Datetime)
        → (admin_from_session platform hasher (some (text "token")) later (database_of login)).1 ≡ (
            if ltb (iso later) (iso (today + hours 12))
            then some (with_login platform hasher today admin)
            else none))
authenticate_admin_lem_example =
    authenticate_admin_lem platform hasher 12 none none today (text " boss ") (text "secret")
      (text "token") staffed (tt, tt) refl logged_in

change_admin_password_lem_example :
    (12 ≤ length (text "a longer one"))
    × ((user : AdminUser) × (hash : Text) × (find
            (has_admin_id (text "a1"))
            (database_of login).admin_users
          ≡ some user)
        × (verify_password hasher (text "secret") user.password_hash ≡ some true)
        × (hash_password hasher (text "a longer one") salt ≡ some hash)
        × (find (has_admin_id (text "a1")) (database_of change).admin_users
            ≡ some (record user { password_hash = hash })))
    × ((token : Option Text) (later : Datetime) (other : AdminUser)
        → (admin_from_session platform hasher token later (database_of change)).1 ≡ some other
        → other.id ≢ text "a1")
change_admin_password_lem_example =
    change_admin_password_lem platform hasher (text "a1") (text "secret") (text "a longer one") none
      salt (today + hours 1) (database_of login) password_changed
