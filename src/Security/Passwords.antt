-- ===== src/Security/Passwords.antt =====
-- `hash_password` and `verify_password` of autoedge_licensing/security.py; PBKDF2 and base64 are
-- parameters.
pub mod Verified
use autoedge_licensing_serve.Prelude.{
  ℕ, Bool, true, false, Option, none, some, List, [], ◌∷◌, ◌++◌, ◌==◌, if◌then◌else◌,
}
use autoedge_licensing_serve.Text.{Text, text, same_text}
use autoedge_licensing_serve.Security.Primitives.{Bytes, compare_digest}
use autoedge_licensing_serve.Security.Webhook.Verify.{Integer, int_of_text, split_first}

-- `pbkdf2 password salt iterations` is `hashlib.pbkdf2_hmac("sha256", …)`, none where it raises
pub record Hasher : Type 0 where
  pub pbkdf2 : Bytes → Bytes → Integer → Option Bytes
  pub utf8_encode : Text → Bytes
  pub b64encode : Bytes → Text
  pub b64decode : Text → Option Bytes

-- the four parts of `encoded.split("$", 3)`
pub record Parts : Type 0 where
  pub algorithm : Text
  pub iterations : Text
  pub salt : Text
  pub digest : Text

abbrev pub third_split : Text → Text → Option (Text × Text) → Option Parts
third_split a b none = none
third_split a b (some (c, d)) =
    some (record { algorithm = a; iterations = b; salt = c; digest = d })

abbrev pub second_split : Text → Option (Text × Text) → Option Parts
second_split a none = none
second_split a (some (b, rest)) = third_split a b (split_first b'$' rest)

abbrev pub first_split : Option (Text × Text) → Option Parts
first_split none = none
first_split (some (a, rest)) = second_split a (split_first b'$' rest)

unfoldable pub password_parts : Text → Option Parts
unfolding split_first
password_parts encoded = first_split (split_first b'$' encoded)

module _ (h : Hasher) where
  -- the default of 210,000 iterations, which all callers take; `salt` is what `os.urandom` gives
  abbrev pub encoded_password : Bytes → Option Bytes → Option Text
  encoded_password salt none = none
  encoded_password salt (some digest) =
      some (text "pbkdf2_sha256$210000$" ++ (h.b64encode salt ++ b'$' ∷ h.b64encode digest))

  unfoldable pub hash_password : Text → Bytes → Option Text
  hash_password password salt =
      encoded_password salt (h.pbkdf2 (h.utf8_encode password) salt (false, 210000))

  abbrev pub matches : Bytes → Option Bytes → Option Bool
  matches expected none = none
  matches expected (some actual) = some (compare_digest actual expected)

  abbrev pub verify_decoded : Text → Option Integer → Option Bytes → Option Bytes → Option Bool
  verify_decoded password none salt expected = some false
  verify_decoded password (some iterations) none expected = some false
  verify_decoded password (some iterations) (some salt) none = some false
  verify_decoded password (some iterations) (some salt) (some expected) =
      matches expected (h.pbkdf2 (h.utf8_encode password) salt iterations)

  abbrev pub verify_parts : Text → Option Parts → Option Bool
  verify_parts password none = some false
  verify_parts password (some parts) =
      if same_text parts.algorithm (text "pbkdf2_sha256")
      then verify_decoded password (int_of_text parts.iterations) (h.b64decode parts.salt)
          (h.b64decode parts.digest)
      else some false

  -- none where `pbkdf2_hmac` raises
  unfoldable pub verify_password : Text → Text → Option Bool
  unfolding password_parts int_of_text same_text
  verify_password password encoded = verify_parts password (password_parts encoded)
