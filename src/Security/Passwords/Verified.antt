-- ===== src/Security/Passwords/Verified.antt =====
-- A hashed password is verified.
use autoedge_licensing_serve.Prelude.{
  ℕ, ◌≡◌, ◌≢◌, ◌↔◌, refl, true, false, Option, none, some, [], ◌∷◌, ◌++◌, All, arith, ==_iff,
  Option-cases, inl, inr,
}
use autoedge_licensing_serve.Text.{Text, text, strip, strip_left, split}
use autoedge_licensing_serve.Text.Laws.{same_text_iff}
use autoedge_licensing_serve.Version.{decimal}
use autoedge_licensing_serve.Security.Primitives.{Bytes}
use autoedge_licensing_serve.Security.Webhook.Verify.{int_of_text, split_first, unsigned}
use autoedge_licensing_serve.Security.Passwords.{
  Hasher, password_parts, hash_password, verify_password, matches,
}

split_first-append :
    (c : ℕ) (s t : Text) → All (λ d. d ≢ c) s → split_first c (s ++ c ∷ t) ≡ some (s, t)
unfolding split_first
split_first-append c [] t a = rw ((==_iff c c).1 refl)
split_first-append c (d ∷ s) t a = rw (split_first-append c s t a.1) (ground (arith, a.0))

iterations_read : int_of_text (text "210000") ≡ some (false, 210000)
unfolding int_of_text unsigned strip strip_left split decimal
iterations_read = refl

abbrev pub derived : Hasher → Text → Bytes → Option Bytes
derived h password salt = h.pbkdf2 (h.utf8_encode password) salt (false, 210000)

module _ (h : Hasher) (round : (b : Bytes) → h.b64decode (h.b64encode b) ≡ some b)
    (plain : (b : Bytes) → All (λ c. c ≢ b'$') (h.b64encode b)) where
  verify_encoded :
      (candidate : Text) (salt digest : Bytes)
      → verify_password h candidate
          (text "pbkdf2_sha256$210000$" ++ (h.b64encode salt ++ b'$' ∷ h.b64encode digest))
        ≡ matches h digest (derived h candidate salt)
  unfolding verify_password password_parts split_first
  verify_encoded candidate salt digest =
      rw
        (
          split_first-append b'$' (h.b64encode salt) (h.b64encode digest) (plain salt),
          round salt,
          round digest,
        )
        refl

  matches_iff :
      (digest : Bytes) (actual : Option Bytes)
      → (matches h digest actual ≡ some true) ↔ (actual ≡ some digest)
  matches_iff digest none = ground arith
  matches_iff digest (some actual) = ground (arith, same_text_iff actual digest)

  -- Of a hash that `hash_password` makes, `verify_password` accepts just the passwords from which
  -- PBKDF2 derives, with that salt, the same digest, so the hashed password itself. base64 gives
  -- back what it encoded, and its texts have no "$".
  pub verify-hash_password :
      (password candidate encoded : Text) (salt : Bytes)
      → hash_password h password salt ≡ some encoded
      → (verify_password h candidate encoded ≡ some true)
        ↔ (derived h candidate salt ≡ derived h password salt)
  unfolding hash_password
  verify-hash_password password candidate encoded salt made =
      elim (Option-cases (derived h password salt)) [
        | inl e ↦ ground (arith, e, made)
        | inr (digest, e) ↦ ground (
          arith,
          e,
          made,
          verify_encoded candidate salt digest,
          matches_iff digest (derived h candidate salt),
        )
      ]
