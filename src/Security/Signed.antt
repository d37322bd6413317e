-- ===== src/Security/Signed.antt =====
-- Signed values, as the session cookies hold them: `sign_value` and `unsign_value` of
-- autoedge_licensing/security.py.
use autoedge_licensing_serve.Prelude.{
  ◌≡◌, ◌≢◌, ◌↔◌, refl, Bool, true, false, Option, none, some, [], ◌∷◌, ◌++◌, All, arith, Bool-cases,
  inl, inr,
}
use autoedge_licensing_serve.Text.{Text, same_text}
use autoedge_licensing_serve.Text.Laws.{eq_of_same_text, same_text_self}
use autoedge_licensing_serve.Security.Primitives.{
  Primitives, IsStandard, compare_texts, is_hex, is_ascii,
}
use autoedge_licensing_serve.Security.Primitives.Slices.{
  split_last, split_last-append, split_last-parts,
}

abbrev pub accepted : Text → Option Bool → Option (Option Text)
accepted value none = none
accepted value (some true) = some (some value)
accepted value (some false) = some none

module _ (p : Primitives) where
  unfoldable pub signature : Text → Text → Text
  signature secret value = p.hex (p.hmac_sha256 (p.utf8_encode secret) (p.utf8_encode value))

  unfoldable pub sign_value : Text → Text → Text
  unfolding signature
  sign_value secret value = value ++ b'.' ∷ signature secret value

  abbrev pub unsign_parts : Text → Option (Text × Text) → Option (Option Text)
  unsign_parts secret none = some none
  unsign_parts secret (some (value, digest)) =
      accepted value (compare_texts (signature secret value) digest)

  -- none where `compare_digest` raises
  unfoldable pub unsign_value : Text → Text → Option (Option Text)
  unfolding split_last signature
  unsign_value secret signed_value = unsign_parts secret (split_last b'.' signed_value)

hex-IsPlain : (s : Text) → All (λ c. is_hex c ≡ true) s → All (λ c. c ≢ b'.') s
hex-IsPlain [] a = tt
hex-IsPlain (c ∷ s) a = (ground (arith, a.0), hex-IsPlain s a.1)

hex-is_ascii : (s : Text) → All (λ c. is_hex c ≡ true) s → is_ascii s ≡ true
hex-is_ascii [] a = refl
hex-is_ascii (c ∷ s) a = ground (arith, a.0, hex-is_ascii s a.1)

accepted-eq :
    (s t value : Text) {v : Text}
    → accepted value (compare_texts s t) ≡ some (some v)
    → (value ≡ v) × (s ≡ t)
accepted-eq s t value h = elim (Bool-cases (same_text s t)) [
  | inl e ↦ (ground arith, eq_of_same_text s t e)
  | inr e ↦ ground arith
]

module _ (p : Primitives) where
  parts-eq :
      (secret s : Text) (o : Option (Text × Text)) {v : Text}
      → split_last b'.' s ≡ o
      → unsign_parts p secret o ≡ some (some v)
      → s ≡ sign_value p secret v
  unfolding sign_value
  parts-eq secret s none e h = cc
  parts-eq secret s (some (value, digest)) {v} e h =
      let (same, digests) = accepted-eq (signature p secret value) digest value h in
      rw (split_last-parts b'.' s e) (cc (same, digests))

  -- `unsign_value` gives a value exactly for the text that `sign_value` makes of it under the same
  -- secret. The digest's text is made of hexadecimal digits.
  pub unsign_value_iff :
      IsStandard p
      → (secret s v : Text)
      → (unsign_value p secret s ≡ some (some v)) ↔ (s ≡ sign_value p secret v)
  unfolding unsign_value sign_value signature
  unsign_value_iff std secret s v = (
    parts-eq secret s (split_last b'.' s) refl,
    λ e.
        let digest = signature p secret v in
        let digits = std.hex_digits (p.hmac_sha256 (p.utf8_encode secret) (p.utf8_encode v)) in
        rw (e, split_last-append b'.' v digest (hex-IsPlain digest digits))
          (rw (hex-is_ascii digest digits, same_text_self digest)),
  )
