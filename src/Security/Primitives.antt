-- ===== src/Security/Primitives.antt =====
-- What autoedge_licensing/security.py takes from hmac, hashlib, base64 and the UTF-8 codec, and
-- Python's slices and searches on byte strings and texts.
pub mod Slices
use autoedge_licensing_serve.Prelude.{
  ℕ, zero, suc, ◌+◌, ◌-◌, ◌%◌, ◌≡◌, ◌≢◌, ◌≤◌, Bool, true, false, Option, none, some, List, [], ◌∷◌,
  ◌++◌, reverse, length, All, all, ◌==◌, ltb, leb, ◌&&◌, ◌||◌, if◌then◌else◌,
}
use autoedge_licensing_serve.Text.{Text, same_text, is_digit}

abbrev pub Bytes : Type 0
Bytes = List ℕ

-- `hmac_sha256 key message` is the digest; a decoder that raises gives none.
pub record Primitives : Type 0 where
  pub sha256 : Bytes → Bytes
  pub hmac_sha256 : Bytes → Bytes → Bytes
  pub hex : Bytes → Text
  pub utf8_encode : Text → Bytes
  pub utf8_decode : Bytes → Option Text
  pub urlsafe_b64encode : Bytes → Text
  pub urlsafe_b64decode : Text → Option Bytes
  pub b64decode : Text → Option Bytes
  pub b64decode_validate : Text → Option Bytes

-- `c * n`
abbrev pub repeated : ℕ → ℕ → List ℕ
repeated zero c = []
repeated (suc n) c = c ∷ repeated n c

-- A base64 text: characters that are not "=", then at most two of them, to a multiple of four.
pub record IsPadded (s : Text) : Type 0 where
  pub body : Text
  pub padding : ℕ
  pub parts : s ≡ body ++ repeated padding b'='
  pub short : padding ≤ 2
  pub plain : All (λ c. c ≢ b'=') body
  pub even : (length body + padding) % 4 ≡ 0

abbrev pub is_hex : ℕ → Bool
is_hex c = is_digit c || (leb b'a' c && leb c b'f')

-- What the documentation of these functions says.
pub record IsStandard (p : Primitives) : Type 0 where
  pub digest_length : (key message : Bytes) → length (p.hmac_sha256 key message) ≡ 32
  pub utf8 : (s : Text) → p.utf8_decode (p.utf8_encode s) ≡ some s
  pub b64 : (b : Bytes) → p.urlsafe_b64decode (p.urlsafe_b64encode b) ≡ some b
  pub b64_padded : (b : Bytes) → IsPadded (p.urlsafe_b64encode b)
  pub hex_digits : (b : Bytes) → All (λ c. is_hex c ≡ true) (p.hex b)

-- `hmac.compare_digest`
abbrev pub compare_digest : Bytes → Bytes → Bool
compare_digest = same_text

abbrev pub is_ascii : Text → Bool
is_ascii = all (λ c. ltb c 128)

-- `hmac.compare_digest` on texts, which raises TypeError where one of them is not ASCII
abbrev pub compare_texts : Text → Text → Option Bool
compare_texts s t = if is_ascii s && is_ascii t then some (same_text s t) else none
