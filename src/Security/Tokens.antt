-- ===== src/Security/Tokens.antt =====
-- Stored secrets: `_b64url_encode`, `_b64url_decode`, `_derive_token_keys`, `_token_keystream`,
-- `encrypt_secret` and `decrypt_secret` of autoedge_licensing/security.py. The outer Option of a
-- result is none where Python raises, the inner one is Python's own.
mod Xor
pub mod Keystream
pub mod RoundTrip
use Prim.Native.Nat.{bit_xor}
use autoedge_licensing_serve.Prelude.{
  ℕ, zero, suc, ◌+◌, ◌-◌, ◌*◌, ◌/◌, ◌%◌, Bool, true, false, Option, none, some, List, [], ◌∷◌, ◌++◌,
  length, take, drop, ltb, leb, if◌then◌else◌,
}
use autoedge_licensing_serve.Text.{Text, text, starts_with}
use autoedge_licensing_serve.Security.Primitives.{Primitives, Bytes, repeated, compare_digest}
use autoedge_licensing_serve.Security.Primitives.Slices.{strip_right}

abbrev pub big_endian : ℕ → Bytes
big_endian n = (n / 16777216) ∷ (n / 65536 % 256) ∷ (n / 256 % 256) ∷ (n % 256) ∷ []

-- `counter.to_bytes(4, "big")`, which raises OverflowError from 2 ** 32 on
unfoldable pub counter_bytes : ℕ → Option Bytes
counter_bytes n = if ltb n 4294967296 then some (big_endian n) else none

-- `b"".join(blocks)`
abbrev pub join : List Bytes → Bytes
join [] = []
join (block ∷ blocks) = block ++ join blocks

-- `bytes(left ^ right for left, right in zip(a, b))`
unfoldable pub xor_bytes : Bytes → Bytes → Bytes
xor_bytes [] bs = []
xor_bytes (a ∷ as') [] = []
xor_bytes (a ∷ as') (b ∷ bs) = bit_xor a b ∷ xor_bytes as' bs

-- `-len(value) % 4`
abbrev pub missing_padding : Text → ℕ
missing_padding value = (4 - length value % 4) % 4

module _ (p : Primitives) where
  unfoldable pub b64url_encode : Bytes → Text
  unfolding strip_right
  b64url_encode value = strip_right b'=' (p.urlsafe_b64encode value)

  unfoldable pub b64url_decode : Text → Option Bytes
  b64url_decode value = p.urlsafe_b64decode (value ++ repeated (missing_padding value) b'=')

  abbrev pub token_root : Text → Bytes
  token_root secret = p.sha256 (p.utf8_encode secret)

  unfoldable pub encryption_key : Text → Bytes
  encryption_key secret =
      p.hmac_sha256 (token_root secret) (text "autoedge-token-encryption:v1:enc")

  unfoldable pub mac_key : Text → Bytes
  mac_key secret = p.hmac_sha256 (token_root secret) (text "autoedge-token-encryption:v1:mac")

  -- The loop of `_token_keystream`: none if `to_bytes` raises, or if the fuel runs out.
  abbrev pub next_block :
      Bytes → Bytes → Option Bytes → (Bytes → Option (List Bytes)) → Option (List Bytes)
  next_block key nonce none continue = none
  next_block key nonce (some counter) continue = continue (p.hmac_sha256 key (nonce ++ counter))

  unfoldable pub keystream_blocks : ℕ → Bytes → Bytes → ℕ → ℕ → ℕ → List Bytes → Option (List Bytes)
  unfolding counter_bytes
  keystream_blocks zero key nonce size counter generated blocks = none
  keystream_blocks (suc fuel) key nonce size counter generated blocks =
      let rest = next_block key nonce (counter_bytes counter) (λ block.
        keystream_blocks fuel key nonce size (counter + 1) (generated + length block)
          (blocks ++ block ∷ [])) in
      if ltb generated size then rest else some blocks

  abbrev pub cut : ℕ → Option (List Bytes) → Option Bytes
  cut size none = none
  cut size (some blocks) = some (take size (join blocks))

  unfoldable pub token_keystream : Bytes → Bytes → ℕ → Option Bytes
  unfolding keystream_blocks
  token_keystream key nonce size = cut size (keystream_blocks (suc size) key nonce size 0 0 [])

  unfoldable pub token_tag : Text → Bytes → Bytes
  unfolding mac_key
  token_tag secret body = p.hmac_sha256 (mac_key secret) (text "v1" ++ body)

  unfoldable pub sealed : Text → Bytes → Text
  unfolding token_tag b64url_encode
  sealed secret body = text "v1:" ++ b64url_encode (body ++ token_tag secret body)

  abbrev pub encrypted_with : Text → Bytes → Bytes → Option Bytes → Option (Option Text)
  encrypted_with secret nonce plain none = none
  encrypted_with secret nonce plain (some stream) =
      some (some (sealed secret (nonce ++ xor_bytes plain stream)))

  -- `nonce` is what `os.urandom(16)` gives.
  unfoldable pub encrypt_secret : Text → Bytes → Option Text → Option (Option Text)
  unfolding token_keystream encryption_key sealed xor_bytes
  encrypt_secret secret nonce none = some none
  encrypt_secret secret nonce (some []) = some none
  encrypt_secret secret nonce (some (c ∷ s)) =
      let plain = p.utf8_encode (c ∷ s) in
      encrypted_with secret nonce plain
        (token_keystream (encryption_key secret) nonce (length plain))

  abbrev pub decrypted_with : Bytes → Option Bytes → Option (Option Text)
  decrypted_with ciphertext none = none
  decrypted_with ciphertext (some stream) = some (p.utf8_decode (xor_bytes ciphertext stream))

  unfoldable pub decrypt_body : Text → Bytes → Option (Option Text)
  unfolding token_keystream encryption_key xor_bytes
  decrypt_body secret body =
      let ciphertext = drop 16 body in
      decrypted_with ciphertext
        (token_keystream (encryption_key secret) (take 16 body) (length ciphertext))

  unfoldable pub decrypt_payload : Text → Option Bytes → Option (Option Text)
  unfolding decrypt_body token_tag
  decrypt_payload secret none = some none
  decrypt_payload secret (some payload) =
      let body = take (length payload - 32) payload in
      if ltb (length payload) 48
      then some none
      else (if compare_digest (token_tag secret body) (drop (length payload - 32) payload)
          then decrypt_body secret body
          else some none)

  unfoldable pub decrypt_secret : Text → Option Text → Option (Option Text)
  unfolding decrypt_payload b64url_decode
  decrypt_secret secret none = some none
  decrypt_secret secret (some []) = some none
  decrypt_secret secret (some (c ∷ s)) =
      if starts_with (c ∷ s) (text "v1:")
      then decrypt_payload secret (b64url_decode (drop 3 (c ∷ s)))
      else some none
