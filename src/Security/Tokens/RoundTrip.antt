-- ===== src/Security/Tokens/RoundTrip.antt =====
-- What `encrypt_secret` stores, `decrypt_secret` reads.
use autoedge_licensing_serve.Prelude.{
  ℕ, zero, suc, ◌+◌, ◌-◌, ◌≡◌, ◌≢◌, ◌≤◌, refl, sym, false, some, [], ◌∷◌, ◌++◌, length, take, drop,
  arith, ltb, All, ==_iff,
}
use autoedge_licensing_serve.Text.{Text, text, starts_with}
use autoedge_licensing_serve.Text.Laws.{same_text_self}
use autoedge_licensing_serve.Security.Primitives.{Primitives, IsStandard, Bytes, repeated}
use autoedge_licensing_serve.Security.Primitives.Slices.{
  length-append, take-length, drop-length, strip_right,
}
use autoedge_licensing_serve.Security.Tokens.{
  xor_bytes, b64url_encode, b64url_decode, missing_padding, encryption_key, token_keystream,
  token_tag, sealed, encrypt_secret, decrypt_secret, decrypt_payload, decrypt_body,
}
use autoedge_licensing_serve.Security.Tokens.Xor.{xor_bytes_twice, xor_bytes-length}
use autoedge_licensing_serve.Security.Tokens.Keystream.{token_keystream_total}

strip_right-repeated : (n c : ℕ) → strip_right c (repeated n c) ≡ []
unfolding strip_right
strip_right-repeated zero c = refl
strip_right-repeated (suc n) c = rw (strip_right-repeated n c, (==_iff c c).1 refl)

strip_right-append :
    (body : Text) (n c : ℕ) → All (λ d. d ≢ c) body → strip_right c (body ++ repeated n c) ≡ body
unfolding strip_right
strip_right-append [] n c a = strip_right-repeated n c
strip_right-append (d ∷ []) n c a = rw (strip_right-repeated n c) (ground (arith, a.0))
strip_right-append (d ∷ e ∷ body) n c a = rw (strip_right-append (e ∷ body) n c a.1)

module _ (p : Primitives) (std : IsStandard p) where
  -- The padding that `_b64url_encode` takes off is put back.
  b64url-decode-encode : (b : Bytes) → b64url_decode p (b64url_encode p b) ≡ some b
  unfolding b64url_decode b64url_encode
  b64url-decode-encode b =
      let w = std.b64_padded b in
      let stripped : strip_right b'=' (p.urlsafe_b64encode b) ≡ w.body =
        rw w.parts (strip_right-append w.body w.padding b'=' w.plain) in
      let short = w.short in
      let even = w.even in
      let pad : missing_padding w.body ≡ w.padding = omega arith in
      rw (stripped, b64url_decode) (rw pad (rw (← w.parts) (std.b64 b)))

  payload_opened :
      (secret : Text) (body : Bytes)
      → 16 ≤ length body
      → decrypt_payload p secret (some (body ++ token_tag p secret body))
        ≡ decrypt_body p secret body
  unfolding decrypt_payload token_tag
  payload_opened secret body h =
      let tag = token_tag p secret body in
      let total : length (body ++ tag) ≡ length body + 32 =
        omega (arith, length-append body tag, std.digest_length _ (text "v1" ++ body)) in
      let start : length (body ++ tag) - 32 ≡ length body = omega arith in
      let long : ltb (length (body ++ tag)) 48 ≡ false = ground arith in
      rw (long, start, take-length body tag, drop-length body tag, same_text_self tag)

  body_opened :
      (secret : Text) (nonce plain : Bytes) {stream : Bytes}
      → length nonce ≡ 16
      → length stream ≡ length plain
      → token_keystream p (encryption_key p secret) nonce (length plain) ≡ some stream
      → decrypt_body p secret (nonce ++ xor_bytes plain stream) ≡ some (p.utf8_decode plain)
  unfolding decrypt_body
  body_opened secret nonce plain {stream} n l made =
      let cipher = xor_bytes plain stream in
      let head : take 16 (nonce ++ cipher) ≡ nonce = rw (← n) (take-length nonce cipher) in
      let rest : drop 16 (nonce ++ cipher) ≡ cipher = rw (← n) (drop-length nonce cipher) in
      let size : length cipher ≡ length plain = xor_bytes-length plain stream (sym l) in
      rw (head, rest, size, made, xor_bytes_twice plain stream (sym l))

  -- A text that is not empty and whose bytes are at most 2 ** 37, encrypted under a nonce of 16
  -- bytes, gives a value that decrypts under the same secret to that text: neither function
  -- raises, and the loop of the keystream ends. The digests have 32 bytes, and the codecs give
  -- back what they encoded, base64 with its padding.
  pub decrypt-encrypt :
      (secret : Text) (nonce : Bytes) (c : ℕ) (s : Text)
      → length nonce ≡ 16
      → length (p.utf8_encode (c ∷ s)) ≤ 137438953472
      → (e : Text) × (encrypt_secret p secret nonce (some (c ∷ s)) ≡ some (some e))
        × (decrypt_secret p secret (some e) ≡ some (some (c ∷ s)))
  unfolding encrypt_secret decrypt_secret sealed starts_with
  decrypt-encrypt secret nonce c s n b =
      let plain = p.utf8_encode (c ∷ s) in
      let (stream, made, l) =
        token_keystream_total p std (encryption_key p secret) nonce (length plain) b in
      let body = nonce ++ xor_bytes plain stream in
      let long : 16 ≤ length body = omega (arith, length-append nonce (xor_bytes plain stream)) in
      (
        sealed p secret body,
        rw made,
        rw (
          b64url-decode-encode (body ++ token_tag p secret body),
          payload_opened secret body long,
          body_opened secret nonce plain n l made,
          std.utf8 (c ∷ s),
        ),
      )
