-- ===== src/Tests/Security.antt =====
-- Toy cryptography that keeps the documented laws, and the theorems on secrets and signatures at
-- concrete inputs.
use mathlib.Core.List.{append-nil}
use autoedge_licensing_serve.Prelude.{
  ℕ, ◌+◌, ◌-◌, ◌%◌, ◌≡◌, ◌≢◌, ◌↔◌, refl, sym, Option, none, some, [], ◌∷◌, ◌++◌, length, All, arith,
  true,
}
use autoedge_licensing_serve.Text.{Text, text}
use autoedge_licensing_serve.Security.Primitives.{Primitives, IsStandard, Bytes, repeated}
use autoedge_licensing_serve.Security.Tokens.{encrypt_secret, decrypt_secret, token_keystream}
use autoedge_licensing_serve.Security.Tokens.Keystream.{token_keystream_total}
use autoedge_licensing_serve.Security.Tokens.RoundTrip.{decrypt-encrypt}
use autoedge_licensing_serve.Security.Signed.{sign_value, unsign_value, unsign_value_iff}
use autoedge_licensing_serve.Security.Webhook.Verify.{Headers, verify_standard_webhook}
use autoedge_licensing_serve.Security.Webhook.Genuine.{IsGenuine, verify_standard_webhook_iff}

-- four characters for each byte, so that no padding is needed
abbrev pub encode : Bytes → Text
encode [] = []
encode (n ∷ bytes) = b'A' ∷ b'A' ∷ b'A' ∷ (n + 66) ∷ encode bytes

abbrev pub onto : ℕ → Option Bytes → Option Bytes
onto n none = none
onto n (some bytes) = some ((n - 66) ∷ bytes)

abbrev pub decode : Text → Option Bytes
decode [] = some []
decode (a ∷ []) = none
decode (a ∷ b ∷ []) = none
decode (a ∷ b ∷ c ∷ []) = none
decode (a ∷ b ∷ c ∷ d ∷ s) = onto d (decode s)

abbrev pub primitives : Primitives
primitives = record {
  sha256 = λ b. b;
  hmac_sha256 = λ key message. repeated 32 7;
  hex = λ b. text "c0ffee";
  utf8_encode = λ s. s;
  utf8_decode = λ b. some b;
  urlsafe_b64encode = encode;
  urlsafe_b64decode = decode;
  b64decode = λ s. none;
  b64decode_validate = decode;
}

pub decode-encode : (b : Bytes) → decode (encode b) ≡ some b
decode-encode [] = refl
decode-encode (n ∷ b) = ground (arith, decode-encode b)

IsPlain : ℕ → Type 0
IsPlain c = c ≢ b'='

letter-IsPlain : IsPlain b'A'
unfolding IsPlain
letter-IsPlain e = omega arith

shifted-IsPlain : (n : ℕ) → IsPlain (n + 66)
unfolding IsPlain
shifted-IsPlain n e = omega arith

encode_AllPlain : (b : Bytes) → All IsPlain (encode b)
encode_AllPlain [] = tt
encode_AllPlain (n ∷ b) =
    (letter-IsPlain, (letter-IsPlain, (letter-IsPlain, (shifted-IsPlain n, encode_AllPlain b))))

encode_plain : (b : Bytes) → All (λ c. c ≢ b'=') (encode b)
unfolding IsPlain
encode_plain b = encode_AllPlain b

encode_even : (b : Bytes) → length (encode b) % 4 ≡ 0
encode_even [] = refl
encode_even (n ∷ b) = omega (arith, encode_even b)

pub standard : IsStandard primitives
standard = record {
  digest_length = λ key message. refl;
  utf8 = λ s. refl;
  b64 = decode-encode;
  b64_padded = λ b. record {
    body = encode b;
    padding = 0;
    parts = sym (append-nil (encode b));
    short = omega arith;
    plain = encode_plain b;
    even = omega (arith, encode_even b);
  };
  hex_digits = λ b. (refl, (refl, (refl, (refl, (refl, (refl, tt))))));
}

abbrev pub nonce : Bytes
nonce = repeated 16 3

token_keystream_total_example :
    (stream : Bytes) × (token_keystream primitives (text "k") nonce 70 ≡ some stream)
    × (length stream ≡ 70)
token_keystream_total_example =
    token_keystream_total primitives standard (text "k") nonce 70 (omega arith)

decrypt-encrypt_example :
    (e : Text) × (encrypt_secret primitives (text "key") nonce (some (text "token"))
      ≡ some (some e))
    × (decrypt_secret primitives (text "key") (some e) ≡ some (some (text "token")))
decrypt-encrypt_example =
    decrypt-encrypt primitives standard (text "key") nonce b't' (text "oken") refl (omega arith)

unsign_value_iff_example :
    (unsign_value primitives (text "key") (text "a.b.c0ffee") ≡ some (some (text "a.b")))
    ↔ (text "a.b.c0ffee" ≡ sign_value primitives (text "key") (text "a.b"))
unsign_value_iff_example =
    unsign_value_iff primitives standard (text "key") (text "a.b.c0ffee") (text "a.b")

abbrev headers : Headers
headers =
    (text "Webhook-Id", text "w1")
    ∷ (text "webhook-timestamp", text "1700000100")
    ∷ (text "webhook-signature", text "v1,x v1," ++ encode (repeated 32 7))
    ∷ []

accepted :
    verify_standard_webhook primitives (text "body") headers (text "whsec_key") 300 1700000000
    ≡ (true, "ok")
unfolding verify_standard_webhook
accepted = refl

verify_standard_webhook_iff_example :
    (verify_standard_webhook primitives (text "body") headers (text "whsec_key") 300 1700000000
      ≡ (true, "ok"))
    ↔ IsGenuine primitives (text "body") headers (text "whsec_key") 300 1700000000
verify_standard_webhook_iff_example =
    verify_standard_webhook_iff primitives (text "body") headers (text "whsec_key") 300 1700000000
