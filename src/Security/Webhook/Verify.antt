-- ===== src/Security/Webhook/Verify.antt =====
-- `_candidate_webhook_keys`, `verify_standard_webhook` and `verify_bearer` of
-- autoedge_licensing/security.py.
use autoedge_licensing_serve.Prelude.{
  ℕ, ◌+◌, ◌-◌, String, Bool, true, false, not, ◌&&◌, Option, none, some, List, [], ◌∷◌, ◌++◌, any,
  all, drop, filter_by, ◌or◌, ◌==◌, ltb, if◌then◌else◌,
}
use autoedge_licensing_serve.Text.{
  Text, text, same_text, lower, strip, split, starts_with, is_truthy, all_digits, or_empty,
}
use autoedge_licensing_serve.Version.{decimal}
use autoedge_licensing_serve.Security.Primitives.{
  Primitives, Bytes, repeated, compare_digest, compare_texts,
}
use autoedge_licensing_serve.Security.Tokens.{missing_padding}

abbrev pub Headers : Type 0
Headers = List (Text × Text)

-- `{key.lower(): value for key, value in headers.items()}.get(name)`
unfoldable pub header : Text → Headers → Option Text
unfolding lower same_text
header name [] = none
header name ((key, value) ∷ headers) =
    header name headers or (if same_text (lower key) name then some value else none)

-- the sign, true for "-", and the digits' number
abbrev pub Integer : Type 0
Integer = Bool × ℕ

abbrev pub is_number : Text → Bool
is_number part = is_truthy (some part) && all_digits part

abbrev pub concat : List Text → Text
concat [] = []
concat (part ∷ parts) = part ++ concat parts

-- digits, in groups by single underscores
unfoldable pub unsigned : Bool → Text → Option Integer
unfolding split decimal
unsigned negative s =
    if all is_number (split b'_' s)
    then some (negative, decimal 0 (concat (split b'_' s)))
    else none

abbrev pub signed : Text → Option Integer
signed [] = none
signed (c ∷ s) =
    if c == b'-'
    then unsigned true s
    else (if c == b'+' then unsigned false s else unsigned false (c ∷ s))

-- `int(s)` on ASCII digits; none where it raises ValueError
unfoldable pub int_of_text : Text → Option Integer
unfolding unsigned strip
int_of_text s = signed (strip s)

-- `abs(now - timestamp)`
abbrev pub distance : ℕ → Integer → ℕ
distance now (true, m) = now + m
distance now (false, m) = (now - m) + (m - now)

-- `s.split(",", 1)` where "," is in `s`; none where it is not
abbrev pub onto_before : ℕ → Option (Text × Text) → Option (Text × Text)
onto_before c none = none
onto_before c (some (before, after)) = some (c ∷ before, after)

unfoldable pub split_first : ℕ → Text → Option (Text × Text)
split_first sep [] = none
split_first sep (c ∷ s) = if c == sep then some ([], s) else onto_before c (split_first sep s)

abbrev pub added_key : List Bytes → Option Bytes → List Bytes
added_key candidates none = candidates
added_key candidates (some []) = candidates
added_key candidates (some (b ∷ bytes)) =
    if any (same_text (b ∷ bytes)) candidates then candidates else candidates ++ (b ∷ bytes) ∷ []

module _ (p : Primitives) where
  abbrev pub encoded_secret : Text → Text
  encoded_secret secret = if starts_with secret (text "whsec_") then drop 6 secret else secret

  unfoldable pub candidate_webhook_keys : Text → List Bytes
  unfolding starts_with same_text
  candidate_webhook_keys secret =
      let encoded = encoded_secret secret in
      let padded = encoded ++ repeated (missing_padding encoded) b'=' in
      added_key (added_key (p.utf8_encode secret ∷ []) (p.b64decode padded))
        (p.urlsafe_b64decode padded)

  abbrev pub equals_digest : Bytes → Option Bytes → Bool
  equals_digest expected none = false
  equals_digest expected (some actual) = compare_digest expected actual

  abbrev pub parts_match : Bytes → Option (Text × Text) → Bool
  parts_match expected none = false
  parts_match expected (some (version, encoded)) =
      same_text version (text "v1") && equals_digest expected (p.b64decode_validate encoded)

  -- the body of the inner loop
  unfoldable pub signature_matches : Bytes → Text → Bool
  unfolding split_first same_text
  signature_matches expected signature = parts_match expected (split_first b',' signature)

  abbrev pub signatures : Text → List Text
  signatures signature_header =
      filter_by (λ part. is_truthy (some (strip part))) (split b' ' signature_header)

  abbrev pub signed_payload : Text → Text → Bytes → Bytes
  signed_payload webhook_id timestamp_text raw_body =
      p.utf8_encode webhook_id ++ (b'.' ∷ (p.utf8_encode timestamp_text ++ b'.' ∷ raw_body))

  unfoldable pub signature_found : Text → Bytes → Text → Bool
  unfolding candidate_webhook_keys signature_matches split strip
  signature_found secret payload signature_header =
      any (λ key. any (signature_matches (p.hmac_sha256 key payload)) (signatures signature_header))
        (candidate_webhook_keys secret)

  abbrev pub Verdict : Type 0
  Verdict = Bool × String

  abbrev pub verify_at : Bytes → Text → ℕ → ℕ → Text → Text → Text → Option Integer → Bool × String
  verify_at raw_body secret tolerance_seconds now webhook_id timestamp_text signature_header none =
      (false, "invalid webhook timestamp")
  verify_at raw_body secret tolerance_seconds now webhook_id timestamp_text signature_header
        (some timestamp) =
      if ltb tolerance_seconds (distance now timestamp)
      then (false, "webhook timestamp outside tolerance")
      else (if signature_found secret (signed_payload webhook_id timestamp_text raw_body)
            signature_header
          then (true, "ok")
          else (false, "signature mismatch"))

  unfoldable pub verify_standard_webhook : Bytes → Headers → Text → ℕ → ℕ → Bool × String
  unfolding header int_of_text signature_found
  verify_standard_webhook raw_body headers secret tolerance_seconds now =
      let webhook_id = header (text "webhook-id") headers in
      let timestamp_text = header (text "webhook-timestamp") headers in
      let signature_header = header (text "webhook-signature") headers in
      if is_truthy webhook_id && is_truthy timestamp_text && is_truthy signature_header
      then verify_at raw_body secret tolerance_seconds now (or_empty webhook_id)
          (or_empty timestamp_text) (or_empty signature_header)
          (int_of_text (or_empty timestamp_text))
      else (false, "missing standard webhook signature headers")

-- none where `compare_digest` raises
unfoldable pub verify_bearer : Headers → Option Text → Option Bool
unfolding header strip starts_with same_text
verify_bearer headers expected_token =
    let authorization = or_empty (header (text "authorization") headers) in
    if not (is_truthy expected_token)
    then some false
    else (if starts_with authorization (text "Bearer ")
        then compare_texts (strip (drop 7 authorization)) (or_empty expected_token)
        else some false)
