-- ===== src/Security/Webhook/Genuine.antt =====
-- Which webhooks `verify_standard_webhook` accepts.
use autoedge_licensing_serve.Prelude.{
  ℕ, ◌≡◌, ◌≢◌, ◌↔◌, ◌≤◌, refl, String, Bool, true, false, ◌&&◌, Option, none, some, [], ◌∷◌, ◌++◌,
  any, arith, if◌then◌else◌, subst,
}
use autoedge_licensing_serve.Text.{Text, text, same_text, strip, split, is_truthy}
use autoedge_licensing_serve.Text.Laws.{eq_of_same_text, same_text_self}
use autoedge_licensing_serve.Security.Primitives.{Primitives, Bytes}
use autoedge_licensing_serve.Security.Webhook.Verify.{
  Headers, Integer, header, int_of_text, distance, split_first, candidate_webhook_keys,
  signature_matches, signatures, signed_payload, signature_found, verify_standard_webhook,
  parts_match, equals_digest, verify_at,
}
use autoedge_licensing_serve.Security.Webhook.Searches.{
  OneOf, any-OneOf, OneOf-filter, truthy-nonempty, nonempty-truthy, strip-truthy, split_first-parts,
}

-- The three headers, a timestamp near the clock, and a signature "v1,…" among those listed that is
-- the digest of the payload under one of the secret's keys.
pub record IsGenuine (p : Primitives) (raw_body : Bytes) (headers : Headers) (secret : Text)
    (tolerance now : ℕ) : Type 0 where
  pub webhook_id : Text
  pub timestamp_text : Text
  pub signature_header : Text
  pub timestamp : Integer
  pub key : Bytes
  pub encoded : Text
  pub id_given : header (text "webhook-id") headers ≡ some webhook_id
  pub id_nonempty : webhook_id ≢ []
  pub timestamp_given : header (text "webhook-timestamp") headers ≡ some timestamp_text
  pub timestamp_nonempty : timestamp_text ≢ []
  pub signature_given : header (text "webhook-signature") headers ≡ some signature_header
  pub signature_nonempty : signature_header ≢ []
  pub timestamp_read : int_of_text timestamp_text ≡ some timestamp
  pub in_time : distance now timestamp ≤ tolerance
  pub candidate : OneOf key (candidate_webhook_keys p secret)
  pub listed : OneOf (text "v1," ++ encoded) (split b' ' signature_header)
  pub right :
      p.b64decode_validate encoded
      ≡ some (p.hmac_sha256 key (signed_payload p webhook_id timestamp_text raw_body))

passed :
    (b : Bool) (verdict : Bool × String) (reason : String)
    → (if b then verdict else (false, reason)) ≡ (true, "ok")
    → b ≡ true
passed true verdict reason h = refl
passed false verdict reason h = cc

and_parts : (a b c : Bool) → a && b && c ≡ true → (a ≡ true) × (b ≡ true) × (c ≡ true)
and_parts a b c h = ground arith

module _ (p : Primitives) where
  equals-eq :
      (expected : Bytes) (o : Option Bytes) → equals_digest p expected o ≡ true → o ≡ some expected
  equals-eq expected none h = cc
  equals-eq expected (some actual) h = cc (eq_of_same_text expected actual h)

  matches_iff :
      (expected : Bytes) (part : Text)
      → (signature_matches p expected part ≡ true) ↔ (
          (encoded : Text) × (part ≡ text "v1," ++ encoded)
          × (p.b64decode_validate encoded ≡ some expected))
  unfolding signature_matches split_first
  matches_iff expected part = (
    (λ h. opened (split_first b',' part) refl h),
    λ (encoded, e, d). rw (e, d) (same_text_self expected),
  )
    where
      opened :
          (o : Option (Text × Text))
          → split_first b',' part ≡ o
          → parts_match p expected o ≡ true
          → (encoded : Text) × (part ≡ text "v1," ++ encoded)
            × (p.b64decode_validate encoded ≡ some expected)
      opened none e h = cc
      opened (some (version, encoded)) e h =
          let named : same_text version (text "v1") ≡ true = ground arith in
          let hit : equals_digest p expected (p.b64decode_validate encoded) ≡ true = ground arith in
          let parts = split_first-parts b',' part e in
          let version' = eq_of_same_text version (text "v1") named in
          (encoded, rw version' at parts, equals-eq expected _ hit)

  abbrev Found : Text → Bytes → Text → Type 0
  Found secret payload signature_header =
      (key : Bytes) × (encoded : Text) × OneOf key (candidate_webhook_keys p secret)
      × OneOf (text "v1," ++ encoded) (split b' ' signature_header)
      × (p.b64decode_validate encoded ≡ some (p.hmac_sha256 key payload))

  signature_found_iff :
      (secret : Text) (payload : Bytes) (signature_header : Text)
      → (signature_found p secret payload signature_header ≡ true)
        ↔ Found secret payload signature_header
  unfolding signature_found
  signature_found_iff secret payload signature_header =
      let keys = candidate_webhook_keys p secret in
      let parts = split b' ' signature_header in
      let visible = λ (part : Text). is_truthy (some (strip part)) in
      let matching = λ (key : Bytes). signature_matches p (p.hmac_sha256 key payload) in
      let per_key = λ (key : Bytes). any (matching key) (signatures p signature_header) in
      (
        (λ h.
            let (key, candidate, found) = (any-OneOf per_key keys).0 h in
            let (part, listed, hit) =
              (any-OneOf (matching key) (signatures p signature_header)).0 found in
            let (encoded, e, d) = (matches_iff (p.hmac_sha256 key payload) part).0 hit in
            let listed' = ((OneOf-filter visible part parts).0 listed).0 in
            (key, encoded, candidate, subst (λ (x : Text). OneOf x parts) e listed', d)),
        λ (key, encoded, candidate, listed, d).
            let part = text "v1," ++ encoded in
            (any-OneOf per_key keys).1 (
              key,
              candidate,
              (any-OneOf (matching key) (signatures p signature_header)).1 (
                part,
                (OneOf-filter visible part parts).1
                    (listed, strip-truthy b'v' (b'1' ∷ b',' ∷ encoded) refl),
                (matches_iff (p.hmac_sha256 key payload) part).1 (encoded, refl, d),
              ),
            ),
      )

  -- the part behind the reading of the headers
  verify_at_iff :
      (raw_body : Bytes) (secret : Text) (tolerance now : ℕ)
      (webhook_id timestamp_text signature_header : Text) (o : Option Integer)
      → (verify_at p raw_body secret tolerance now webhook_id timestamp_text signature_header o
          ≡ (true, "ok"))
        ↔ ((timestamp : Integer) × (o ≡ some timestamp)
            × (distance now timestamp ≤ tolerance)
            × Found secret (signed_payload p webhook_id timestamp_text raw_body) signature_header)
  verify_at_iff raw_body secret tolerance now i t s none = ((λ h. cc), λ (timestamp, e, d, f). cc)
  verify_at_iff raw_body secret tolerance now i t s (some timestamp) =
      let found = signature_found_iff secret (signed_payload p i t raw_body) s in
      (
        (λ h. (timestamp, refl, ground arith, found.0 (ground arith))),
        λ (timestamp', e, d, f).
            let accepted = found.1 f in let same : timestamp ≡ timestamp' = cc in ground arith,
      )

  -- `verify_standard_webhook` accepts exactly the genuine webhooks: those with a webhook id, a
  -- timestamp and a signature header, none of them empty, whose timestamp is a number within the
  -- tolerance of the clock, on either side, and whose signatures, parted by spaces, have one of
  -- version v1 that decodes to the digest of "id.timestamp.body" under one of the keys of the
  -- secret.
  pub verify_standard_webhook_iff :
      (raw_body : Bytes) (headers : Headers) (secret : Text) (tolerance now : ℕ)
      → (verify_standard_webhook p raw_body headers secret tolerance now ≡ (true, "ok"))
        ↔ IsGenuine p raw_body headers secret tolerance now
  unfolding verify_standard_webhook
  verify_standard_webhook_iff raw_body headers secret tolerance now =
      let webhook_id = header (text "webhook-id") headers in
      let timestamp_text = header (text "webhook-timestamp") headers in
      let signature_header = header (text "webhook-signature") headers in
      (
        (λ h.
            let given : is_truthy webhook_id
                  && is_truthy timestamp_text
                  && is_truthy signature_header
                ≡ true =
              passed _ _ _ h in
            let (given_id, given_timestamp, given_signature) = and_parts _ _ _ given in
            let (i, ie, i') = truthy-nonempty webhook_id given_id in
            let (t, te, t') = truthy-nonempty timestamp_text given_timestamp in
            let (s, se, s') = truthy-nonempty signature_header given_signature in
            let reached =
              rw (ie, te, se, nonempty-truthy i i', nonempty-truthy t t', nonempty-truthy s s') at
                h in
            let (timestamp, read, near, (key, encoded, candidate, listed, right)) =
              (verify_at_iff raw_body secret tolerance now i t s (int_of_text t)).0 reached in
            record {
              webhook_id = i;
              timestamp_text = t;
              signature_header = s;
              timestamp = timestamp;
              key = key;
              encoded = encoded;
              id_given = ie;
              id_nonempty = i';
              timestamp_given = te;
              timestamp_nonempty = t';
              signature_given = se;
              signature_nonempty = s';
              timestamp_read = read;
              in_time = near;
              candidate = candidate;
              listed = listed;
              right = right;
            }),
        λ g.
            rw
              (
                g.id_given,
                g.timestamp_given,
                g.signature_given,
                nonempty-truthy g.webhook_id g.id_nonempty,
                nonempty-truthy g.timestamp_text g.timestamp_nonempty,
                nonempty-truthy g.signature_header g.signature_nonempty,
              )
              ((verify_at_iff raw_body secret tolerance now g.webhook_id g.timestamp_text
                  g.signature_header (int_of_text g.timestamp_text)).1
                (
                  g.timestamp,
                  g.timestamp_read,
                  g.in_time,
                  (g.key, g.encoded, g.candidate, g.listed, g.right),
                )),
      )
