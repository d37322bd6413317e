-- ===== src/Oauth/Delivery.antt =====
-- A login that was authorized delivers its token to the client that started it.
use autoedge_licensing_serve.Prelude.{
  ℕ, ◌*◌, ◌<◌, ◌≤◌, length, ◌≡◌, refl, sym, ◌∙◌, ap, true, false, Option, some, ◌∷◌, arith,
  update_where,
}
use autoedge_licensing_serve.Text.{strip, strip_left, Text, text, same_optional, ◌or_text◌}
use autoedge_licensing_serve.Time.{second, iso_optional, Datetime, parse_stamp}
use autoedge_licensing_serve.Text.Laws.{same_text_self}
use autoedge_licensing_serve.Database.{
  Platform, Database, audit, Customer, Device, OauthState, pending, authorized,
}
use autoedge_licensing_serve.License.Outcome.{LicenseStatus}
use autoedge_licensing_serve.License.Customers.{normalize_optional_text}
use autoedge_licensing_serve.License.Lease.{Signer}
use autoedge_licensing_serve.License.Check.{CheckRequest, check_license}
use autoedge_licensing_serve.Security.Tokens.RoundTrip.{decrypt-encrypt}
use autoedge_licensing_serve.Security.Primitives.{IsStandard, Primitives, Bytes}
use autoedge_licensing_serve.Security.Tokens.{encrypt_secret, decrypt_secret}
use autoedge_licensing_serve.Text.Laws.{same_text_self}
use autoedge_licensing_serve.Database.Unique.{found-passes, find-updated}
use autoedge_licensing_serve.Oauth.States.{
  Fields, field, oauth_state, has_state, expire_row_if_needed, is_pending, is_authorized, is_due,
  is_past, token_expires_at,
}
use autoedge_licensing_serve.Oauth.Start.{returned, trader_check}
use autoedge_licensing_serve.Oauth.Callback.{
  Drawn, authorize_tradovate_oauth, with_authorized, is_blank,
}
use autoedge_licensing_serve.Oauth.Context.{
  ContextAnswer, SessionDraw, oauth_session_id, claim_found, claim_or_refresh_context,
  complete_tradovate_oauth,
}
use autoedge_licensing_serve.Oauth.Steps.{check_license-states}

-- the answer that delivers a login's token
delivered : OauthState → Text → Text → ContextAnswer
delivered row access_token session_id = record {
  status = authorized;
  message = text "Tradovate OAuth authorized.";
  access_token = some access_token;
  oauth_session_id = some session_id;
  user_id = row.tradovate_user_id;
  environment = some row.environment;
  expires_at = row.token_expires_at;
  token_type = row.token_type or_text some (text "Bearer");
}

module _ (p : Platform) (prims : Primitives) (token_secret : Text) (draw : SessionDraw)
    (now : Datetime) (customer_id device_id : Text) where
  session_readable :
      (db : Database) (row : OauthState) {x : ℕ} {id : Text}
      → decrypt_secret prims token_secret row.oauth_session_encrypted ≡ some (some (x ∷ id))
      → oauth_session_id p prims token_secret draw db row ≡ some (db, x ∷ id)
  unfolding oauth_session_id
  session_readable db row e = rw e

  -- a login in good order is claimed
  claim_delivers :
      (db : Database) (row : OauthState) {c x : ℕ} {token id : Text}
      → is_due now row ≡ false
      → is_authorized row.status ≡ true
      → same_optional row.customer_id (some customer_id) ≡ true
      → same_optional row.device_id (some device_id) ≡ true
      → decrypt_secret prims token_secret row.access_token_encrypted ≡ some (some (c ∷ token))
      → decrypt_secret prims token_secret row.oauth_session_encrypted ≡ some (some (x ∷ id))
      → (claim_found p prims token_secret draw now customer_id device_id true false db (some row)).1
        ≡ returned (delivered row (c ∷ token) (x ∷ id))
  unfolding expire_row_if_needed delivered
  claim_delivers db row d a own own' token session =
      rw d (simp (own, own', a) (rw (token, session_readable db row session)))

module _ (p : Platform) (prims : Primitives) (from_iso : Text → Option Datetime)
    (token_secret : Text) (tokens me : Fields) (now : Datetime) (state : Text) (drawn : Drawn)
    (ip : Option Text) (db : Database) where
  -- the table of logins after an authorization
  authorized_states :
      {row : OauthState} {access_token : Text} {session access refresh : Option Text}
      → normalize_optional_text (field tokens (text "access_token")) ≡ some access_token
      → oauth_state db (p.sha256_hex state) ≡ some row
      → is_pending row.status ≡ true
      → is_due now row ≡ false
      → encrypt_secret prims token_secret drawn.session_nonce (some drawn.session_id) ≡ some session
      → encrypt_secret prims token_secret drawn.access_nonce (some access_token) ≡ some access
      → encrypt_secret prims token_secret drawn.refresh_nonce
          (normalize_optional_text (field tokens (text "refresh_token")))
        ≡ some refresh
      → (authorize_tradovate_oauth p prims from_iso token_secret tokens me now state drawn ip
          db).0.tradovate_oauth_states
        ≡ update_where
            (has_state (p.sha256_hex state))
            (with_authorized p prims from_iso token_secret tokens me now
              (p.sha256_hex drawn.session_id)
              session
              access
              refresh)
            db.tradovate_oauth_states
  unfolding authorize_tradovate_oauth expire_row_if_needed audit
  authorized_states given found is_open not_due session access refresh =
      rw (given, found, not_due) (simp is_open (rw (session, access, refresh)))

module _ (p : Platform) (signer : Option Signer) (prims : Primitives) (token_secret : Text)
    (draw : SessionDraw) (req : CheckRequest) where
  -- behind an active license check, on a login in good order
  complete_delivers :
      (state : Text) (db : Database) (row : OauthState) {customer : Customer} {device : Device}
      {c x : ℕ} {token id : Text}
      → is_blank state ≡ false
      → (check_license p signer (trader_check req) db).1.status ≡ LicenseStatus.active
      → (check_license p signer (trader_check req) db).1.customer ≡ some customer
      → (check_license p signer (trader_check req) db).1.device ≡ some device
      → oauth_state db (p.sha256_hex state) ≡ some row
      → is_due req.now row ≡ false
      → is_authorized row.status ≡ true
      → same_optional row.customer_id (some customer.id) ≡ true
      → same_optional row.device_id (some device.id) ≡ true
      → decrypt_secret prims token_secret row.access_token_encrypted ≡ some (some (c ∷ token))
      → decrypt_secret prims token_secret row.oauth_session_encrypted ≡ some (some (x ∷ id))
      → (answer : ContextAnswer) × ((complete_tradovate_oauth p signer prims token_secret draw req
            state db).1
          ≡ returned answer)
        × (answer.status ≡ authorized)
        × (answer.access_token ≡ some (c ∷ token))
        × (answer.oauth_session_id ≡ some (x ∷ id))
  unfolding complete_tradovate_oauth claim_or_refresh_context strip strip_left delivered
  complete_delivers state db row {customer} {device} {c} {x} {token} {id} visible active known seen
        found not_due is_open own own' access session =
      let db1 = (check_license p signer (trader_check req) db).0 in
      let same : db1.tradovate_oauth_states ≡ db.tradovate_oauth_states =
        check_license-states p signer (trader_check req) db in
      let found1 : oauth_state db1 (p.sha256_hex state) ≡ some row = rw same found in
      let claimed' =
        claim_delivers p prims token_secret draw req.now customer.id device.id db1 row not_due
          is_open own own' access session in
      (
        delivered row (c ∷ token) (x ∷ id),
        rw (active, known, seen, visible, found1) claimed',
        refl,
        refl,
        refl,
      )

optional_self : (a : Option Text) (s : Text) → a ≡ some s → same_optional a (some s) ≡ true
optional_self a s e = rw e (same_text_self s)

module _ (p : Platform) (signer : Option Signer) (prims : Primitives) (std : IsStandard prims)
    (from_iso : Text → Option Datetime) (token_secret : Text) where
  -- A pending login before its deadline, authorized with an access token, delivers that token: a
  -- later completion of the same state returns it, with the session id that was drawn, if its
  -- license check is active for the customer and the device that the login is bound to and the
  -- token's expiry, if it has one, is not past. The digests and codecs are standard, the nonces have
  -- 16 bytes, the access token and the session id are not empty and have at most 2 ** 37 bytes, the
  -- refresh token can be encrypted, and the state is not blank.
  pub complete-authorize :
      (tokens me : Fields) (now : Datetime) (state : Text) (x : ℕ) (id : Text)
      (session_nonce access_nonce refresh_nonce : Bytes) (ip : Option Text) (db : Database)
      (db1 : Database) (draw : SessionDraw) (req : CheckRequest) {row : OauthState} {c : ℕ}
      {token : Text} {refresh_encrypted : Option Text} {customer : Customer} {device : Device}
      → is_blank state ≡ false
      → normalize_optional_text (field tokens (text "access_token")) ≡ some (c ∷ token)
      → oauth_state db (p.sha256_hex state) ≡ some row
      → row.status ≡ pending
      → now < row.state_expires_at * second
      → length session_nonce ≡ 16
      → length access_nonce ≡ 16
      → length (prims.utf8_encode (x ∷ id)) ≤ 137438953472
      → length (prims.utf8_encode (c ∷ token)) ≤ 137438953472
      → encrypt_secret prims token_secret refresh_nonce
          (normalize_optional_text (field tokens (text "refresh_token")))
        ≡ some refresh_encrypted
      → (authorize_tradovate_oauth p prims from_iso token_secret tokens me now state
          (record {
            session_id = x ∷ id;
            session_nonce = session_nonce;
            access_nonce = access_nonce;
            refresh_nonce = refresh_nonce;
          })
          ip
          db).0
        ≡ db1
      → (check_license p signer (trader_check req) db1).1.status ≡ LicenseStatus.active
      → (check_license p signer (trader_check req) db1).1.customer ≡ some customer
      → (check_license p signer (trader_check req) db1).1.device ≡ some device
      → row.customer_id ≡ some customer.id
      → row.device_id ≡ some device.id
      → is_past (parse_stamp (iso_optional (token_expires_at from_iso tokens now))) req.now ≡ false
      → (answer : ContextAnswer) × ((complete_tradovate_oauth p signer prims token_secret draw req
            state db1).1
          ≡ returned answer)
        × (answer.status ≡ authorized)
        × (answer.access_token ≡ some (c ∷ token))
        × (answer.oauth_session_id ≡ some (x ∷ id))
  unfolding with_authorized
  complete-authorize tokens me now state x id session_nonce access_nonce refresh_nonce ip db db1
        draw req {row} {c} {token} {refresh_encrypted} visible given found is_open before_deadline n
        n' b b' refreshed stored active known seen own own' in_time =
      let drawn : Drawn = record {
        session_id = x ∷ id;
        session_nonce = session_nonce;
        access_nonce = access_nonce;
        refresh_nonce = refresh_nonce;
      } in
      let (s, sealed, opened) = decrypt-encrypt prims std token_secret session_nonce x id n b in
      let (a, sealed', opened') =
        decrypt-encrypt prims std token_secret access_nonce c token n' b' in
      let change =
        with_authorized p prims from_iso token_secret tokens me now (p.sha256_hex (x ∷ id)) (some s)
          (some a) refresh_encrypted in
      let pending' : is_pending row.status ≡ true = simp is_open in
      let not_due : is_due now row ≡ false = simp is_open (ground arith) in
      let rows =
        authorized_states p prims from_iso token_secret tokens me now state drawn ip db given found
          pending' not_due sealed sealed' refreshed in
      let found' =
        find-updated (has_state (p.sha256_hex state)) change db.tradovate_oauth_states found
          (found-passes (has_state (p.sha256_hex state)) db.tradovate_oauth_states found) in
      let rows' : db1.tradovate_oauth_states
          ≡ update_where (has_state (p.sha256_hex state)) change db.tradovate_oauth_states =
        ap (λ (d : Database). d.tradovate_oauth_states) (sym stored) ∙ rows in
      complete_delivers p signer prims token_secret draw req state db1 (change row) visible active
        known seen (rw rows' found') in_time refl (optional_self row.customer_id _ own)
        (optional_self row.device_id _ own') opened' opened
