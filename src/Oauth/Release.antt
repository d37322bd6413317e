-- ===== src/Oauth/Release.antt =====
-- To whom an access token is given.
use autoedge_licensing_serve.Prelude.{
  ◌≡◌, refl, ◌∙◌, ap, subst, Bool, true, false, not, ◌||◌, Option, none, some, List, arith, find,
  Bool-cases, inl, inr,
}
use autoedge_licensing_serve.Text.{strip, strip_left, Text, is_truthy, same_optional}
use autoedge_licensing_serve.Time.{Datetime, parse_stamp}
use autoedge_licensing_serve.Text.Laws.{eq_of_same_text}
use autoedge_licensing_serve.Database.{
  Platform, Database, Customer, Device, OauthStatus, OauthState, pending, authorized, failed,
  expired,
}
use autoedge_licensing_serve.License.Outcome.{LicenseStatus}
use autoedge_licensing_serve.License.Lease.{Signer}
use autoedge_licensing_serve.License.Check.{CheckRequest, Response, check_license}
use autoedge_licensing_serve.Security.Primitives.{Primitives}
use autoedge_licensing_serve.Security.Tokens.{decrypt_secret}
use autoedge_licensing_serve.Text.Laws.{eq_of_same_text}
use autoedge_licensing_serve.Oauth.States.{
  oauth_state, has_state, update_state, expire_row_if_needed, is_authorized, is_due, is_past,
  with_expired,
}
use autoedge_licensing_serve.Oauth.Start.{Attempt, returned, raised, trader_check}
use autoedge_licensing_serve.Oauth.Callback.{is_blank}
use autoedge_licensing_serve.Oauth.Context.{
  ContextAnswer, SessionDraw, granted, token_read, claim_row, claim_found, claim_or_refresh_context,
  if_active, for_licensed, complete_with, complete_tradovate_oauth,
}
use autoedge_licensing_serve.Oauth.Steps.{check_license-states}

-- A login may give the token `t` to the customer's device: it is theirs, authorized, not past its
-- token's expiry, and `t` is what it stores, decrypted.
pub record MayRelease (prims : Primitives) (token_secret : Text) (now : Datetime)
    (customer_id device_id t : Text) (row : OauthState) : Type 0 where
  pub own_customer : row.customer_id ≡ some customer_id
  pub own_device : row.device_id ≡ some device_id
  pub is_open : row.status ≡ authorized
  pub in_time : is_past (parse_stamp row.token_expires_at) now ≡ false
  pub stored : decrypt_secret prims token_secret row.access_token_encrypted ≡ some (some t)

optional-eq : (a : Option Text) (s : Text) → same_optional a (some s) ≡ true → a ≡ some s
optional-eq none s h = cc
optional-eq (some a) s h = cc (eq_of_same_text a s h)

authorized-eq : (s : OauthStatus) → is_authorized s ≡ true → s ≡ authorized
authorized-eq authorized h = refl
authorized-eq pending h = cc
authorized-eq failed h = cc
authorized-eq expired h = cc

abbrev token_of : Attempt ContextAnswer → Option Text
token_of (raised e) = none
token_of (returned a) = a.access_token

module _ (p : Platform) (prims : Primitives) (token_secret : Text) (draw : SessionDraw)
    (now : Datetime) (customer_id device_id : Text) (mark_claimed : Bool) (before : Database) where
  granted-token :
      (row : OauthState) (access_token : Option Text) (o : Option (Database × Text)) {t : Text}
      → token_of
          (granted p prims token_secret draw now customer_id device_id mark_claimed before row
            access_token o).1
        ≡ some t
      → access_token ≡ some t
  granted-token row access_token none h = cc
  granted-token row access_token (some (db, id)) h = elim (Bool-cases (is_truthy access_token)) [
    | inl given ↦ rw given at h
    | inr missing ↦ let h' = rw missing at h in cc
  ]

  read-token :
      (db : Database) (row : OauthState) (o : Option (Option Text)) {t : Text}
      → token_of
          (token_read p prims token_secret draw now customer_id device_id mark_claimed before db row
            o).1
        ≡ some t
      → o ≡ some (some t)
  read-token db row none h = cc
  read-token db row (some access_token) h = ap some (granted-token row access_token _ h)

  row-MayRelease :
      (db : Database) (row : OauthState) {t : Text}
      → (is_authorized row.status ≡ true → is_past (parse_stamp row.token_expires_at) now ≡ false)
      → token_of
          (claim_row p prims token_secret draw now customer_id device_id mark_claimed before
            (db, row)).1
        ≡ some t
      → MayRelease prims token_secret now customer_id device_id t row
  row-MayRelease db row fresh h =
      elim (Bool-cases (
        not (same_optional row.customer_id (some customer_id))
        || not (same_optional row.device_id (some device_id)))) [
          | inl other ↦ let h' = rw other at h in cc
          | inr own ↦ elim (Bool-cases (is_authorized row.status)) [
            | inl open' ↦
                let read = simp open' at (rw own at h) in
                record {
                  own_customer = optional-eq row.customer_id customer_id (ground arith);
                  own_device = optional-eq row.device_id device_id (ground arith);
                  is_open = authorized-eq row.status open';
                  in_time = fresh open';
                  stored = read-token db row _ read;
                }
            | inr shut ↦ let h' = simp shut at (rw own at h) in cc
          ]
        ]

  found-MayRelease :
      (by_session : Bool) (o : Option OauthState) {t : Text}
      → token_of
          (claim_found p prims token_secret draw now customer_id device_id mark_claimed by_session
            before o).1
        ≡ some t
      → (row : OauthState) × (o ≡ some row)
        × MayRelease prims token_secret now customer_id device_id t row
  unfolding expire_row_if_needed
  found-MayRelease by_session none h = cc
  found-MayRelease by_session (some row) h = elim (Bool-cases (is_due now row)) [
    | inl due ↦
        let h' = rw (expire-due due) at h in
        let released = row-MayRelease _ (with_expired now row) (λ e. cc) h' in
        let shut : OauthStatus.expired ≡ authorized = released.is_open in cc
    | inr not_due ↦
        let h' = rw (expire-kept not_due) at h in
        (row, refl, row-MayRelease before row (λ e. ground arith) h')
  ]
    where
      expire-due :
          is_due now row ≡ true
          → expire_row_if_needed now before row
            ≡ (update_state row.state_hash (with_expired now) before, with_expired now row)
      expire-due due = rw due

      expire-kept : is_due now row ≡ false → expire_row_if_needed now before row ≡ (before, row)
      expire-kept not_due = rw not_due

module _ (p : Platform) (signer : Option Signer) (prims : Primitives) (token_secret : Text)
    (draw : SessionDraw) (req : CheckRequest) where
  active-token :
      (status : LicenseStatus) (db : Database) (response : Response)
      (continue : Database → Text → Text → Database × Attempt ContextAnswer) {t : Text}
      → token_of (if_active p signer prims token_secret draw req status (db, response) continue).1
        ≡ some t
      → (customer : Customer) × (device : Device) × (status ≡ LicenseStatus.active)
        × (response.customer ≡ some customer)
        × (response.device ≡ some device)
        × (token_of (continue db customer.id device.id).1 ≡ some t)
  active-token LicenseStatus.active db response continue {t} h =
      both response.customer response.device h
    where
      both :
          (c : Option Customer) (d : Option Device)
          → token_of (for_licensed p signer prims token_secret draw req c d db (continue db)).1
            ≡ some t
          → (customer : Customer) × (device : Device) × (LicenseStatus.active
              ≡ LicenseStatus.active)
            × (c ≡ some customer)
            × (d ≡ some device)
            × (token_of (continue db customer.id device.id).1 ≡ some t)
      both none d h = cc
      both (some c) none h = cc
      both (some c) (some d) h = (c, d, refl, refl, refl, h)
  active-token LicenseStatus.invalid_request db response continue h = cc
  active-token LicenseStatus.unknown_customer db response continue h = cc
  active-token LicenseStatus.device_blocked db response continue h = cc
  active-token LicenseStatus.device_limit_exceeded db response continue h = cc
  active-token LicenseStatus.revoked db response continue h = cc
  active-token LicenseStatus.suspended db response continue h = cc
  active-token LicenseStatus.expired db response continue h = cc
  active-token LicenseStatus.unlicensed db response continue h = cc

  claimed-token :
      (state : Text) (db : Database) (c d : Text) {t : Text}
      → token_of (complete_with p signer prims token_secret draw req state db c d).1 ≡ some t
      → (row : OauthState) × (oauth_state db (p.sha256_hex state) ≡ some row)
        × MayRelease prims token_secret req.now c d t row
  unfolding claim_or_refresh_context strip strip_left
  claimed-token state db c d h = elim (Bool-cases (is_blank state)) [
    | inl missing ↦ let h' = rw missing at h in cc
    | inr given ↦
        found-MayRelease p prims token_secret draw req.now c d true db false
          (oauth_state db (p.sha256_hex state)) (rw given at h)
  ]

  -- `complete_tradovate_oauth` gives an access token only if the license check that it makes is
  -- active, for a customer and a device, and the login of the given state is authorized, not past
  -- its token's expiry and bound to that customer and that device; and the token is the one that
  -- the login stores.
  pub complete_token_bound :
      (state : Text) (db : Database) {answer : ContextAnswer} {t : Text}
      → (complete_tradovate_oauth p signer prims token_secret draw req state db).1 ≡ returned answer
      → answer.access_token ≡ some t
      → (customer : Customer) × (device : Device) × (row : OauthState) × ((check_license p signer
            (trader_check req)
            db).1.status
          ≡ LicenseStatus.active)
        × ((check_license p signer (trader_check req) db).1.customer ≡ some customer)
        × ((check_license p signer (trader_check req) db).1.device ≡ some device)
        × (oauth_state db (p.sha256_hex state) ≡ some row)
        × MayRelease prims token_secret req.now customer.id device.id t row
  unfolding complete_tradovate_oauth
  complete_token_bound state db {answer} {t} h e =
      let (db1, response) = check_license p signer (trader_check req) db in
      let (customer, device, active, c, d, given) =
        active-token response.status db1 response
          (complete_with p signer prims token_secret draw req state) (ap token_of h ∙ e) in
      let found = claimed-token state db1 customer.id device.id given in
      let same : db1.tradovate_oauth_states ≡ db.tradovate_oauth_states =
        check_license-states p signer (trader_check req) db in
      (
        customer,
        device,
        found.0,
        active,
        c,
        d,
        subst
            (λ (rows : List OauthState). find (has_state (p.sha256_hex state)) rows ≡ some found.0)
            same found.1,
        found.2,
      )
