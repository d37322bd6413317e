-- ===== src/License/Lease.antt =====
-- `_issue_trader_license_lease` of autoedge_licensing/service.py. Signing is a parameter: what is
-- modelled here is the payload.
pub mod Bounds
use autoedge_licensing_serve.Prelude.{
  ℕ, ◌+◌, ◌/◌, Bool, true, false, Option, none, some, List, [], ◌∷◌, map, min, leb, ◌==◌,
  if◌then◌else◌,
}
use autoedge_licensing_serve.Text.{Text}
use autoedge_licensing_serve.Time.{Datetime, Stamp, iso, second}
use autoedge_licensing_serve.Sorting.{sort_by, text_lt}
use autoedge_licensing_serve.Database.{Platform, Customer, Device}
use autoedge_licensing_serve.License.Devices.{hash_fingerprint}
use autoedge_licensing_serve.License.Grants.{Grant}

pub record FeatureClaim : Type 0 where
  pub id : Text
  pub exp : Option Stamp

-- the claims of the signed payload
pub record LeaseClaims : Type 0 where
  pub iss : Text
  pub aud : Text
  pub sub : Text
  pub device_id : Text
  pub device_fingerprint_sha256 : Text
  pub features : List FeatureClaim
  pub iat : ℕ
  pub nbf : ℕ
  pub exp : ℕ
  pub jti : Text

pub record Lease : Type 0 where
  pub token : Text
  pub key_id : Text
  pub issued_at : Stamp
  pub expires_at : Stamp

-- the signer of the service, and its issuer and audience
pub record Signer : Type 0 where
  pub key_id : Text
  pub sign : LeaseClaims → Text
  pub issuer : Text
  pub audience : Text
  pub random_jti : Datetime → Text

-- the grants' expiries that are known
unfoldable pub finite_expiries : List Grant → List Stamp
finite_expiries [] = []
finite_expiries (g ∷ grants) = elim g.row.expires_at [
  | none ↦ finite_expiries grants
  | some s ↦ s ∷ finite_expiries grants
]

-- `min(lease_deadline, min(finite_expiries))`
unfoldable pub earliest : ℕ → List Stamp → ℕ
earliest deadline [] = deadline
earliest deadline (s ∷ expiries) = min s (earliest deadline expiries)

abbrev pub feature_claims : List Grant → List FeatureClaim
feature_claims grants =
    sort_by (λ a b. text_lt a.id b.id)
      (map (λ g. record { id = g.product.feature_id; exp = g.row.expires_at }) grants)

-- The claims, or nothing when the lease would end before it begins. Times are whole seconds, since
-- `now` is truncated and stored expiries have no fraction.
unfoldable pub lease_claims :
    Platform → Signer → Customer → Device → Text → List Grant → ℕ → Datetime → Option LeaseClaims
unfolding finite_expiries earliest
lease_claims p signer customer device machine_fingerprint grants grace_period_seconds now =
    let issued_at = now / second in
    let expires_at = earliest (issued_at + grace_period_seconds) (finite_expiries grants) in
    if grace_period_seconds == 0
    then none
    else if leb expires_at issued_at
    then none
    else some (record {
      iss = signer.issuer;
      aud = signer.audience;
      sub = customer.id;
      device_id = device.id;
      device_fingerprint_sha256 = hash_fingerprint p machine_fingerprint;
      features = feature_claims grants;
      iat = issued_at;
      nbf = issued_at;
      exp = expires_at;
      jti = signer.random_jti now;
    })

abbrev signed : Signer → Option LeaseClaims → Option Lease
signed signer none = none
signed signer (some claims) = some (record {
  token = signer.sign claims;
  key_id = signer.key_id;
  issued_at = claims.iat;
  expires_at = claims.exp;
})

unfoldable pub issue_trader_license_lease :
    Platform → Option Signer → Customer → Device → Text → List Grant → ℕ → Datetime → Option Lease
unfolding lease_claims
issue_trader_license_lease p none customer device machine_fingerprint grants grace now = none
issue_trader_license_lease p (some signer) customer device machine_fingerprint grants grace now =
    signed signer (lease_claims p signer customer device machine_fingerprint grants grace now)
