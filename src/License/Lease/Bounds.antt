-- ===== src/License/Lease/Bounds.antt =====
-- How long a lease lasts.
use autoedge_licensing_serve.Prelude.{
  ℕ, ◌+◌, ◌/◌, ◌≤◌, ◌<◌, ◌≡◌, Option, none, some, List, [], ◌∷◌, arith, All, min, Option-cases, inl,
  inr,
}
use autoedge_licensing_serve.Text.{Text}
use autoedge_licensing_serve.Time.{Datetime, Stamp, second}
use autoedge_licensing_serve.Database.{Platform, Customer, Device}
use autoedge_licensing_serve.License.Grants.{Grant}
use autoedge_licensing_serve.License.Lease.{
  Signer, LeaseClaims, finite_expiries, earliest, lease_claims,
}

-- a lease's end is not after a grant's
abbrev pub NotAfter : ℕ → Option Stamp → Type 0
NotAfter exp none = Unit
NotAfter exp (some s) = exp ≤ s

NotAfter-mono : (a b : ℕ) (o : Option Stamp) → a ≤ b → NotAfter b o → NotAfter a o
NotAfter-mono a b none h n = tt
NotAfter-mono a b (some s) h n = omega arith

earliest-NotAfter :
    (deadline exp : ℕ) (grants : List Grant)
    → exp ≤ earliest deadline (finite_expiries grants)
    → (exp ≤ deadline) × All (λ g. NotAfter exp g.row.expires_at) grants
unfolding earliest finite_expiries
earliest-NotAfter deadline exp [] h = (h, tt)
earliest-NotAfter deadline exp (g ∷ grants) h = elim (Option-cases g.row.expires_at) [
  | inl e ↦
      let (d, rest) = earliest-NotAfter deadline exp grants (rw e at h) in (d, (rw e tt, rest))
  | inr (s, e) ↦
      let l : exp ≤ min s (earliest deadline (finite_expiries grants)) = rw e at h in
      let (d, rest) = earliest-NotAfter deadline exp grants (omega arith) in
      (d, (rw e (let m : exp ≤ s = omega arith in m), rest))
]

-- A lease that is issued begins at the current second, ends after it begins, lasts at most the
-- grace period, outlives no licensed grant, and is bound to the customer and the device.
pub lease_bounds :
    (p : Platform) (signer : Signer) (customer : Customer) (device : Device)
    (machine_fingerprint : Text) (grants : List Grant) (grace : ℕ) (now : Datetime)
    {claims : LeaseClaims}
    → lease_claims p signer customer device machine_fingerprint grants grace now ≡ some claims
    → (claims.iat ≡ now / second)
      × (claims.nbf ≡ claims.iat)
      × (claims.iat < claims.exp)
      × (claims.exp ≤ claims.iat + grace)
      × All (λ g. NotAfter claims.exp g.row.expires_at) grants
      × (claims.sub ≡ customer.id)
      × (claims.device_id ≡ device.id)
unfolding lease_claims
lease_bounds p signer customer device machine_fingerprint grants grace now {claims} h =
    let begin = now / second in
    let end = earliest (begin + grace) (finite_expiries grants) in
    let until : claims.exp ≡ end = ground arith in
    let (deadline, inside) = earliest-NotAfter (begin + grace) end grants (omega arith) in
    (
      ground arith,
      ground arith,
      ground arith,
      ground arith,
      rw until inside,
      ground arith,
      ground arith,
    )
