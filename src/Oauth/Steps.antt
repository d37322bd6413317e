-- ===== src/Oauth/Steps.antt =====
-- What the single steps of the calls do to the table of logins.
pub mod Callbacks
pub mod Contexts
pub mod Licensed
use autoedge_licensing_serve.Prelude.{
  ℕ, ◌≡◌, ◌≢◌, refl, sym, ◌∙◌, ap, subst, Bool, true, false, not, ◌&&◌, ◌||◌, Option, none, some,
  List, [], ◌∷◌, ◌++◌, arith, All, All-weaken, find, filter_by, update_where, Bool-cases, inl, inr,
  leb, ltb, ◌-◌, is_some, if◌then◌else◌,
}
use autoedge_licensing_serve.Text.{Text, same_text, strip, is_truthy}
use autoedge_licensing_serve.Text.Laws.{eq_of_same_text}
use autoedge_licensing_serve.Time.{Datetime, Stamp, iso, days}
use autoedge_licensing_serve.Database.{
  Platform, Database, Customer, Device, OauthStatus, OauthState, pending, authorized, failed,
  expired,
}
use autoedge_licensing_serve.Database.Unique.{HasUnique, IsOnly, found-IsOnly}
use autoedge_licensing_serve.License.Devices.{
  DeviceLimit, device_limit_snapshot, upsert_device, write_device, mark_device_licensed,
}
use autoedge_licensing_serve.License.Customers.{find_customer}
use autoedge_licensing_serve.License.Grants.{Grant}
use autoedge_licensing_serve.License.States.{State}
use autoedge_licensing_serve.License.Lease.{Signer}
use autoedge_licensing_serve.License.Check.{
  CheckRequest, Response, admit_device, check_grants, check_device, check_customer, check_license,
  device_over_limit, states_of, grants_of, check_found, client,
}
use autoedge_licensing_serve.Oauth.States.{
  expire_row_if_needed, with_expired, is_due, is_pending, is_authorized, is_lapsed, is_old,
  cleanup_oauth_states, has_state,
}
use autoedge_licensing_serve.Oauth.Evolution.{
  Follows, Follows-refl, FollowAll, FollowAll-refl, FollowAll-update, Move, stay, grant, lapse, end,
  fail, IsStale, IsOpen,
}

-- the key of the table
abbrev pub HasStateKey : List OauthState → Type 0
HasStateKey = HasUnique (λ r. r.state_hash)

pub All-every :
    (P : OauthState → Type 0) (rows : List OauthState) → ((r : OauthState) → P r) → All P rows
All-every P [] f = tt
All-every P (r ∷ rows) f = (f r, All-every P rows f)

module _ (p : Platform) (signer : Option Signer) (req : CheckRequest) where
  admit-states :
      (db : Database) (customer : Customer) (device : Device) (limit : DeviceLimit)
      (states : List State) (licensed : List Grant)
      → (admit_device p signer req db customer device limit states
          licensed).0.tradovate_oauth_states
        ≡ db.tradovate_oauth_states
  unfolding admit_device
  admit-states db customer device limit states licensed =
      elim (Bool-cases (device_over_limit limit)) [ inl e ↦ rw e | inr e ↦ rw e ]

  grants-states :
      (db : Database) (customer : Customer) (device : Device) (limit : DeviceLimit)
      (grants licensed : List Grant)
      → (check_grants p signer req db customer device limit grants
          licensed).0.tradovate_oauth_states
        ≡ db.tradovate_oauth_states
  unfolding check_grants
  grants-states db customer device limit grants [] = refl
  grants-states db customer device limit grants (g ∷ licensed) =
      admit-states db customer device limit (states_of p signer req db customer grants)
        (g ∷ licensed)

  device-states :
      (db : Database) (customer : Customer) (device : Device)
      → (check_device p signer req db customer device).0.tradovate_oauth_states
        ≡ db.tradovate_oauth_states
  unfolding check_device
  device-states db customer device = elim (Bool-cases device.is_blocked) [
    | inl e ↦ simp e
    | inr e ↦ simp e (
        grants-states db customer device (device_limit_snapshot db customer device req.max_devices)
          (grants_of p signer req db customer)
          (filter_by (λ g. g.is_licensed) (grants_of p signer req db customer)))
  ]

  written-states :
      (customer : Customer) (db : Database) (o : Option Device)
      → (write_device p customer.id req.machine_fingerprint req.app_version
          (client p signer req)
          req.ip_address
          req.user_agent
          req.now
          db
          o).0.tradovate_oauth_states
        ≡ db.tradovate_oauth_states
  unfolding write_device
  written-states customer db none = refl
  written-states customer db (some d) = refl

  -- A license check leaves the logins as they are.
  pub check_license-states :
      (db : Database)
      → (check_license p signer req db).0.tradovate_oauth_states ≡ db.tradovate_oauth_states
  unfolding check_license check_customer upsert_device
  check_license-states db = elim (Bool-cases (is_truthy (some (strip req.machine_fingerprint)))) [
    | inl given ↦
        rw given
          (found (find_customer p db req.license_key req.email req.customer_id req.whop_user_id))
    | inr blank ↦ rw blank
  ]
    where
      found :
          (o : Option Customer)
          → (check_found p signer req db o).0.tradovate_oauth_states ≡ db.tradovate_oauth_states
      found none = refl
      found (some customer) = device-states _ customer _ ∙ written-states customer db _

Move-expired : (s : OauthStatus) → is_pending s || is_authorized s ≡ true → Move s expired
Move-expired pending h = lapse
Move-expired authorized h = end
Move-expired failed h = cc
Move-expired expired h = cc

pub expired-Follows :
    (now : Datetime) (r : OauthState)
    → is_pending r.status || is_authorized r.status ≡ true
    → Follows r (with_expired now r)
expired-Follows now r h = record {
  same_key = refl;
  same_customer = refl;
  same_device = refl;
  same_environment = refl;
  same_deadline = refl;
  move = Move-expired r.status h;
  token = inl refl;
}

pub due_open :
    (now : Datetime) (r : OauthState)
    → is_due now r ≡ true
    → is_pending r.status || is_authorized r.status ≡ true
due_open now r h = ground arith

-- An UPDATE of the found row's key, to a row that follows it.
pub update-FollowAll :
    (test : OauthState → Bool) (f : OauthState → OauthState) (rows : List OauthState)
    {row : OauthState}
    → HasStateKey rows
    → find test rows ≡ some row
    → Follows row (f row)
    → FollowAll rows (update_where (has_state row.state_hash) f rows)
update-FollowAll test f rows {row} key found step =
    FollowAll-update (has_state row.state_hash) f rows (
      All-weaken (λ r. has_state row.state_hash r ≡ true → r ≡ row) _ rows
        (λ r only here. subst (λ x. Follows x (f x)) (sym (only here)) step)
        (found-IsOnly (λ r. r.state_hash) test rows key found))

pub expire-FollowAll :
    (now : Datetime) (test : OauthState → Bool) (db : Database) {row : OauthState}
    → HasStateKey db.tradovate_oauth_states
    → find test db.tradovate_oauth_states ≡ some row
    → FollowAll db.tradovate_oauth_states (expire_row_if_needed now db row).0.tradovate_oauth_states
unfolding expire_row_if_needed
expire-FollowAll now test db {row} key found = elim (Bool-cases (is_due now row)) [
  | inl due ↦ rw due (
      update-FollowAll test (with_expired now) db.tradovate_oauth_states key found
        (expired-Follows now row (due_open now row due)))
  | inr not_due ↦ rw not_due (FollowAll-refl db.tradovate_oauth_states)
]

-- an authorized login has not lapsed, and is not deleted
not_authorized : (s : OauthStatus) → not (is_authorized s) ≡ true → s ≢ authorized
not_authorized pending h e = cc
not_authorized authorized h e = cc
not_authorized failed h e = cc
not_authorized expired h e = cc

pending_closed : (s : OauthStatus) → is_pending s ≡ true → not (is_authorized s) ≡ true
pending_closed pending h = refl
pending_closed authorized h = cc
pending_closed failed h = cc
pending_closed expired h = cc

pub lapsed-Follows :
    (now : Datetime) (r : OauthState) → is_lapsed now r ≡ true → Follows r (with_expired now r)
lapsed-Follows now r lapsed = expired-Follows now r (ground arith)

pub old-IsStale :
    (now : Datetime) (r : OauthState)
    → not (is_old now (if is_lapsed now r then with_expired now r else r)) ≡ false
    → IsStale (iso (now - days 7)) r
old-IsStale now r h = elim (Bool-cases (is_lapsed now r)) [
  | inl lapsed ↦
      let h' = rw lapsed at h in
      (not_authorized r.status (pending_closed r.status (ground arith)), ground arith)
  | inr waits ↦ let h' = rw waits at h in (not_authorized r.status (ground arith), ground arith)
]

-- an UPDATE that keeps the status and the token
pub every-FollowAll :
    (test : OauthState → Bool) (f : OauthState → OauthState) (rows : List OauthState)
    → ((r : OauthState) → Follows r (f r))
    → FollowAll rows (update_where test f rows)
every-FollowAll test f rows step =
    FollowAll-update test f rows (All-every _ rows (λ r here. step r))

pub pending_moves : (s : OauthStatus) → is_pending s ≡ true → Move s authorized × IsOpen s
pending_moves pending h = (grant, tt)
pending_moves authorized h = cc
pending_moves failed h = cc
pending_moves expired h = cc

pub authorized-IsOpen : (s : OauthStatus) → is_authorized s ≡ true → IsOpen s
authorized-IsOpen authorized h = tt
authorized-IsOpen pending h = cc
authorized-IsOpen failed h = cc
authorized-IsOpen expired h = cc
