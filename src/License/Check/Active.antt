-- ===== src/License/Check/Active.antt =====
-- The device limit over a license check.
use autoedge_licensing_serve.Prelude.{
  ℕ, ◌+◌, ◌≤◌, ◌≡◌, refl, Bool, true, false, ◌&&◌, not, Option, some, List, [], ◌∷◌, arith,
  Bool-cases, inl, inr, max, is_some, ◌⊎◌, if◌then◌else◌,
}
use autoedge_licensing_serve.Text.{Text, strip, is_truthy}
use autoedge_licensing_serve.Database.{Platform, Database, Customer, Device, fresh_id}
use autoedge_licensing_serve.License.Customers.{find_customer}
use autoedge_licensing_serve.License.Devices.{
  DeviceLimit, device_limit_snapshot, active_device_count, effective_max_devices,
  mark_device_licensed, upsert_device,
}
use autoedge_licensing_serve.License.Devices.Limit.{
  HasDeviceKey, IsNewDevice, Counts, upsert_count, upsert_key, upsert-Counts, mark_count,
  mark_count_counted,
}
use autoedge_licensing_serve.License.Grants.{Grant}
use autoedge_licensing_serve.License.States.{State}
use autoedge_licensing_serve.License.Lease.{Signer}
use autoedge_licensing_serve.License.Check.{
  CheckRequest, admit_device, check_grants, check_customer, check_device, check_license, states_of,
  client, record_check, device_over_limit, grants_of,
}

-- where the limit lets a device in, it counts already or there is room for one more
room-cases :
    (db : Database) (customer : Customer) (device : Device) (default_max : ℕ)
    → device_over_limit (device_limit_snapshot db customer device default_max) ≡ false
    → ((is_some device.first_licensed_at && not device.is_blocked) ≡ true)
      ⊎ (active_device_count db customer.id + 1 ≤ effective_max_devices customer default_max)
unfolding device_limit_snapshot
room-cases db customer device default_max h = ground arith

module _ (p : Platform) (signer : Option Signer) (req : CheckRequest) where
  -- the tables of devices after `admit_device`
  admitted_devices :
      (db : Database) (customer : Customer) (device : Device) (limit : DeviceLimit)
      (states : List State) (licensed : List Grant) (over : Bool)
      → device_over_limit limit ≡ over
      → (admit_device p signer req db customer device limit states licensed).0.devices
        ≡ (if over then db.devices else (mark_device_licensed db device req.now).0.devices)
  unfolding admit_device
  admitted_devices db customer device limit states licensed true h = rw h
  admitted_devices db customer device limit states licensed false h = rw h

  count_of_devices :
      (db db' : Database) (c : Text)
      → db.devices ≡ db'.devices
      → active_device_count db c ≡ active_device_count db' c
  unfolding active_device_count
  count_of_devices db db' c e = rw e

  admit_count :
      (db : Database) (customer : Customer) (device : Device) (states : List State)
      (licensed : List Grant)
      → HasDeviceKey db.devices
      → ((is_some device.first_licensed_at && not device.is_blocked) ≡ true
          → Counts customer.id device.id db.devices)
      → active_device_count
          (admit_device p signer req db customer device
            (device_limit_snapshot db customer device req.max_devices)
            states
            licensed).0
          customer.id
        ≤ max (active_device_count db customer.id) (effective_max_devices customer req.max_devices)
  admit_count db customer device states licensed key counts =
      let limit = device_limit_snapshot db customer device req.max_devices in
      let db' = (admit_device p signer req db customer device limit states licensed).0 in
      let marked = (mark_device_licensed db device req.now).0 in
      elim (Bool-cases (device_over_limit limit)) [
        | inl over ↦ omega (
          arith,
          count_of_devices db' db customer.id
              (admitted_devices db customer device limit states licensed true over),
        )
        | inr room ↦
            let same =
              count_of_devices db' marked customer.id
                (admitted_devices db customer device limit states licensed false room) in
            elim (room-cases db customer device req.max_devices room) [
              | inl counted ↦
                  omega
                    (arith, same, mark_count_counted db device req.now customer.id (counts counted))
              | inr less ↦ omega (arith, same, mark_count db device req.now customer.id key)
            ]
      ]

  grants_count :
      (db : Database) (customer : Customer) (device : Device) (grants licensed : List Grant)
      → HasDeviceKey db.devices
      → ((is_some device.first_licensed_at && not device.is_blocked) ≡ true
          → Counts customer.id device.id db.devices)
      → active_device_count
          (check_grants p signer req db customer device
            (device_limit_snapshot db customer device req.max_devices)
            grants
            licensed).0
          customer.id
        ≤ max (active_device_count db customer.id) (effective_max_devices customer req.max_devices)
  grants_count db customer device grants [] key counts = omega (
    arith,
    count_of_devices
        (check_grants p signer req db customer device
          (device_limit_snapshot db customer device req.max_devices) grants []).0
        db customer.id (unfold check_grants in refl),
  )
  grants_count db customer device grants (g ∷ licensed) key counts =
      unfold check_grants in
      admit_count db customer device (states_of p signer req db customer grants) (g ∷ licensed) key
        counts

  device_count :
      (db : Database) (customer : Customer) (device : Device)
      → HasDeviceKey db.devices
      → ((is_some device.first_licensed_at && not device.is_blocked) ≡ true
          → Counts customer.id device.id db.devices)
      → active_device_count (check_device p signer req db customer device).0 customer.id
        ≤ max (active_device_count db customer.id) (effective_max_devices customer req.max_devices)
  device_count db customer device key counts = elim (Bool-cases device.is_blocked) [
    | inl e ↦ omega (
      arith,
      count_of_devices (check_device p signer req db customer device).0 db customer.id
          (unfold check_device record_check in simp e refl),
    )
    | inr e ↦
        unfold check_device in
        simp e (grants_count db customer device (grants_of p signer req db customer) _ key counts)
  ]

  customer_count :
      (db : Database) (customer : Customer)
      → HasDeviceKey db.devices
      → IsNewDevice (fresh_id p db) db.devices
      → active_device_count (check_customer p signer req db customer).0 customer.id
        ≤ max (active_device_count db customer.id) (effective_max_devices customer req.max_devices)
  unfolding check_customer
  customer_count db customer key new =
      let (db1, device) =
        upsert_device p customer.id req.machine_fingerprint req.app_version (client p signer req)
          req.ip_address req.user_agent req.now db in
      let same =
        upsert_count p customer.id req.machine_fingerprint req.app_version (client p signer req)
          req.ip_address req.user_agent req.now db customer.id in
      let bound =
        device_count db1 customer device
          (upsert_key p customer.id req.machine_fingerprint req.app_version (client p signer req)
            req.ip_address req.user_agent req.now db key new)
          (upsert-Counts p customer.id req.machine_fingerprint req.app_version (client p signer req)
            req.ip_address req.user_agent req.now db key) in
      rw same at bound

  -- A license check of a customer that the identifiers find, in a database whose devices have
  -- distinct ids and for which the next identifier is new, leaves at most as many active devices
  -- as the larger of the number before and the customer's limit.
  pub check_license_count :
      (db : Database) (customer : Customer)
      → find_customer p db req.license_key req.email req.customer_id req.whop_user_id
        ≡ some customer
      → HasDeviceKey db.devices
      → IsNewDevice (fresh_id p db) db.devices
      → active_device_count (check_license p signer req db).0 customer.id
        ≤ max (active_device_count db customer.id) (effective_max_devices customer req.max_devices)
  unfolding check_license
  check_license_count db customer found key new =
      elim (Bool-cases (is_truthy (some (strip req.machine_fingerprint)))) [
        | inl e ↦ rw (e, found) (customer_count db customer key new)
        | inr e ↦ rw e (omega arith)
      ]
