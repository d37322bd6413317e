-- ===== src/License/Devices.antt =====
-- Devices and the device limit: `_upsert_device`, `_effective_max_devices`, `_active_device_count`,
-- `_device_is_within_active_limit`, `_device_limit_snapshot` and `_mark_device_licensed` of
-- autoedge_licensing/service.py.
pub mod Limit
use autoedge_licensing_serve.Prelude.{
  ℕ, ◌-◌, ◌+◌, String, Bool, true, false, not, ◌&&◌, ◌||◌, Option, none, some, List, [], ◌∷◌, ◌++◌,
  ◌or◌, get_or, is_some, ltb, leb, ◌==◌, max, if◌then◌else◌, find, filter_by, update_where, any,
  take, drop, length,
}
use autoedge_licensing_serve.Text.{Text, text, same_text, strip}
use autoedge_licensing_serve.Time.{Datetime, Stamp, iso}
use autoedge_licensing_serve.Sorting.{sort_by}
use autoedge_licensing_serve.Database.{
  Platform, Database, Customer, Device, fresh_id, count_id, audit, string, Details,
}
use autoedge_licensing_serve.License.Client.{ClientType, client_text}

unfoldable pub hash_fingerprint : Platform → Text → Text
unfolding strip
hash_fingerprint p value = p.sha256_hex (strip value)

-- `value[-8:]`
abbrev pub last8 : Text → Text
last8 value = drop (length value - 8) value

abbrev pub has_device_id : Text → Device → Bool
has_device_id id d = same_text d.id id

abbrev pub is_device_of : Text → Text → Device → Bool
is_device_of customer_id fingerprint_hash d =
    same_text d.customer_id customer_id && same_text d.fingerprint_hash fingerprint_hash

module _ (p : Platform) (customer_id machine_fingerprint : Text) (app_version : Option Text)
    (client_type : ClientType) (ip_address user_agent : Option Text) (now : Datetime) where
  abbrev pub new_device : Text → Device
  new_device id = record {
    id = id;
    customer_id = customer_id;
    fingerprint_hash = hash_fingerprint p machine_fingerprint;
    fingerprint_last8 = last8 (hash_fingerprint p machine_fingerprint);
    first_seen_at = iso now;
    last_seen_at = iso now;
    app_version = app_version;
    client_type = client_text client_type;
    ip_last = ip_address;
    user_agent_last = user_agent;
    is_blocked = false;
    note = none;
    first_licensed_at = none;
    last_licensed_at = none;
  }

  abbrev pub seen_device : Device → Device
  seen_device d = record d {
    last_seen_at = iso now;
    app_version = app_version or d.app_version;
    client_type = client_text client_type;
    ip_last = ip_address;
    user_agent_last = user_agent;
  }

  created_details : Details
  created_details =
      ("customer_id", string customer_id)
      ∷ ("fingerprint_last8", string (last8 (hash_fingerprint p machine_fingerprint)))
      ∷ ("client_type", string (client_text client_type))
      ∷ []

  -- The INSERT or UPDATE, and the row that is read back: the table's key makes it the one that
  -- was written.
  unfoldable pub write_device : Database → Option Device → Database × Device
  unfolding audit created_details
  write_device db none =
      let id = fresh_id p db in
      (
        audit p (record (count_id p db) { devices = db.devices ++ new_device id ∷ [] }) now "client"
            (some customer_id) "device.created" "device" id created_details ip_address,
        new_device id,
      )
  write_device db (some d) = (
    record db { devices = update_where (has_device_id d.id) seen_device db.devices },
    seen_device d,
  )

  abbrev pub known_device : Database → Option Device
  known_device db =
      find (is_device_of customer_id (hash_fingerprint p machine_fingerprint)) db.devices

  unfoldable pub upsert_device : Database → Database × Device
  unfolding write_device
  upsert_device db = write_device db (known_device db)

unfoldable pub effective_max_devices : Customer → ℕ → ℕ
effective_max_devices customer default_max_devices =
    max 1 (get_or customer.max_devices default_max_devices)

-- `customer_id = ? AND is_blocked = 0 AND first_licensed_at IS NOT NULL`
abbrev pub is_counted_for : Text → Device → Bool
is_counted_for customer_id d =
    same_text d.customer_id customer_id && not d.is_blocked && is_some d.first_licensed_at

unfoldable pub active_device_count : Database → Text → ℕ
active_device_count db customer_id = length (filter_by (is_counted_for customer_id) db.devices)

-- `ORDER BY first_licensed_at ASC, first_seen_at ASC, rowid ASC`
abbrev pub licensed_before : Device → Device → Bool
licensed_before d e =
    let s = get_or d.first_licensed_at 0 in
    let t = get_or e.first_licensed_at 0 in
    ltb s t || ((s == t) && ltb d.first_seen_at e.first_seen_at)

-- the devices that the limit lets in: the first of the counted ones
unfoldable pub devices_within : Database → Text → ℕ → List Device
devices_within db customer_id max_devices =
    take max_devices (sort_by licensed_before (filter_by (is_counted_for customer_id) db.devices))

unfoldable pub device_is_within_active_limit : Database → Text → Text → ℕ → Bool
unfolding devices_within
device_is_within_active_limit db customer_id device_id max_devices =
    any (has_device_id device_id) (devices_within db customer_id max_devices)

pub record DeviceLimit : Type 0 where
  pub active_devices : ℕ
  pub max_devices : ℕ
  pub device_is_counted : Bool
  pub device_is_within_limit : Bool

unfoldable pub device_limit_snapshot : Database → Customer → Device → ℕ → DeviceLimit
unfolding effective_max_devices active_device_count device_is_within_active_limit
device_limit_snapshot db customer device default_max_devices =
    let counted = is_some device.first_licensed_at && not device.is_blocked in
    let max_devices = effective_max_devices customer default_max_devices in
    record {
      active_devices = active_device_count db customer.id;
      max_devices = max_devices;
      device_is_counted = counted;
      device_is_within_limit =
          counted && device_is_within_active_limit db customer.id device.id max_devices;
    }

abbrev pub licensed_device : Datetime → Device → Device
licensed_device now d = record d {
  first_licensed_at = d.first_licensed_at or some (iso now);
  last_licensed_at = some (iso now);
}

-- `device` is the row that `upsert_device` returned.
unfoldable pub mark_device_licensed : Database → Device → Datetime → Database × Device
mark_device_licensed db device now = (
  record db { devices = update_where (has_device_id device.id) (licensed_device now) db.devices },
  licensed_device now device,
)
