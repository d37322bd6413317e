-- ===== src/Admin.antt =====
-- What administrators do with entitlements, devices and limits: `manual_set_entitlement`,
-- `remove_entitlement`, `set_device_blocked`, `set_customer_max_devices`,
-- `block_all_customer_devices` and `set_customer_tags` of autoedge_licensing/service.py.
pub mod Blocking
pub mod Manual
use autoedge_licensing_serve.Prelude.{
  ℕ, ◌+◌, String, Bool, true, false, not, ◌&&◌, Option, none, some, List, [], ◌∷◌, ◌++◌, ◌or◌, ◌==◌,
  if◌then◌else◌, find, filter_by, update_where, length, is_some,
}
use autoedge_licensing_serve.Text.{
  Text, text, same_text, is_truthy, strip, or_empty, is_digit, all_digits, colon_joined,
}
use autoedge_licensing_serve.Time.{Datetime, Stamp, iso, iso_optional, seconds}
use autoedge_licensing_serve.Version.{decimal}
use autoedge_licensing_serve.Database.{
  Platform, Database, Customer, Product, Entitlement, Device, Source, manual, whop, fresh_id,
  count_id, audit, string, number, null, texts, Value, Details,
}
use autoedge_licensing_serve.Whop.Status.{
  Status, active, trialing, expired, revoked, suspended, pending, status_text,
}
use autoedge_licensing_serve.Whop.Direct.{is_whop}
use autoedge_licensing_serve.Tags.{Values, normalize_tag_list}

-- a value, or the message of a `ValueError`
pub data Result {ℓ} (A : Type ℓ) : Type ℓ where
  ok : A → Result A
  value_error : String → Result A

abbrev text_or_null : Option Text → Value
text_or_null none = null
text_or_null (some s) = string s

abbrev pub number_or_null : Option ℕ → Value
number_or_null none = null
number_or_null (some n) = number n

-- the statuses that the form may name
unfoldable pub status_of : Text → Option Status
status_of s =
    if same_text s (text "active")
    then some active
    else if same_text s (text "trialing")
    then some trialing
    else if same_text s (text "expired")
    then some expired
    else if same_text s (text "revoked")
    then some revoked
    else if same_text s (text "suspended")
    then some suspended
    else if same_text s (text "pending")
    then some pending
    else none

-- `parse_time` on a text; `from_iso` is `datetime.fromisoformat` with the step to UTC, and takes
-- a final Z itself
unfoldable pub parse_time : (Text → Option Datetime) → Option Text → Option Datetime
unfolding strip decimal
parse_time from_iso none = none
parse_time from_iso (some value) =
    let cleaned = strip value in
    if is_truthy (some cleaned)
    then if all_digits cleaned then some (seconds (decimal 0 cleaned)) else from_iso cleaned
    else none

abbrev pub has_id : Text → Entitlement → Bool
has_id id e = same_text e.id id

abbrev pub is_manual_row : Text → Entitlement → Bool
is_manual_row external_id e = not (is_whop e.source) && same_text e.external_id external_id

module _ (p : Platform) (actor_id : Text) (ip_address : Option Text) (now : Datetime) where
  module _ (customer_id product_id : Text) (reason : Option Text) where
    abbrev pub external_id : Text
    external_id = colon_joined (text "manual") (customer_id ∷ product_id ∷ [])

    abbrev pub revoked_at : Status → Option Stamp
    revoked_at s = elim s [ revoked ↦ some (iso now) | other ↦ none ]

    abbrev pub manual_row : Text → Status → Option Datetime → Entitlement
    manual_row id status expiry = record {
      id = id;
      customer_id = customer_id;
      product_id = product_id;
      subscription_id = none;
      package_id = none;
      external_id = external_id;
      source = manual;
      status = status;
      starts_at = some (iso now);
      expires_at = iso_optional expiry;
      revoked_at = revoked_at status;
      manual_reason = reason;
      whop_event_id = none;
      created_at = iso now;
      updated_at = iso now;
    }

    abbrev pub manual_update : Status → Option Datetime → Entitlement → Entitlement
    manual_update status expiry e = record e {
      status = status;
      expires_at = iso_optional expiry;
      revoked_at = revoked_at status;
      manual_reason = reason;
      updated_at = iso now;
    }

    manual_details : Status → Option Datetime → Details
    manual_details status expiry =
        ("customer_id", string customer_id)
        ∷ ("product_id", string product_id)
        ∷ ("status", string (status_text status))
        ∷ ("expires_at", (elim expiry [ none ↦ null | some t ↦ string (p.iso_text (iso t)) ]))
        ∷ []

    abbrev audit_manual : Database → String → Text → Status → Option Datetime → Database
    audit_manual db action id status expiry =
        audit p db now "admin" (some actor_id) action "entitlement" id
          (manual_details status expiry) ip_address

    -- the writes, with the id of the row
    unfoldable pub write_manual :
        Database → Option Entitlement → Status → Option Datetime → Database × Text
    unfolding audit manual_details
    write_manual db none status expiry = (
      audit_manual
          (record (count_id p db) {
            entitlements = db.entitlements ++ manual_row (fresh_id p db) status expiry ∷ [];
          })
          "entitlement.manual_created" (fresh_id p db) status expiry,
      fresh_id p db,
    )
    write_manual db (some e) status expiry = (
      audit_manual
          (record db {
            entitlements = update_where (has_id e.id) (manual_update status expiry) db.entitlements;
          })
          "entitlement.manual_updated" e.id status expiry,
      e.id,
    )

    -- `SELECT * FROM entitlements WHERE id = ?` at the end
    abbrev read_back : Database × Text → Database × Option Entitlement
    read_back (db, id) = (db, find (has_id id) db.entitlements)

    abbrev pub existing_manual : Database → Option Entitlement
    existing_manual db = find (is_manual_row external_id) db.entitlements

    unfoldable pub set_manual :
        Database → Status → Option Text → Option Datetime → Result (Database × Option Entitlement)
    unfolding write_manual
    set_manual db status expires_at expiry =
        if is_truthy expires_at && not (is_some expiry)
        then value_error "Invalid entitlement expiry date/time."
        else ok (read_back (write_manual db (existing_manual db) status expiry))

    unfoldable pub manual_set_entitlement :
        (Text → Option Datetime)
        → Text
        → Option Text
        → Database
        → Result (Database × Option Entitlement)
    unfolding status_of parse_time set_manual
    manual_set_entitlement from_iso status expires_at db = elim (status_of status) [
      | none ↦ value_error "Invalid entitlement status"
      | some s ↦ set_manual db s expires_at (parse_time from_iso expires_at)
    ]

  -- the row that is to go, if its product is there
  abbrev pub removable : Database → Text → Text → Option Entitlement
  removable db customer_id entitlement_id =
      find
        (λ e.
          same_text e.id entitlement_id
          && same_text e.customer_id customer_id
          && is_some (find (λ product. same_text product.id e.product_id) db.products))
        db.entitlements

  product_name_of : List Product → Text → Value
  product_name_of products id = elim (find (λ product. same_text product.id id) products) [
    | none ↦ null
    | some product ↦ string product.name
  ]

  removed_details : Database → Text → Entitlement → Details
  unfolding product_name_of
  removed_details db customer_id e =
      ("customer_id", string customer_id)
      ∷ ("product_id", string e.product_id)
      ∷ ("product_name", product_name_of db.products e.product_id)
      ∷ ("source", string (if is_whop e.source then text "whop" else text "manual"))
      ∷ ("status", string (status_text e.status))
      ∷ ("expires_at", (elim e.expires_at [ none ↦ null | some s ↦ string (p.iso_text s) ]))
      ∷ []

  unfoldable pub remove_entitlement : Text → Text → Database → Database × Bool
  unfolding removed_details audit
  remove_entitlement customer_id entitlement_id db =
      elim (removable db customer_id entitlement_id) [
        | none ↦ (db, false)
        | some e ↦ (
          audit p
              (record db {
                entitlements = filter_by (λ row. not (has_id entitlement_id row)) db.entitlements;
              })
              now "admin" (some actor_id) "entitlement.removed" "entitlement" entitlement_id
              (removed_details db customer_id e) ip_address,
          true,
        )
      ]

  -- the columns that a block writes: `is_blocked = ?, note = COALESCE(?, note)`
  abbrev pub with_block : Bool → Option Text → Device → Device
  with_block is_blocked note d = record d { is_blocked = is_blocked; note = note or d.note }

  unfoldable pub set_device_blocked : Text → Bool → Option Text → Database → Database
  unfolding audit
  set_device_blocked device_id is_blocked note db =
      audit p
        (record db {
          devices =
              update_where (λ d. same_text d.id device_id) (with_block is_blocked note) db.devices;
        })
        now "admin" (some actor_id) (if is_blocked then "device.blocked" else "device.unblocked")
        "device" device_id (("note", text_or_null note) ∷ []) ip_address

  abbrev pub has_customer : Database → Text → Bool
  has_customer db customer_id = is_some (find (λ c. same_text c.id customer_id) db.customers)

  abbrev pub update_customer : Text → (Customer → Customer) → Database → Database
  update_customer customer_id f db = record db {
    customers = update_where (λ c. same_text c.id customer_id) f db.customers;
  }

  -- a limit is not negative here
  unfoldable pub set_customer_max_devices : Text → Option ℕ → Database → Result Database
  unfolding audit
  set_customer_max_devices customer_id max_devices db =
      if elim max_devices [ none ↦ false | some n ↦ n == 0 ]
      then value_error "Max devices must be empty or at least 1."
      else if has_customer db customer_id
      then ok (
          audit p
            (update_customer customer_id
              (λ c. record c { max_devices = max_devices; updated_at = iso now }) db)
            now "admin" (some actor_id) "customer.max_devices_updated" "customer" customer_id
            (("max_devices", number_or_null max_devices) ∷ []) ip_address)
      else value_error "Customer not found."

  abbrev pub is_to_block : Text → Device → Bool
  is_to_block customer_id d = same_text d.customer_id customer_id && not d.is_blocked

  -- the count is the number of rows that the UPDATE meets
  unfoldable pub block_all_customer_devices : Text → Option Text → Database → Result (Database × ℕ)
  unfolding audit
  block_all_customer_devices customer_id note db =
      if has_customer db customer_id
      then (let blocked_count = length (filter_by (is_to_block customer_id) db.devices) in
          ok (
            audit p
                (record db {
                  devices =
                      update_where (is_to_block customer_id) (with_block true note) db.devices;
                })
                now "admin" (some actor_id) "customer.devices_blocked" "customer" customer_id
                (("blocked_count", number blocked_count) ∷ ("note", text_or_null note) ∷ [])
                ip_address,
            blocked_count,
          ))
      else value_error "Customer not found."

  unfoldable pub set_customer_tags : Text → Option Values → Database → Result (Database × List Text)
  unfolding audit normalize_tag_list
  set_customer_tags customer_id tags db =
      let normalized_tags = normalize_tag_list tags in
      if has_customer db customer_id
      then ok (
        audit p
            (update_customer customer_id
              (λ c. record c { tags = normalized_tags; updated_at = iso now }) db)
            now "admin" (some actor_id) "customer.tags_updated" "customer" customer_id
            (("tags", texts normalized_tags) ∷ []) ip_address,
        normalized_tags,
      )
      else value_error "Customer not found."
