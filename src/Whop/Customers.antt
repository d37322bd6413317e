-- ===== src/Whop/Customers.antt =====
-- `create_or_update_customer` of autoedge_licensing/service.py and `generate_license_key` of
-- autoedge_licensing/security.py. The SELECT takes the first row that an identifier fits; a write
-- that would give two customers one email, Whop id or license key raises IntegrityError (the
-- table's UNIQUE columns).
use autoedge_licensing_serve.Prelude.{
  ◌-◌, Bool, false, not, ◌&&◌, ◌||◌, Option, none, some, List, [], ◌∷◌, ◌++◌, ◌or◌, any, String,
  find, update_where, is_some, length, drop, if◌then◌else◌,
}
use autoedge_licensing_serve.Text.{
  Text, text, same_text, same_optional, strip, is_truthy, or_empty, ◌or_text◌,
}
use autoedge_licensing_serve.Time.{Datetime, iso}
use autoedge_licensing_serve.Database.{Platform, Database, Customer, fresh_id, count_id, audit}
use autoedge_licensing_serve.License.Customers.{
  normalize_email, normalize_optional_text, hash_license_key,
}
use autoedge_licensing_serve.Oauth.States.{text_value}

-- the chunks of four characters after the first, each behind a dash; `raw` is what
-- `secrets.choice` drew
unfoldable pub dashed : Text → Text
dashed (a ∷ b ∷ c ∷ d ∷ raw) = b'-' ∷ a ∷ b ∷ c ∷ d ∷ dashed raw
dashed raw = []

unfoldable pub generate_license_key : Text → Text
unfolding dashed
generate_license_key raw = text "AE" ++ dashed raw

pub record CustomerRequest : Type 0 where
  pub email : Option Text
  pub name : Option Text
  pub whop_user_id : Option Text
  pub whop_member_id : Option Text
  pub license_key : Option Text
  pub generate_key : Bool
  pub raw_key : Text
  pub actor_type : String
  pub actor_id : Option Text
  pub ip_address : Option Text
  pub now : Datetime

-- an identifier that is given fits a column
abbrev pub fits : Option Text → Option Text → Bool
fits none column = false
fits (some value) column = same_optional column (some value)

-- `value.strip() if value else None`
unfoldable pub stripped : Option Text → Option Text
unfolding strip
stripped value = if is_truthy value then some (strip (or_empty value)) else none

-- `value[-4:]`
abbrev pub last4 : Text → Text
last4 value = drop (length value - 4) value

-- another customer has one of the row's UNIQUE values
unfoldable pub clashes : Customer → List Customer → Bool
unfolding same_text
clashes c = any (λ d.
    not (same_text d.id c.id)
    && (fits c.email_normalized d.email_normalized
        || fits c.whop_user_id d.whop_user_id
        || fits c.whop_member_id d.whop_member_id
        || fits c.license_key_hash d.license_key_hash))

module _ (p : Platform) (req : CustomerRequest) where
  abbrev pub given_key_hash : Option Text
  given_key_hash =
      if is_truthy req.license_key
      then some (hash_license_key p (or_empty req.license_key))
      else none

  unfoldable pub is_known : Customer → Bool
  unfolding normalize_email normalize_optional_text hash_license_key
  is_known c =
      fits (normalize_email req.email) c.email_normalized
      || fits (normalize_optional_text req.whop_user_id) c.whop_user_id
      || fits (normalize_optional_text req.whop_member_id) c.whop_member_id
      || fits given_key_hash c.license_key_hash

  abbrev pub generated_key : Option Text
  generated_key =
      req.license_key
      or_text (if req.generate_key then some (generate_license_key req.raw_key) else none)

  unfoldable pub new_customer : Text → Customer
  unfolding normalize_email normalize_optional_text hash_license_key stripped generate_license_key
  new_customer id = record {
    id = id;
    whop_user_id = normalize_optional_text req.whop_user_id;
    whop_member_id = normalize_optional_text req.whop_member_id;
    email = stripped req.email;
    email_normalized = normalize_email req.email;
    name = stripped req.name;
    license_key_hash =
        if is_truthy generated_key
        then some (hash_license_key p (or_empty generated_key))
        else none;
    license_key_last4 =
        if is_truthy generated_key then some (last4 (or_empty generated_key)) else none;
    max_devices = none;
    tags = [];
    created_at = iso req.now;
    updated_at = iso req.now;
  }

  -- both UPDATEs: the identifiers that are given, and a license key where there was none
  unfoldable pub known_customer : Customer → Customer
  unfolding normalize_email normalize_optional_text hash_license_key stripped
  known_customer c = record c {
    whop_user_id = normalize_optional_text req.whop_user_id or c.whop_user_id;
    whop_member_id = normalize_optional_text req.whop_member_id or c.whop_member_id;
    email = stripped req.email or c.email;
    email_normalized = normalize_email req.email or c.email_normalized;
    name = stripped req.name or c.name;
    license_key_hash = if is_some c.license_key_hash then c.license_key_hash else given_key_hash;
    license_key_last4 =
        if is_truthy req.license_key && not (is_some c.license_key_hash)
        then some (last4 (or_empty req.license_key))
        else c.license_key_last4;
    updated_at = iso req.now;
  }

  customer_audit : Database → String → Text → Database
  unfolding audit normalize_email
  customer_audit db action id =
      audit p db req.now req.actor_type req.actor_id action "customer" id
        (("email", text_value (normalize_email req.email)) ∷ []) req.ip_address

  -- none where a write raises; the row that is read back is the one that was written
  unfoldable pub write_customer : Database → Option Customer → Option (Database × Customer)
  unfolding new_customer known_customer clashes customer_audit
  write_customer db none =
      let created = new_customer (fresh_id p db) in
      if clashes created db.customers
      then none
      else some (
        customer_audit (record (count_id p db) { customers = db.customers ++ created ∷ [] })
            "customer.created" created.id,
        created,
      )
  write_customer db (some c) =
      let updated = known_customer c in
      if clashes updated db.customers
      then none
      else some (
        customer_audit
            (record db {
              customers = update_where (λ d. same_text d.id c.id) (λ d. updated) db.customers;
            })
            "customer.updated" c.id,
        updated,
      )

  unfoldable pub create_or_update_customer : Database → Option (Database × Customer)
  unfolding is_known write_customer
  create_or_update_customer db = write_customer db (find is_known db.customers)
