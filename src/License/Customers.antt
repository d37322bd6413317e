-- ===== src/License/Customers.antt =====
-- `_find_customer` of autoedge_licensing/service.py, with the normalisations that it uses.
use autoedge_licensing_serve.Prelude.{Option, none, some, List, ◌or◌, if◌then◌else◌, find}
use autoedge_licensing_serve.Text.{
  Text, strip, lower, upper, same_optional, is_truthy, or_empty, nonempty,
}
use autoedge_licensing_serve.Database.{Platform, Database, Customer}

unfoldable pub normalize_email : Option Text → Option Text
unfolding strip lower
normalize_email value = nonempty (lower (strip (or_empty value)))

unfoldable pub normalize_optional_text : Option Text → Option Text
unfolding strip
normalize_optional_text value = nonempty (strip (or_empty value))

unfoldable pub hash_license_key : Platform → Text → Text
unfolding strip upper
hash_license_key p value = p.sha256_hex (upper (strip value))

-- one SELECT, made if the identifier is given
abbrev found_by :
    List Customer → Option Text → (Text → Text) → (Customer → Option Text) → Option Customer
found_by customers identifier key column =
    if is_truthy identifier
    then find (λ c. same_optional (column c) (some (key (or_empty identifier)))) customers
    else none

unfoldable pub find_customer :
    Platform → Database → Option Text → Option Text → Option Text → Option Text → Option Customer
unfolding normalize_email normalize_optional_text hash_license_key
find_customer p db license_key email customer_id whop_user_id =
    found_by db.customers license_key (hash_license_key p) (λ c. c.license_key_hash)
    or found_by db.customers customer_id strip (λ c. some c.id)
    or found_by db.customers (normalize_email email) (λ s. s) (λ c. c.email_normalized)
    or found_by db.customers (normalize_optional_text whop_user_id) (λ s. s) (λ c. c.whop_user_id)
