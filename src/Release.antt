-- ===== src/Release.antt =====
-- Which releases a customer sees: `_release_sort_key`, `_release_audience_match`,
-- `_release_visible_to_customer` and `_select_visible_releases` of autoedge_licensing/service.py.
-- The columns that hold JSON lists are the lists that `json_list` reads from them.
pub mod Visible
use autoedge_licensing_serve.Prelude.{
  ℕ, ◌+◌, ◌-◌, ◌*◌, ◌%◌, String, Bool, true, false, not, ◌&&◌, ◌||◌, Option, none, some, List, [],
  ◌∷◌, ◌++◌, leb, ltb, ◌==◌, if◌then◌else◌, any, find, update_where, map, take, is_some,
}
use autoedge_licensing_serve.Text.{
  Text, text, same_text, strip, lower, is_digit, is_truthy, or_empty, ◌or_text◌, colon_joined,
}
use autoedge_licensing_serve.Time.{Stamp}
use autoedge_licensing_serve.Version.{parse_version_parts, list_gt}
use autoedge_licensing_serve.Tags.{
  Values, listed, normalize_tag_list, normalize_identifier_list, clamp_rollout_percent,
}
use autoedge_licensing_serve.Database.{Platform, Customer}
use autoedge_licensing_serve.License.Customers.{normalize_email}

-- the columns of a release that are read here
pub record Release : Type 0 where
  pub id : Text
  pub product_id : Option Text
  pub product_key : Option Text
  pub channel : Option Text
  pub version : Option Text
  pub is_required : Bool
  pub created_at : Stamp
  pub updated_at : Stamp
  pub audience_mode : Option Text
  pub required_tags : List Text
  pub allowed_customer_ids : List Text
  pub allowed_emails : List Text
  pub allowed_license_key_hashes : List Text
  pub rollout_percent : Option ℕ

-- `AUDIENCE_MODES`
pub data AudienceMode : Type 0 where
  everyone allowlist roles percent disabled : AudienceMode

-- a word that is not a mode stands for "all"
unfoldable pub mode_of : Release → AudienceMode
unfolding strip lower
mode_of release =
    let mode = lower (strip (or_empty (release.audience_mode or_text some (text "all")))) in
    if same_text mode (text "allowlist")
    then allowlist
    else if same_text mode (text "roles")
    then roles
    else if same_text mode (text "percent")
    then percent
    else if same_text mode (text "disabled")
    then disabled
    else everyone

-- `CHANNEL_PRIORITY.get(channel, 0)`
unfoldable pub channel_priority : Text → ℕ
channel_priority channel =
    if same_text channel (text "beta")
    then 1
    else if same_text channel (text "canary")
    then 2
    else if same_text channel (text "internal")
    then 3
    else 0

unfoldable pub normalized_channel : Option Text → Text
unfolding strip lower
normalized_channel channel = lower (strip (or_empty (channel or_text some (text "stable"))))

abbrev pub one_of : List Text → Text → Bool
one_of texts s = any (same_text s) texts

-- `bool(xs & ys)`
abbrev pub intersects : List Text → List Text → Bool
intersects xs ys = any (one_of ys) xs

abbrev pub is_nonempty : List Text → Bool
is_nonempty [] = false
is_nonempty (s ∷ texts) = true

hex_digit : ℕ → ℕ
hex_digit c = if is_digit c then c - b'0' else c - 87

-- `int(digits, 16)` of lower-case hexadecimal digits
unfoldable pub hex_number : ℕ → Text → ℕ
unfolding hex_digit
hex_number acc [] = acc
hex_number acc (c ∷ s) = hex_number (acc * 16 + hex_digit c) s

unfoldable pub required_tags : Release → List Text
unfolding normalize_tag_list
required_tags release = normalize_tag_list (some (listed release.required_tags))

unfoldable pub allowlist_match : Release → Customer → Bool
unfolding normalize_identifier_list normalize_email
allowlist_match release customer =
    let allowed_emails = normalize_identifier_list (some (listed release.allowed_emails)) true in
    one_of release.allowed_customer_ids customer.id
    || elim (normalize_email customer.email) [
      | none ↦ false
      | some email ↦ one_of allowed_emails email
    ]
    || elim customer.license_key_hash [
      | none ↦ false
      | some hash ↦ one_of release.allowed_license_key_hashes hash
    ]

-- the customer's place among 100
unfoldable pub rollout_bucket : Platform → Release → Customer → ℕ
unfolding hex_number
rollout_bucket p release customer =
    let identity =
      or_empty
        (some customer.id or_text customer.license_key_hash or_text customer.email_normalized) in
    hex_number 0 (take 8 (p.sha256_hex (colon_joined identity (release.id ∷ [])))) % 100

-- a release for a percentage of the customers
unfoldable pub percent_match : ℕ → ℕ → Bool × String
percent_match share bucket =
    if share == 0
    then (false, "rollout_miss")
    else if leb 100 share
    then (true, "allowed")
    else (ltb bucket share, "rollout_miss")

-- the tests from `mode == "all"` on
unfoldable pub mode_match : Platform → AudienceMode → Release → Customer → Bool × String
unfolding percent_match
mode_match p mode release customer =
    let required = required_tags release in
    let tag_match = if is_nonempty required then intersects required customer.tags else true in
    elim mode [
      | everyone ↦ (tag_match, (if not tag_match then "tag_required" else "allowed"))
      | allowlist ↦
          (allowlist_match release customer || intersects required customer.tags, "allowlist_miss")
      | roles ↦ (intersects required customer.tags, "role_miss")
      | percent ↦
          if is_nonempty required && not tag_match
          then (false, "tag_required")
          else percent_match (clamp_rollout_percent release.rollout_percent)
              (rollout_bucket p release customer)
      | disabled ↦ (false, "audience_denied")
    ]

abbrev pub is_internal_for : Release → Customer → Bool
is_internal_for release customer =
    same_text (normalized_channel release.channel) (text "internal")
    && one_of customer.tags (text "internal")

-- the mode "disabled" is tested first, then the tag "internal"
unfoldable pub audience_match : Platform → AudienceMode → Release → Customer → Bool × String
unfolding mode_match
audience_match p disabled release customer = (false, "audience_disabled")
audience_match p mode release customer =
    if is_internal_for release customer
    then (true, "internal_tag")
    else mode_match p mode release customer

unfoldable pub release_audience_match : Platform → Release → Customer → Bool × String
unfolding audience_match
release_audience_match p release customer = audience_match p (mode_of release) release customer

abbrev pub is_targeted : AudienceMode → Bool
is_targeted allowlist = true
is_targeted roles = true
is_targeted _ = false

abbrev pub tester_tags : List Text
tester_tags =
    text "tester"
    ∷ text "desktop_beta"
    ∷ text "duo_beta"
    ∷ text "duorc_beta"
    ∷ text "early_access"
    ∷ []

-- the tests on the channel
unfoldable pub channel_match : Release → Customer → Text → Bool × String
channel_match release customer requested =
    let channel = normalized_channel release.channel in
    if leb (channel_priority channel) (channel_priority requested)
    then (true, "allowed")
    else if is_targeted (mode_of release)
    then (true, "allowed")
    else if one_of customer.tags (text "internal")
        && one_of (text "beta" ∷ text "canary" ∷ text "internal" ∷ []) channel
    then (true, "allowed")
    else if intersects customer.tags tester_tags
        && one_of (text "beta" ∷ text "canary" ∷ []) channel
    then (true, "allowed")
    else (false, "channel_denied")

unfoldable pub release_visible_to_customer :
    Platform → Release → Customer → Option Text → Bool × String
unfolding release_audience_match channel_match
release_visible_to_customer p release customer requested_channel =
    let (audience_allowed, reason) = release_audience_match p release customer in
    if audience_allowed
    then channel_match release customer (normalized_channel requested_channel)
    else (false, reason)

-- `_release_sort_key(left) > _release_sort_key(right)`, compared as Python compares tuples; the
-- channel is not stripped here
abbrev pub sort_priority : Release → ℕ
sort_priority release =
    channel_priority (lower (or_empty (release.channel or_text some (text "stable"))))

abbrev pub required_number : Release → ℕ
required_number release = if release.is_required then 1 else 0

-- one place of the tuples, and what decides if it is equal in both
abbrev pub first_differs : ℕ → ℕ → Bool → Bool
first_differs left right rest = ltb right left || ((left == right) && rest)

unfoldable pub sorts_after : Release → Release → Bool
unfolding list_gt parse_version_parts
sorts_after left right = first_differs (sort_priority left) (sort_priority right) (
    first_differs (required_number left) (required_number right) (
      first_differs left.updated_at right.updated_at (
        first_differs left.created_at right.created_at (
          list_gt (parse_version_parts (some (or_empty left.version)))
            (parse_version_parts (some (or_empty right.version)))))))

module _ (p : Platform) (customer : Customer) (requested_channel : Option Text)
    (group_by : Release → Option Text) where
  abbrev pub group_of : Release → Text
  group_of release = or_empty (
      group_by release
      or_text release.product_key
      or_text release.product_id
      or_text some release.id)

  abbrev in_group : Text → Release → Bool
  in_group group release = same_text (group_of release) group

  -- `visible_by_group[group_value] = release`, where it is due
  unfoldable pub store_release : List Release → Release → Option Release → List Release
  unfolding sorts_after
  store_release selected release none = selected ++ release ∷ []
  store_release selected release (some existing) =
      if sorts_after release existing
      then update_where (in_group (group_of release)) (λ _. release) selected
      else selected

  -- the loop, with the releases that were selected so far
  unfoldable pub select_from : List Release → List Release → List Release × List (Text × String)
  unfolding release_visible_to_customer store_release
  select_from selected [] = (selected, [])
  select_from selected (release ∷ releases) =
      let (allowed, reason) = release_visible_to_customer p release customer requested_channel in
      let next =
        if allowed
        then store_release selected release (find (in_group (group_of release)) selected)
        else selected in
      let (visible, denied) = select_from next releases in
      (visible, if allowed then denied else (release.id, reason) ∷ denied)

  unfoldable pub select_visible_releases : List Release → List Release × List (Text × String)
  unfolding select_from
  select_visible_releases releases = select_from [] releases
