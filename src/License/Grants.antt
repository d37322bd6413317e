-- ===== src/License/Grants.antt =====
-- The grants of a customer: `_current_grants`, `_filter_grants_for_client` and `_blocking_status`
-- of autoedge_licensing/service.py.
pub mod Best
pub mod Blocking
pub mod Origin
use autoedge_licensing_serve.Prelude.{
  ℕ, Bool, true, false, not, ◌&&◌, ◌||◌, Option, none, some, List, [], ◌∷◌, ◌++◌, is_some, leb, ltb,
  ◌==◌, if◌then◌else◌, find, filter_by, update_where, any, all, map,
}
use autoedge_licensing_serve.Text.{Text, text, same_text, strip, is_truthy, or_empty}
use autoedge_licensing_serve.Time.{Datetime, Stamp, parse_stamp, is_after}
use autoedge_licensing_serve.Sorting.{sort_by, text_lt}
use autoedge_licensing_serve.Database.{Database, Entitlement, Product}
use autoedge_licensing_serve.Whop.Status.{
  Status, active, trialing, expired, revoked, suspended, pending,
}
use autoedge_licensing_serve.Whop.Direct.{is_whop}
use autoedge_licensing_serve.License.Outcome.{LicenseStatus}
use autoedge_licensing_serve.License.Client.{ClientType, trader_desktop, nt8, unknown}

-- a row of the join of entitlements and products, with the keys that the code adds
pub record Grant : Type 0 where
  pub row : Entitlement
  pub product : Product
  pub status : Status
  pub is_licensed : Bool

abbrev pub product_of : Grant → Text
product_of g = g.product.id

abbrev pub expiry_of : Grant → Option Datetime
expiry_of g = parse_stamp g.row.expires_at

abbrev is_expired : Status → Bool
is_expired expired = true
is_expired _ = false

-- `status in ACTIVE_ENTITLEMENT_STATUSES`
abbrev pub grants_access : Status → Bool
grants_access active = true
grants_access trialing = true
grants_access _ = false

-- `t is None or t <= now` and `t is None or t > now`
abbrev pub has_started : Option Datetime → Datetime → Bool
has_started none now = true
has_started (some t) now = leb t now

abbrev pub has_not_ended : Option Datetime → Datetime → Bool
has_not_ended none now = true
has_not_ended (some t) now = ltb now t

-- a Whop row that is stored as expired, but covered by a date to come, counts as active
unfoldable pub effective_status : Entitlement → Datetime → Status
effective_status e now =
    if is_whop e.source
      && is_expired e.status
      && not (is_some e.revoked_at)
      && is_after (parse_stamp e.expires_at) now
    then active
    else e.status

unfoldable pub is_licensed_row : Entitlement → Product → Datetime → Bool
unfolding effective_status
is_licensed_row e product now =
    product.is_active
    && grants_access (effective_status e now)
    && not (is_some e.revoked_at)
    && has_started (parse_stamp e.starts_at) now
    && has_not_ended (parse_stamp e.expires_at) now

unfoldable pub grant_of : Datetime → Entitlement → Product → Grant
unfolding is_licensed_row
grant_of now e product = record {
  row = e;
  product = product;
  status = effective_status e now;
  is_licensed = is_licensed_row e product now;
}

abbrev joined_row : Datetime → List Product → Entitlement → List Grant → List Grant
joined_row now products e rest =
    elim (find (λ product. same_text product.id e.product_id) products) [
      | none ↦ rest
      | some product ↦ grant_of now e product ∷ rest
    ]

-- `JOIN products … WHERE entitlements.customer_id = ?`
unfoldable pub joined : Datetime → List Product → Text → List Entitlement → List Grant
unfolding grant_of
joined now products customer_id [] = []
joined now products customer_id (e ∷ rows) =
    let rest = joined now products customer_id rows in
    if same_text e.customer_id customer_id then joined_row now products e rest else rest

-- `ORDER BY products.name ASC, entitlements.updated_at DESC`
abbrev listed_before : Grant → Grant → Bool
listed_before g h =
    text_lt g.product.name h.product.name
    || (same_text g.product.name h.product.name && ltb h.row.updated_at g.row.updated_at)

-- whether a grant takes the place of the one that is kept for its product
unfoldable pub replaces : Grant → Grant → Bool
replaces g kept =
    (g.is_licensed && not kept.is_licensed)
    || (g.is_licensed
        && kept.is_licensed
        && elim (expiry_of kept) [ none ↦ false | some t ↦ has_not_ended (expiry_of g) t ])

abbrev pub is_of : Text → Grant → Bool
is_of product_id g = same_text (product_of g) product_id

-- one round of the loop that fills `best_by_product`, from the entry that the product has
unfoldable pub store_grant : List Grant → Grant → Option Grant → List Grant
unfolding replaces
store_grant best g none = best ++ g ∷ []
store_grant best g (some kept) =
    if replaces g kept then update_where (is_of (product_of g)) (λ _. g) best else best

unfoldable pub keep_best : List Grant → Grant → List Grant
unfolding store_grant
keep_best best g = store_grant best g (find (is_of (product_of g)) best)

unfoldable pub best_by_product : List Grant → List Grant → List Grant
unfolding keep_best
best_by_product best [] = best
best_by_product best (g ∷ grants) = best_by_product (keep_best best g) grants

unfoldable pub current_grants : Database → Text → Datetime → List Grant
unfolding joined best_by_product
current_grants db customer_id now =
    best_by_product [] (sort_by listed_before (joined now db.products customer_id db.entitlements))

-- whether a product is offered to a kind of client
unfoldable pub is_offered : ClientType → Product → Bool
unfolding strip
is_offered nt8 product =
    product.nt8_enabled && is_truthy (some (strip (or_empty product.nt8_strategy_key)))
is_offered trader_desktop product = product.trader_enabled
is_offered unknown product = true

unfoldable pub filter_grants_for_client : List Grant → ClientType → List Grant
unfolding is_offered
filter_grants_for_client grants client_type =
    filter_by (λ g. is_offered client_type g.product) grants

abbrev pub has_status : Status → Grant → Bool
has_status s g = elim s [
  | active ↦ false
  | trialing ↦ false
  | pending ↦ false
  | expired ↦ is_expired g.status
  | revoked ↦ (elim g.status [ revoked ↦ true | _ ↦ false ])
  | suspended ↦ (elim g.status [ suspended ↦ true | _ ↦ false ])
]

-- `parse_time(expires_at) and parse_time(expires_at) <= now`
abbrev pub has_ended : Datetime → Grant → Bool
has_ended now g = elim (expiry_of g) [ none ↦ false | some t ↦ leb t now ]

abbrev is_nonempty : List Grant → Bool
is_nonempty [] = false
is_nonempty (g ∷ grants) = true

unfoldable pub blocking_status : List Grant → Datetime → LicenseStatus
blocking_status grants now =
    if any (has_status revoked) grants || any (λ g. is_some g.row.revoked_at) grants
    then LicenseStatus.revoked
    else if any (has_status suspended) grants
    then LicenseStatus.suspended
    else if is_nonempty grants && (any (has_status expired) grants || all (has_ended now) grants)
    then LicenseStatus.expired
    else LicenseStatus.unlicensed
