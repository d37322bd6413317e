-- ===== src/License/States.antt =====
-- `_entitlement_states` of autoedge_licensing/service.py: the states of the products that a client
-- is shown, those of removed entitlements included. The filter LIKE on the text of the details is
-- left out: the test on `customer_id` that follows it implies it.
pub mod Removed
use autoedge_licensing_serve.Prelude.{
  ℕ, String, Bool, true, false, not, ◌&&◌, ◌||◌, Option, none, some, List, [], ◌∷◌, ◌++◌, is_some,
  leb, ltb, if◌then◌else◌, find, filter_by, any, map,
}
use autoedge_licensing_serve.Text.{
  Text, text, same_text, same_optional, strip, lower, is_truthy, or_empty, ◌or_text◌,
}
use autoedge_licensing_serve.Time.{Datetime, Stamp, parse_stamp}
use autoedge_licensing_serve.Sorting.{sort_by, text_lt}
use autoedge_licensing_serve.Database.{
  Platform, Database, Product, Source, AuditRow, Value, null, string, number, flag, texts, Details,
}
use autoedge_licensing_serve.Whop.Status.{Status, active, expired, revoked, suspended}
use autoedge_licensing_serve.Whop.Direct.{is_whop}
use autoedge_licensing_serve.License.Client.{ClientType, trader_desktop, nt8, unknown}
use autoedge_licensing_serve.License.Grants.{Grant, expiry_of, is_offered}

pub data StateStatus : Type 0 where
  entitled : Status → StateStatus
  removed : StateStatus

pub record State : Type 0 where
  pub product_id : Text
  pub slug : Text
  pub name : Text
  pub feature_id : Text
  pub subscription_url : Option Text
  pub status : StateStatus
  pub source : Value
  pub expires_at : Value
  pub changed_at : Stamp

-- `details.get(key)`
abbrev pub detail : String → Details → Value
detail key [] = null
detail key ((k, value) ∷ details) =
    if same_text (text k) (text key) then value else detail key details

abbrev text_of : Value → Option Text
text_of v = elim v [ string s ↦ some s | other ↦ none ]

abbrev is_final : Status → Bool
is_final revoked = true
is_final suspended = true
is_final expired = true
is_final _ = false

unfoldable pub grant_status : Datetime → Grant → Status
grant_status now g =
    if g.is_licensed
    then active
    else if is_some g.row.revoked_at
    then revoked
    else if not (is_final g.status) && elim (expiry_of g) [ none ↦ false | some t ↦ leb t now ]
    then expired
    else g.status

module _ (p : Platform) (now : Datetime) (db : Database) (customer_id : Text)
    (client_type : ClientType) where
  unfoldable pub grant_state : Grant → State
  unfolding grant_status
  grant_state g = record {
    product_id = g.product.id;
    slug = g.product.slug;
    name = g.product.name;
    feature_id = g.product.feature_id;
    subscription_url = g.product.subscription_url;
    status = entitled (grant_status now g);
    source = string (if is_whop g.row.source then text "whop" else text "manual");
    expires_at = elim g.row.expires_at [ none ↦ null | some s ↦ string (p.iso_text s) ];
    changed_at = g.row.updated_at;
  }

  -- the audit rows that the loop reads
  abbrev pub is_removal : AuditRow → Bool
  is_removal row = same_text (text row.action) (text "entitlement.removed")

  abbrev pub removals : List AuditRow
  removals = sort_by (λ a b. ltb b.created_at a.created_at) (filter_by is_removal db.audit_log)

  unfoldable pub removed_state : AuditRow → Product → State
  removed_state row product = record {
    product_id = product.id;
    slug = product.slug;
    name = or_empty (some product.name or_text text_of (detail "product_name" row.details));
    feature_id = product.feature_id;
    subscription_url = product.subscription_url;
    status = removed;
    source = detail "source" row.details;
    expires_at = detail "expires_at" row.details;
    changed_at = row.created_at;
  }

  abbrev pub offered : Option Product → Option Product
  offered none = none
  offered (some product) = if is_offered client_type product then some product else none

  -- the product of an audit row that is to be shown: `seen` holds the products of the grants and
  -- those that were shown before
  unfoldable pub shown_product : List Text → AuditRow → Option Product
  unfolding strip
  shown_product seen row =
      let product_id = strip (or_empty (text_of (detail "product_id" row.details))) in
      if same_optional (text_of (detail "customer_id" row.details)) (some customer_id)
        && is_truthy (some product_id)
        && not (any (same_text product_id) seen)
      then offered (find (λ product. same_text product.id product_id) db.products)
      else none

  abbrev pub seen_after : List Text → Option Product → List Text
  seen_after seen none = seen
  seen_after seen (some product) = product.id ∷ seen

  abbrev pub states_after : AuditRow → Option Product → List State → List State
  states_after row none rest = rest
  states_after row (some product) rest = removed_state row product ∷ rest

  unfoldable pub removed_states : List Text → List AuditRow → List State
  unfolding shown_product removed_state
  removed_states seen [] = []
  removed_states seen (row ∷ rows) =
      let product = shown_product seen row in
      states_after row product (removed_states (seen_after seen product) rows)

  abbrev pub sort_name : State → Text
  sort_name s = lower (or_empty (some s.name or_text some s.slug))

  unfoldable pub entitlement_states : List Grant → List State
  unfolding grant_state removed_states sort_by
  entitlement_states grants =
      sort_by (λ a b. text_lt (sort_name a) (sort_name b))
        (map grant_state grants ++ removed_states (map (λ g. g.product.id) grants) removals)
