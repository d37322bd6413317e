-- ===== src/Whop/Ledger.antt =====
-- The grant ledger: `_grant_fingerprint`, `_paid_period_duplicate_exists` and
-- `_record_grant_ledger` of autoedge_licensing/service.py.
pub mod Fingerprint
use autoedge_licensing_serve.Prelude.{
  ℕ, Bool, true, false, not, ◌&&◌, ◌||◌, Option, none, some, List, [], ◌∷◌, ◌++◌, get_or, any, ltb,
  ◌==◌, if◌then◌else◌, ◌+◌, is_some,
}
use autoedge_licensing_serve.Text.{
  Text, text, same_text, same_optional, is_truthy, or_empty, ◌or_text◌, colon_joined,
}
use autoedge_licensing_serve.Time.{Datetime, Stamp, iso, iso_optional}
use autoedge_licensing_serve.Database.{Platform, Database, LedgerRow, Details, fresh_id}
use autoedge_licensing_serve.Whop.Status.{
  kind_text, GrantKind, trial, paid, renewal, revoke, expire, suspend, ignored, is_paid,
}
use autoedge_licensing_serve.Whop.Expiry.{SubscriptionInfo}

module _ (p : Platform) where
  -- `iso(t) if t else ""`
  abbrev pub time_or_empty : Option Datetime → Text
  time_or_empty none = []
  time_or_empty (some t) = p.iso_text (iso t)

  abbrev trial_end_text : SubscriptionInfo → Text
  trial_end_text info =
      if is_some info.trial_ends_at
      then time_or_empty info.trial_ends_at
      else time_or_empty info.expires_at

  module _ (customer_id package_id product_id : Text) (info : SubscriptionInfo)
      (webhook_id : Text) where
    abbrev membership_of : Text
    membership_of =
        or_empty (info.membership_id or_text info.entitlement_id or_text some customer_id)

    -- the source of a payment's or renewal's fingerprint
    unfoldable pub paid_source : Text
    unfolding colon_joined
    paid_source =
        if is_truthy info.payment_id
        then colon_joined (text "paid:payment") (or_empty info.payment_id ∷ product_id ∷ [])
        else if is_truthy (some membership_of) && is_truthy (some (time_or_empty info.period_start))
        then colon_joined (text "paid:period-start")
            (membership_of ∷ package_id ∷ product_id ∷ time_or_empty info.period_start ∷ [])
        else colon_joined (text "paid:period") (
            membership_of
            ∷ package_id
            ∷ product_id
            ∷ time_or_empty info.period_start
            ∷ time_or_empty info.expires_at
            ∷ [])

    unfoldable pub fingerprint_source : GrantKind → Text
    unfolding paid_source
    fingerprint_source trial =
        colon_joined (text "trial")
          (membership_of ∷ package_id ∷ product_id ∷ trial_end_text info ∷ [])
    fingerprint_source paid = paid_source
    fingerprint_source renewal = paid_source
    fingerprint_source kind =
        colon_joined (kind_text kind) (text "event" ∷ webhook_id ∷ product_id ∷ [])

    unfoldable pub grant_fingerprint : GrantKind → Text
    unfolding fingerprint_source
    grant_fingerprint kind = p.sha256_hex (fingerprint_source kind)

abbrev pub has_fingerprint : Text → LedgerRow → Bool
has_fingerprint fingerprint r = same_text r.event_fingerprint fingerprint

-- a ledger row that has already given the days of this period
abbrev pub is_same_period : Text → Text → Text → Text → Datetime → LedgerRow → Bool
is_same_period customer_id package_id product_id subscription_id start r =
    same_text r.customer_id customer_id
    && same_optional r.package_id (some package_id)
    && same_text r.product_id product_id
    && same_optional r.subscription_id (some subscription_id)
    && is_paid r.grant_kind
    && ltb 0 r.days_applied
    && elim r.period_start [ none ↦ false | some s ↦ s == iso start ]

unfoldable pub paid_period_duplicate_exists :
    List LedgerRow → Text → Text → Text → Option Text → GrantKind → Option Datetime → Bool
paid_period_duplicate_exists ledger customer_id package_id product_id subscription_id kind none =
    false
paid_period_duplicate_exists ledger customer_id package_id product_id subscription_id kind
      (some start) =
    is_paid kind
    && is_truthy subscription_id
    && any (is_same_period customer_id package_id product_id (or_empty subscription_id) start)
        ledger

-- The row is added unless its fingerprint is there; `id` is the row's, which the caller draws.
unfoldable pub record_grant_ledger : Platform → Database → LedgerRow → Database
record_grant_ledger p db row =
    if any (has_fingerprint row.event_fingerprint) db.license_grant_ledger then db else record db {
      license_grant_ledger = db.license_grant_ledger ++ record row { id = fresh_id p db } ∷ [];
      drawn = db.drawn + 1;
    }
