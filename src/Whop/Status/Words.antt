-- ===== src/Whop/Status/Words.antt =====
-- Which words of a webhook lead to which kind of grant.
use autoedge_licensing_serve.Prelude.{◌≡◌, ◌↔◌, true, false, Option, arith}
use autoedge_licensing_serve.Text.{Text, lower, contains_any, or_empty}
use autoedge_licensing_serve.Whop.Status.{
  Status, revoke, active, trialing, expired, revoked, suspended, pending, SubscriptionStatus,
  spaced, dotted, revoke_words, suspend_words, expire_words, is_one_of, failed_events,
  normalize_entitlement_status, normalize_subscription_status, is_cancel_at_period_end_event,
  grant_kind, kind_of_event, is_granting,
}

abbrev pub combined_text : Option Text → Text → Text
combined_text raw_status event_type = lower (spaced (or_empty raw_status) event_type)

-- An event grants coverage (a trial, a payment or a renewal) only if it does not announce a
-- cancellation at the period's end and its status and type hold none of the words of a
-- revocation, a suspension or an expiry, in any case of letters.
pub granting_has_no_blocking_word :
    (raw_status : Option Text) (event_type : Text)
    → is_granting (kind_of_event raw_status event_type) ≡ true
    → (is_cancel_at_period_end_event event_type ≡ false)
      × (contains_any revoke_words (combined_text raw_status event_type) ≡ false)
      × (contains_any suspend_words (combined_text raw_status event_type) ≡ false)
      × (is_one_of failed_events (dotted (lower event_type)) ≡ false)
      × (contains_any expire_words (combined_text raw_status event_type) ≡ false)
unfolding grant_kind normalize_entitlement_status
granting_has_no_blocking_word raw_status event_type h = ground arith

-- Unless the event announces a cancellation at the period's end, it is a revocation exactly when
-- its status or type holds a word of one (refund, chargeback, dispute, ...), whatever else they
-- hold.
pub revoke_iff :
    (raw_status : Option Text) (event_type : Text)
    → is_cancel_at_period_end_event event_type ≡ false
    → (kind_of_event raw_status event_type ≡ revoke)
      ↔ (contains_any revoke_words (combined_text raw_status event_type) ≡ true)
unfolding grant_kind normalize_entitlement_status
revoke_iff raw_status event_type h = ground arith

-- the entitlement statuses that one subscription status stands for
abbrev pub Describes : SubscriptionStatus → Status → Type 0
Describes SubscriptionStatus.active s = s ≡ active
Describes SubscriptionStatus.trialing s = s ≡ trialing
Describes SubscriptionStatus.past_due s = s ≡ suspended
Describes SubscriptionStatus.expired s = s ≡ expired
Describes SubscriptionStatus.revoked s = s ≡ revoked
Describes SubscriptionStatus.suspended s = s ≡ suspended
Describes SubscriptionStatus.unknown s = s ≡ pending

-- The subscription's status and the entitlement's agree, for every status and type.
pub subscription_status_agrees :
    (raw_status : Option Text) (event_type : Text)
    → Describes
        (normalize_subscription_status raw_status event_type)
        (normalize_entitlement_status raw_status event_type)
unfolding normalize_subscription_status
subscription_status_agrees raw_status event_type = ground arith
