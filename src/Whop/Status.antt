-- ===== src/Whop/Status.antt =====
-- The words of a webhook: `normalize_entitlement_status`, `is_cancel_at_period_end_event`,
-- `normalize_subscription_status` and `_grant_kind` of autoedge_licensing/service.py.
pub mod Words
use autoedge_licensing_serve.Prelude.{
  String, Bool, true, false, ◌&&◌, ◌||◌, Option, List, [], ◌∷◌, ◌++◌, map, if◌then◌else◌, any,
}
use autoedge_licensing_serve.Text.{
  Text, text, lower, replace_char, contains, contains_any, same_text, or_empty,
}

-- the statuses that the entitlements table admits
pub data Status : Type 0 where
  active trialing expired revoked suspended pending : Status

-- the statuses that the subscriptions table admits
pub data SubscriptionStatus : Type 0 where
  active trialing past_due expired revoked suspended unknown : SubscriptionStatus

pub data GrantKind : Type 0 where
  trial paid renewal revoke expire suspend ignored : GrantKind

abbrev pub words : List String → List Text
words = map text

-- f"{left} {right}"
abbrev pub spaced : Text → Text → Text
spaced left right = left ++ (b' ' ∷ right)

abbrev pub dotted : Text → Text
dotted = replace_char b'_' b'.'

unfoldable pub is_cancel_at_period_end_event : Text → Bool
is_cancel_at_period_end_event event_type =
    let raw_event = lower event_type in
    contains (text "cancel_at_period_end") raw_event
    || contains (text "cancel.at.period.end") (dotted raw_event)

abbrev pub revoke_words : List Text
revoke_words =
    words
      ("refund" ∷ "chargeback" ∷ "dispute" ∷ "revoke" ∷ "ban" ∷ "terminate" ∷ "went_invalid" ∷ [])

abbrev pub suspend_words : List Text
suspend_words = words (
    "suspend" ∷ "pause" ∷ "past_due" ∷ "payment_failed" ∷ "payment failed" ∷ "failed_payment"
    ∷ "failed payment" ∷ [])

abbrev pub expire_words : List Text
expire_words = words ("expire" ∷ "cancel" ∷ "inactive" ∷ "invalid" ∷ [])

abbrev pub active_words : List Text
active_words = words ("active" ∷ "valid" ∷ "renew" ∷ "paid" ∷ "succeeded" ∷ "completed" ∷ [])

abbrev pub failed_events : List Text
failed_events = words ("payment.failed" ∷ "invoice.payment.failed" ∷ "charge.failed" ∷ [])

abbrev pub succeeded_events : List Text
succeeded_events =
    words ("payment.succeeded" ∷ "invoice.payment.succeeded" ∷ "charge.succeeded" ∷ [])

-- `event in {…}`
unfoldable pub is_one_of : List Text → Text → Bool
is_one_of options event = any (same_text event) options

unfoldable pub normalize_entitlement_status : Option Text → Text → Status
normalize_entitlement_status raw_status event_type =
    let combined = lower (spaced (or_empty raw_status) event_type) in
    let event = dotted (lower event_type) in
    let raw = lower (or_empty raw_status) in
    if is_cancel_at_period_end_event event_type && contains (text "active") raw
    then active
    else if contains_any revoke_words combined
    then revoked
    else if contains_any suspend_words combined || is_one_of failed_events event
    then suspended
    else if contains_any expire_words combined
    then expired
    else if contains_any active_words combined
        || is_one_of succeeded_events event
        || contains (text "went_valid") event
    then active
    else if contains (text "trial") combined
    then trialing
    else pending

unfoldable pub normalize_subscription_status : Option Text → Text → SubscriptionStatus
normalize_subscription_status raw_status event_type =
    elim (normalize_entitlement_status raw_status event_type) [
      | active ↦ SubscriptionStatus.active
      | trialing ↦ SubscriptionStatus.trialing
      | suspended ↦
          if contains (text "past_due") (lower (spaced (or_empty raw_status) event_type))
          then past_due
          else SubscriptionStatus.suspended
      | revoked ↦ SubscriptionStatus.revoked
      | expired ↦ SubscriptionStatus.expired
      | pending ↦ unknown
    ]

-- the word that a status is stored as
abbrev pub status_text : Status → Text
status_text active = text "active"
status_text trialing = text "trialing"
status_text expired = text "expired"
status_text revoked = text "revoked"
status_text suspended = text "suspended"
status_text pending = text "pending"

-- the word that a grant's kind is stored as
abbrev pub kind_text : GrantKind → Text
kind_text trial = text "trial"
kind_text paid = text "paid"
kind_text renewal = text "renewal"
kind_text revoke = text "revoke"
kind_text expire = text "expire"
kind_text suspend = text "suspend"
kind_text ignored = text "ignored"

-- the tests of `_grant_kind` after the one on a cancellation at the period's end
unfoldable pub kind_of_status : Status → Text → GrantKind
kind_of_status revoked combined = revoke
kind_of_status expired combined = expire
kind_of_status suspended combined = suspend
kind_of_status trialing combined = trial
kind_of_status active combined = if contains (text "renew") combined then renewal else paid
kind_of_status pending combined = if contains (text "renew") combined then renewal else ignored

unfoldable pub grant_kind : Status → Text → GrantKind
unfolding kind_of_status
grant_kind status event_type =
    if is_cancel_at_period_end_event event_type
    then ignored
    else kind_of_status status (lower (spaced (status_text status) event_type))

-- `grant_kind in {"paid", "renewal"}`
abbrev pub is_paid : GrantKind → Bool
is_paid paid = true
is_paid renewal = true
is_paid _ = false

-- `grant_kind in {"trial", "paid", "renewal"}`
abbrev pub is_granting : GrantKind → Bool
is_granting trial = true
is_granting paid = true
is_granting renewal = true
is_granting _ = false

-- `grant_kind` of the status that the words of the event give, as every handler computes it
abbrev pub kind_of_event : Option Text → Text → GrantKind
kind_of_event raw_status event_type =
    grant_kind (normalize_entitlement_status raw_status event_type) event_type
