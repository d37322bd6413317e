-- ===== src/Whop/Expiry.antt =====
-- Until when an event grants access: `entitlement_expiry_target` of autoedge_licensing/service.py,
-- and the part of `_extract_subscription_info` that the handlers read.
pub mod Target
use autoedge_licensing_serve.Prelude.{
  ℕ, ◌+◌, Bool, true, false, ◌&&◌, not, Option, none, some, ◌or◌, get_or, is_some, if◌then◌else◌,
}
use autoedge_licensing_serve.Text.{Text}
use autoedge_licensing_serve.Time.{Datetime, days, later_time}
use autoedge_licensing_serve.Whop.Status.{GrantKind, trial, is_paid}

-- what `_extract_subscription_info` returns
pub record SubscriptionInfo : Type 0 where
  pub membership_id : Option Text
  pub entitlement_id : Option Text
  pub plan_id : Option Text
  pub status : Text
  pub period_start : Option Datetime
  pub expires_at : Option Datetime
  pub trial_ends_at : Option Datetime
  pub payment_id : Option Text
  pub cancel_at_period_end : Bool

-- a configured number of days after the period's start, or after now
abbrev pub configured_end : SubscriptionInfo → ℕ → Datetime → Datetime
configured_end info grant_days now = get_or info.period_start now + days grant_days

trial_target : SubscriptionInfo → Option ℕ → Datetime → Option Datetime
trial_target info grant_days now =
    info.trial_ends_at
    or info.expires_at
    or elim grant_days [ none ↦ none | some d ↦ some (configured_end info d now) ]

paid_target : SubscriptionInfo → Option ℕ → Datetime → Option Datetime
paid_target info none now = info.expires_at
paid_target info (some d) now = later_time info.expires_at (some (configured_end info d now))

unfoldable pub entitlement_expiry_target :
    GrantKind → SubscriptionInfo → Option ℕ → Datetime → Option Datetime
unfolding trial_target paid_target
entitlement_expiry_target trial info grant_days now = trial_target info grant_days now
entitlement_expiry_target kind info grant_days now =
    if is_paid kind then paid_target info grant_days now else info.expires_at
