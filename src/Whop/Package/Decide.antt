-- ===== src/Whop/Package/Decide.antt =====
-- The decisions of `_apply_whop_package_grant` of autoedge_licensing/service.py, from the row that
-- exists, the event and the ledger's answers.
use autoedge_licensing_serve.Prelude.{
  ℕ, ◌+◌, Bool, true, false, not, ◌&&◌, ◌||◌, Option, none, some, ◌or◌, get_or, is_some,
  if◌then◌else◌,
}
use autoedge_licensing_serve.Time.{
  Datetime, iso, parse_stamp, days, later_time, is_after, ceil_days,
}
use autoedge_licensing_serve.Database.{Entitlement}
use autoedge_licensing_serve.Whop.Status.{
  Status, GrantKind, trial, revoke, expire, suspend, ignored, active, expired, revoked, suspended,
  is_paid,
}
use autoedge_licensing_serve.Whop.Expiry.{SubscriptionInfo, entitlement_expiry_target}
use autoedge_licensing_serve.Whop.Direct.{
  Decision, is_stopped, is_active_status, restored, is_current, is_trial, before_of,
}

pub data Outcome : Type 0 where
  duplicate_grant ignored_grant : Outcome
  decided : Decision → ℕ → Outcome

-- `relative_days_target`: configured days, and neither a start nor an end of the period
unfoldable pub is_relative : GrantKind → SubscriptionInfo → Option ℕ → Bool
is_relative kind info grant_days =
    is_paid kind
    && is_some grant_days
    && not (is_some info.period_start)
    && not (is_some info.expires_at)

-- the days after what is covered now
abbrev pub relative_target : Option Entitlement → ℕ → Datetime → Datetime
relative_target existing d now = get_or (later_time (before_of existing) (some now)) now + days d

unfoldable pub grant_target :
    GrantKind → SubscriptionInfo → Option ℕ → Option Entitlement → Datetime → Option Datetime
unfolding is_relative
grant_target kind info none existing now = entitlement_expiry_target kind info none now
grant_target kind info (some d) existing now =
    if is_relative kind info (some d)
    then some (relative_target existing d now)
    else entitlement_expiry_target kind info (some d) now

-- `left is not None and right is not None and right > left`
abbrev pub is_improved : Option Datetime → Option Datetime → Bool
is_improved none after = false
is_improved (some before) after = is_after after before

-- `expires_after` of a trial, a payment or a renewal
abbrev pub expires_after : Option Entitlement → Option Datetime → Option Datetime
expires_after none target = target
expires_after (some e) target = elim (parse_stamp e.expires_at) [
  | none ↦ none
  | some before ↦ later_time (some before) target
]

-- `coverage_improved` after that
abbrev pub coverage_improved : Option Entitlement → Option Datetime → Bool
coverage_improved none target = true
coverage_improved (some e) target =
    is_improved (parse_stamp e.expires_at) (expires_after (some e) target)

-- the days that a grant counts for, if it is new
days_of : GrantKind → Option Datetime → Option ℕ → Datetime → ℕ
days_of trial (some end) grant_days now = ceil_days end now
days_of kind end grant_days now = get_or grant_days 0

granted_status : GrantKind → Option Entitlement → Status → Status
granted_status kind none status = status
granted_status kind (some e) status =
    if is_active_status e.status && is_trial kind then active else status

-- a revoked or suspended row is reopened only by coverage that it did not have
unfoldable pub granted : GrantKind → Option Entitlement → Option Datetime → Status → Decision
unfolding granted_status
granted kind none target status = record { status = status; expires_at = target; revoked_at = none }
granted kind (some e) target status =
    if is_stopped e.status && not (coverage_improved (some e) target)
    then record {
      status = e.status;
      expires_at = expires_after (some e) target;
      revoked_at = e.revoked_at;
    }
    else record {
      status = granted_status kind (some e) status;
      expires_at = expires_after (some e) target;
      revoked_at = none;
    }

grant_outcome :
    GrantKind
    → Option Entitlement
    → Bool
    → Bool
    → Bool
    → Option Datetime
    → Option ℕ
    → Status
    → Datetime
    → Outcome
unfolding days_of granted
grant_outcome kind existing duplicate duplicate_period relative target grant_days status now =
    if (duplicate || duplicate_period)
      && (relative || not (is_improved (before_of existing) target))
    then duplicate_grant
    else decided (granted kind existing target status) (
        if not duplicate && not duplicate_period && coverage_improved existing target
        then days_of kind (expires_after existing target) grant_days now
        else 0)

lapsed : Option Entitlement → Option Datetime → Datetime → Decision
lapsed existing target now = record {
  status = expired;
  expires_at = some (get_or (before_of existing or target) now);
  revoked_at = none;
}

expire_decision : Option Entitlement → Option Datetime → Datetime → Decision
unfolding lapsed
expire_decision none target now = lapsed none target now
expire_decision (some e) target now =
    if is_current e now
    then record {
      status = restored e;
      expires_at = parse_stamp e.expires_at;
      revoked_at = e.revoked_at;
    }
    else lapsed (some e) target now

-- `before_expiry if existing is not None else grant_target`
abbrev stored_or_target : Option Entitlement → Option Datetime → Option Datetime
stored_or_target none target = target
stored_or_target (some e) target = parse_stamp e.expires_at

unfoldable pub package_outcome :
    GrantKind
    → Option Entitlement
    → Bool
    → Bool
    → Bool
    → Option Datetime
    → Option ℕ
    → Status
    → Datetime
    → Outcome
unfolding grant_outcome expire_decision
package_outcome revoke existing duplicate period relative target grant_days status now =
    decided
      (record {
        status = revoked;
        expires_at = stored_or_target existing target;
        revoked_at = some (iso now);
      })
      0
package_outcome expire existing duplicate period relative target grant_days status now =
    decided (expire_decision existing target now) 0
package_outcome suspend existing duplicate period relative target grant_days status now =
    decided
      (record { status = suspended; expires_at = before_of existing or target; revoked_at = none })
      0
package_outcome ignored existing duplicate period relative target grant_days status now =
    ignored_grant
package_outcome kind existing duplicate period relative target grant_days status now =
    grant_outcome kind existing duplicate period relative target grant_days status now
