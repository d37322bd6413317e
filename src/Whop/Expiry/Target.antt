-- ===== src/Whop/Expiry/Target.antt =====
-- The coverage that a payment asks for.
use autoedge_licensing_serve.Prelude.{
  ℕ, ◌+◌, ◌*◌, ◌≡◌, ◌≤◌, refl, true, Option, none, some, arith, get_or, max,
}
use autoedge_licensing_serve.Time.{Datetime, days, later_time}
use autoedge_licensing_serve.Whop.Status.{GrantKind, paid, renewal, is_paid}
use autoedge_licensing_serve.Whop.Expiry.{SubscriptionInfo, entitlement_expiry_target}

-- The time reaches the end of a period, if there is one, and that many days (of 86,400,000,000
-- microseconds) after the period's start, or after now if there is no start.
pub record Reaches (start end : Option Datetime) (d : ℕ) (now t : Datetime) : Type 0 where
  pub after_end : (x : Datetime) → end ≡ some x → x ≤ t
  pub after_start : (s : Datetime) → start ≡ some s → s + d * 86400000000 ≤ t
  pub after_now : start ≡ none → now + d * 86400000000 ≤ t

-- the least such time
pub record IsLeast (start end : Option Datetime) (d : ℕ) (now t : Datetime) : Type 0 where
  pub reaches : Reaches start end d now t
  pub least : (u : Datetime) → Reaches start end d now u → t ≤ u

later_time-IsLeast :
    (start end : Option Datetime) (d : ℕ) (now : Datetime)
    → (t : Datetime) × (later_time end (some (get_or start now + days d)) ≡ some t)
      × IsLeast start end d now t
later_time-IsLeast none none d now = (
  now + days d,
  refl,
  record {
    reaches = record {
      after_end = λ x e. cc;
      after_start = λ s e. cc;
      after_now = λ e. omega arith;
    };
    least = λ u r. omega (arith, r.after_now refl);
  },
)
later_time-IsLeast (some s) none d now = (
  s + days d,
  refl,
  record {
    reaches = record {
      after_end = λ x e. cc;
      after_start = λ s' e. ground (arith, e);
      after_now = λ e. cc;
    };
    least = λ u r. omega (arith, r.after_start s refl);
  },
)
later_time-IsLeast none (some x) d now = (
  max x (now + days d),
  ground arith,
  record {
    reaches = record {
      after_end = λ x' e. ground (arith, e);
      after_start = λ s e. cc;
      after_now = λ e. ground arith;
    };
    least = λ u r. ground (arith, r.after_now refl, r.after_end x refl);
  },
)
later_time-IsLeast (some s) (some x) d now = (
  max x (s + days d),
  ground arith,
  record {
    reaches = record {
      after_end = λ x' e. ground (arith, e);
      after_start = λ s' e. ground (arith, e);
      after_now = λ e. cc;
    };
    least = λ u r. ground (arith, r.after_start s refl, r.after_end x refl);
  },
)

-- A payment or renewal with configured days asks for the least time that reaches both the event's
-- own period end, if it has one, and the configured days, of 86,400 seconds, counted from the
-- period's start, or from now where the event has no start.
pub paid_target-IsLeast :
    (kind : GrantKind) (info : SubscriptionInfo) (d : ℕ) (now : Datetime)
    → is_paid kind ≡ true
    → (t : Datetime) × (entitlement_expiry_target kind info (some d) now ≡ some t)
      × IsLeast info.period_start info.expires_at d now t
unfolding entitlement_expiry_target
paid_target-IsLeast paid info d now h = later_time-IsLeast info.period_start info.expires_at d now
paid_target-IsLeast renewal info d now h =
    later_time-IsLeast info.period_start info.expires_at d now
paid_target-IsLeast _ info d now h = cc
