-- ===== src/Time.antt =====
-- Times of autoedge_licensing/service.py. A `datetime` is its number of microseconds since the
-- epoch; a stored time is the number of seconds that its text shows (`iso` drops the fraction, and
-- `parse_time` of what `iso` wrote gives back the whole second). The texts of `iso` all have one
-- form, so their order in SQL is the order of the numbers.
use autoedge_licensing_serve.Prelude.{
  ℕ, ◌+◌, ◌-◌, ◌*◌, ◌/◌, ◌≤◌, ◌<◌, Bool, Option, none, some, arith, leb, ltb, ◌==◌, max,
  if◌then◌else◌,
}

abbrev pub Datetime : Type 0
Datetime = ℕ

abbrev pub Stamp : Type 0
Stamp = ℕ

abbrev pub second : ℕ
second = 1000000

-- `timedelta(days=d)` and `timedelta(seconds=s)`
abbrev pub days : ℕ → ℕ
days d = d * (86400 * second)

abbrev pub seconds : ℕ → ℕ
seconds s = s * second

abbrev pub iso : Datetime → Stamp
iso t = t / second

-- `iso(t) if t else None`
abbrev pub iso_optional : Option Datetime → Option Stamp
iso_optional none = none
iso_optional (some t) = some (iso t)

-- `parse_time` on a stored column
abbrev pub parse_stamp : Option Stamp → Option Datetime
parse_stamp none = none
parse_stamp (some s) = some (s * second)

abbrev pub earlier_time : Option Datetime → Option Datetime → Option Datetime
earlier_time none right = right
earlier_time (some a) none = some a
earlier_time (some a) (some b) = if leb a b then some a else some b

abbrev pub later_time : Option Datetime → Option Datetime → Option Datetime
later_time none right = right
later_time (some a) none = some a
later_time (some a) (some b) = if leb b a then some a else some b

-- `t is not None and t > u` for a known time `u`
abbrev pub is_after : Option Datetime → Datetime → Bool
is_after none u = Bool.false
is_after (some t) u = ltb u t

-- the time left from `now` to `end`, as `ceil_days(end - now)` sees it: whole seconds, none
-- below zero
unfoldable pub ceil_days : Datetime → Datetime → ℕ
ceil_days end now =
    let s = (end - now) / second in if s == 0 then 0 else max 1 ((s + 86399) / 86400)

-- The number of days is the least that covers the whole seconds left: nothing when no second is
-- left, and never a day too many.
pub ceil_days_bounds :
    (end now : Datetime)
    → ((end - now) / second ≤ ceil_days end now * 86400)
      × (ceil_days end now * 86400 < (end - now) / second + 86400)
unfolding ceil_days
ceil_days_bounds end now = ground arith
