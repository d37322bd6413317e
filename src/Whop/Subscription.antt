-- ===== src/Whop/Subscription.antt =====
-- `_upsert_whop_subscription` of autoedge_licensing/service.py.
pub mod Periods
use autoedge_licensing_serve.Prelude.{
  ℕ, Bool, true, false, ◌&&◌, ◌||◌, Option, none, some, List, [], ◌∷◌, ◌++◌, is_some, ltb,
  if◌then◌else◌, find, update_where,
}
use autoedge_licensing_serve.Text.{Text, same_text, is_truthy, or_empty, ◌or_text◌}
use autoedge_licensing_serve.Time.{Datetime, Stamp, iso, iso_optional, parse_stamp, later_time}
use autoedge_licensing_serve.Database.{Platform, Database, Subscription, fresh_id, count_id}
use autoedge_licensing_serve.Whop.Status.{SubscriptionStatus}
use autoedge_licensing_serve.Whop.Expiry.{SubscriptionInfo}

abbrev pub is_expired_status : SubscriptionStatus → Bool
is_expired_status SubscriptionStatus.expired = true
is_expired_status _ = false

abbrev pub ended_early : Option Datetime → Option Datetime → Datetime → Bool
ended_early none incoming_end now = false
ended_early (some existing_end) none now = ltb now existing_end
ended_early (some existing_end) (some incoming_end) now = ltb incoming_end existing_end

-- an end of the subscription that is older news than what is stored
unfoldable pub stale_terminal_update :
    SubscriptionStatus → Option Datetime → Option Datetime → Datetime → Bool
stale_terminal_update sub_status existing_end incoming_end now =
    is_expired_status sub_status && ended_early existing_end incoming_end now

module _ (customer_id : Text) (info : SubscriptionInfo) (sub_status : SubscriptionStatus)
    (now : Datetime) where
  abbrev is_stale : Subscription → Bool
  is_stale s =
      stale_terminal_update sub_status (parse_stamp s.current_period_end) info.expires_at now

  -- the UPDATE; the row that it meets is the one that was read, by the table's key
  unfoldable pub saved : Subscription → Subscription
  unfolding stale_terminal_update
  saved s = record s {
    customer_id = customer_id;
    whop_plan_id = if is_stale s then s.whop_plan_id else (info.plan_id or_text s.whop_plan_id);
    status = if is_stale s then s.status else sub_status;
    raw_status = if is_stale s then s.raw_status else some info.status;
    current_period_start =
        iso_optional (later_time (parse_stamp s.current_period_start) info.period_start);
    current_period_end =
        iso_optional (later_time (parse_stamp s.current_period_end) info.expires_at);
    cancel_at_period_end = if is_stale s then s.cancel_at_period_end else info.cancel_at_period_end;
    updated_at = iso now;
  }

  abbrev pub new_subscription : Text → Subscription
  new_subscription id = record {
    id = id;
    customer_id = customer_id;
    whop_membership_id = or_empty info.membership_id;
    whop_plan_id = info.plan_id;
    status = sub_status;
    raw_status = some info.status;
    current_period_start = iso_optional info.period_start;
    current_period_end = iso_optional info.expires_at;
    cancel_at_period_end = info.cancel_at_period_end;
    created_at = iso now;
    updated_at = iso now;
  }

  unfoldable pub write_subscription :
      Platform → Database → Option Subscription → Database × Option Text
  unfolding saved
  write_subscription p db none = (
    record (count_id p db) {
      subscriptions = db.subscriptions ++ new_subscription (fresh_id p db) ∷ [];
    },
    some (fresh_id p db),
  )
  write_subscription p db (some s) = (
    record db { subscriptions = update_where (λ r. same_text r.id s.id) saved db.subscriptions },
    some s.id,
  )

  abbrev pub existing_sub : Database → Option Subscription
  existing_sub db =
      find (λ s. same_text s.whop_membership_id (or_empty info.membership_id)) db.subscriptions

  unfoldable pub upsert_whop_subscription : Platform → Database → Database × Option Text
  unfolding write_subscription
  upsert_whop_subscription p db =
      if is_truthy info.membership_id then write_subscription p db (existing_sub db) else (db, none)
