-- ===== src/Tests/Whop.antt =====
-- Tests of the Whop handlers.
use autoedge_licensing_serve.Prelude.{◌+◌, ◌≡◌, ◌↔◌, refl, true, false, none, some, [], ◌∷◌, arith}
use autoedge_licensing_serve.Text.{
  text, same_text, lower, contains, contains_any, replace_char, colon_joined,
}
use autoedge_licensing_serve.Time.{Datetime, iso, days}
use autoedge_licensing_serve.Database.{Database, Entitlement, LedgerRow}
use autoedge_licensing_serve.Database.Keys.{IsFresh, KeepsCoverage, expiries}
use autoedge_licensing_serve.Whop.Status.{
  SubscriptionStatus, paid, renewal, revoke, suspended, active, grant_kind, kind_of_event,
  is_cancel_at_period_end_event, revoke_words, suspend_words, expire_words, failed_events,
  is_one_of, dotted, normalize_entitlement_status, normalize_subscription_status,
}
use autoedge_licensing_serve.Whop.Status.Words.{
  combined_text, granting_has_no_blocking_word, revoke_iff,
}
use autoedge_licensing_serve.Whop.Expiry.{entitlement_expiry_target}
use autoedge_licensing_serve.Whop.Expiry.Target.{IsLeast, paid_target-IsLeast}
use autoedge_licensing_serve.Whop.Ledger.{grant_fingerprint, paid_period_duplicate_exists}
use autoedge_licensing_serve.Whop.Ledger.Fingerprint.{payment_fingerprint_shared}
use autoedge_licensing_serve.Whop.Direct.{upsert_direct_whop_entitlement}
use autoedge_licensing_serve.Whop.Direct.Coverage.{direct-KeepsCoverage}
use autoedge_licensing_serve.Whop.Package.Decide.{is_relative, package_outcome, grant_target}
use autoedge_licensing_serve.Whop.Package.{GrantRequest, apply_whop_package_grant, existing_row}
use autoedge_licensing_serve.Whop.Package.Coverage.{package-KeepsCoverage}
use autoedge_licensing_serve.Whop.Package.Applied.{redelivered}
use autoedge_licensing_serve.Whop.Package.Replay.{replay_adds_nothing}
use autoedge_licensing_serve.Whop.Package.Limits.{
  suspension_limits_lifetime, late_redelivery_extends,
}
use autoedge_licensing_serve.Whop.Package.Ignored.{cancel_at_period_end_unchanged}
use autoedge_licensing_serve.Whop.Subscription.{saved, upsert_whop_subscription}
use autoedge_licensing_serve.Whop.Subscription.Periods.{
  AllAdvance, subscriptions_advance, saved_periods_commute,
}
use autoedge_licensing_serve.Tests.{
  platform, today, database, info, bare_info, request, entitlement, subscription,
}

program : Unit {0}
unfolding grant_kind normalize_entitlement_status normalize_subscription_status is_relative
    entitlement_expiry_target grant_fingerprint saved is_cancel_at_period_end_event contains lower
    replace_char same_text contains_any is_one_of colon_joined package_outcome
    paid_period_duplicate_exists grant_target apply_whop_package_grant
program = tt

later : Datetime
later = today + days 20

-- a payment moves the expiry to the end of its period
payment :
    expiries (apply_whop_package_grant platform request database).0.entitlements
    ≡ some 1702592000 ∷ []
unfolding program
payment = refl

package-KeepsCoverage_example :
    KeepsCoverage database.entitlements
      (apply_whop_package_grant platform request database).0.entitlements
unfolding program
package-KeepsCoverage_example = package-KeepsCoverage platform request database (tt, tt) (λ k. cc)

fresh : IsFresh (1 ∷ []) database.entitlements
fresh = ((λ e. cc), tt)

replay_adds_nothing_example :
    (expiries
        (apply_whop_package_grant platform
          (redelivered request (text "w2") later)
          (apply_whop_package_grant platform request database).0).0.entitlements
      ≡ expiries (apply_whop_package_grant platform request database).0.entitlements)
    × ((apply_whop_package_grant platform
          (redelivered request (text "w2") later)
          (apply_whop_package_grant platform request database).0).1.days_applied
        ≡ 0)
unfolding program
replay_adds_nothing_example =
    replay_adds_nothing platform request (text "w2") later database (tt, tt) fresh refl refl

abbrev direct_row : Entitlement
direct_row = record entitlement { package_id = none; external_id = text "m1" }

abbrev direct_database : Database
direct_database = record database { entitlements = direct_row ∷ [] }

direct-KeepsCoverage_example :
    KeepsCoverage direct_database.entitlements
      (upsert_direct_whop_entitlement platform
        (text "c1")
        (text "p1")
        none
        (text "payment.refunded")
        (text "w1")
        none
        direct_database
        info
        active
        today).0.entitlements
direct-KeepsCoverage_example =
    direct-KeepsCoverage platform (text "c1") (text "p1") none (text "payment.refunded") (text "w1")
      none direct_database info active today (tt, tt)

granting_has_no_blocking_word_example :
    (is_cancel_at_period_end_event (text "payment.succeeded") ≡ false)
    × (contains_any revoke_words (combined_text (some (text "Active")) (text "payment.succeeded"))
        ≡ false)
    × (contains_any suspend_words (combined_text (some (text "Active")) (text "payment.succeeded"))
        ≡ false)
    × (is_one_of failed_events (dotted (lower (text "payment.succeeded"))) ≡ false)
    × (contains_any expire_words (combined_text (some (text "Active")) (text "payment.succeeded"))
        ≡ false)
unfolding program
granting_has_no_blocking_word_example =
    granting_has_no_blocking_word (some (text "Active")) (text "payment.succeeded") refl

revoke_iff_example : (kind_of_event (some (text "active")) (text "Refund.created") ≡ revoke) ↔ (
    contains_any revoke_words (combined_text (some (text "active")) (text "Refund.created")) ≡ true)
unfolding program
revoke_iff_example = revoke_iff (some (text "active")) (text "Refund.created") refl

abbrev cancel_request : GrantRequest
cancel_request = record request { event_type = text "membership.cancel_at_period_end_changed" }

cancel_at_period_end_unchanged_example :
    ((apply_whop_package_grant platform cancel_request database).0 ≡ database)
    × ((upsert_direct_whop_entitlement platform cancel_request.customer_id
          (text "p1")
          cancel_request.subscription_id
          cancel_request.event_type
          cancel_request.webhook_id
          cancel_request.ip_address
          database
          cancel_request.info
          cancel_request.status
          cancel_request.now).0
        ≡ database)
unfolding program
cancel_at_period_end_unchanged_example =
    cancel_at_period_end_unchanged platform cancel_request (text "p1") database refl

paid_target-IsLeast_example :
    (t : Datetime) × (entitlement_expiry_target renewal info (some 30) today ≡ some t)
    × IsLeast info.period_start info.expires_at 30 today t
paid_target-IsLeast_example = paid_target-IsLeast renewal info 30 today refl

payment_fingerprint_shared_example :
    grant_fingerprint platform (text "c1") (text "k1") (text "p1") info (text "w1") paid
    ≡ grant_fingerprint platform (text "c2") (text "k2") (text "p1") bare_info (text "w2") renewal
payment_fingerprint_shared_example =
    payment_fingerprint_shared platform (text "c1") (text "c2") (text "k1") (text "k2") (text "p1")
      info bare_info (text "w1") (text "w2") paid renewal refl refl refl refl

-- a suspension that meets access without expiry
abbrev lifetime : Entitlement
lifetime = record entitlement { expires_at = none }

abbrev lifetime_database : Database
lifetime_database = record database { entitlements = lifetime ∷ [] }

abbrev suspension : GrantRequest
suspension = record request { status = suspended; event_type = text "membership.paused" }

suspension_limits_lifetime_example :
    (e' : Entitlement) × (existing_row platform suspension
        (apply_whop_package_grant platform suspension lifetime_database).0
      ≡ some e')
    × (e'.expires_at ≡ some (iso (today + days 30)))
unfolding program
suspension_limits_lifetime_example =
    suspension_limits_lifetime platform suspension lifetime_database lifetime (tt, tt) refl
      (today + days 30) refl refl refl

-- a payment with an end of its period and no start, delivered again ten days after the coverage
abbrev late : GrantRequest
late = record request { info = record info { period_start = none }; now = today + days 20 }

abbrev late_row : LedgerRow
late_row = record {
  id = text "l1";
  customer_id = text "c1";
  package_id = some (text "k1");
  product_id = text "p1";
  subscription_id = none;
  entitlement_id = none;
  whop_event_id = text "w0";
  event_fingerprint = text "paid:payment:pay1:p1";
  grant_kind = paid;
  days_applied = 30;
  period_start = none;
  period_end = none;
  expires_at_before = none;
  expires_at_after = none;
  details = [];
  applied_at = 1;
}

abbrev late_database : Database
late_database = record database { license_grant_ledger = late_row ∷ [] }

late_redelivery_extends_example :
    (e' : Entitlement) × (existing_row platform late
        (apply_whop_package_grant platform late late_database).0
      ≡ some e')
    × (e'.expires_at ≡ some (iso (late.now + days 30)))
    × ((apply_whop_package_grant platform late late_database).1.days_applied ≡ 0)
unfolding program
late_redelivery_extends_example =
    late_redelivery_extends platform late late_database entitlement (tt, tt) refl 30
      (today + days 30) 1700864000 refl refl refl refl (omega arith) refl (omega arith) refl

subscriptions_advance_example :
    AllAdvance info.expires_at today database.subscriptions
      (upsert_whop_subscription
        (text "c1")
        info
        SubscriptionStatus.expired
        today
        platform
        database).0.subscriptions
subscriptions_advance_example =
    subscriptions_advance (text "c1") info SubscriptionStatus.expired today platform database

saved_periods_commute_example :
    ((saved
        (text "c1")
        bare_info
        SubscriptionStatus.expired
        today
        (saved (text "c1") info SubscriptionStatus.active today subscription)).current_period_start
      ≡ (saved (text "c1") info SubscriptionStatus.active today (
          saved
            (text "c1")
            bare_info
            SubscriptionStatus.expired
            today
            subscription)).current_period_start)
    × ((saved
          (text "c1")
          bare_info
          SubscriptionStatus.expired
          today
          (saved (text "c1") info SubscriptionStatus.active today subscription)).current_period_end
        ≡ (saved (text "c1") info SubscriptionStatus.active today (
            saved
              (text "c1")
              bare_info
              SubscriptionStatus.expired
              today
              subscription)).current_period_end)
saved_periods_commute_example =
    saved_periods_commute (text "c1") (text "c1") info bare_info SubscriptionStatus.active
      SubscriptionStatus.expired today today subscription
