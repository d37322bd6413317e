-- ===== src/Tests/Events.antt =====
-- The theorems on webhook events at concrete inputs: an event for a product that is mapped by its
-- own Whop id, one whose identifiers belong to two customers, and one whose grants raise.
use autoedge_licensing_serve.Prelude.{◌≡◌, ◌+◌, refl, true, none, some, List, [], ◌∷◌}
use autoedge_licensing_serve.Text.{text, contains, lower, replace_char, contains_any, same_text}
use autoedge_licensing_serve.Database.{Database, Customer}
use autoedge_licensing_serve.Whop.Event.{
  Event, grant_session, apply_grants, request_of, returned, duplicate_event, process_whop_event,
}
use autoedge_licensing_serve.Whop.Event.Once.{process_whop_event_once}
use autoedge_licensing_serve.Whop.Event.Failed.{HasFailed, process_whop_event_failed}
use autoedge_licensing_serve.Whop.Event.Replay.{grants_replay_unchanged}
use autoedge_licensing_serve.Time.{days}
use autoedge_licensing_serve.Whop.Status.{
  normalize_entitlement_status, grant_kind, is_cancel_at_period_end_event, is_one_of,
}
use autoedge_licensing_serve.Whop.Package.{PackageGrant}
use autoedge_licensing_serve.Whop.Package.Decide.{is_relative}
use autoedge_licensing_serve.Tests.{
  platform, today, customer, product, database, info, bare_info, request,
}

abbrev other_customer : Customer
other_customer = record customer {
  id = text "c2";
  whop_user_id = some (text "u2");
  email = none;
  email_normalized = none;
}

abbrev shop : Database
shop = record database {
  customers = customer ∷ other_customer ∷ [];
  products = record product { whop_product_id = some (text "prod") } ∷ [];
}

abbrev event : Event
event = record {
  event_type = text "payment.succeeded";
  webhook_id = text "w1";
  signature_valid = true;
  email = some (text "a@b");
  name = none;
  whop_user_id = none;
  whop_member_id = none;
  plan_id = none;
  product_id = some (text "prod");
  info = info;
  ip_address = none;
  raw_key = text "ABCDEFGHIJKLMNOPQRST";
  raises_in = none;
  now = today;
}

-- the email of one customer, and the Whop user of another
abbrev mixed_event : Event
mixed_event = record event { whop_user_id = some (text "u2") }

abbrev after : Event → Database
after e = (process_whop_event platform e (text "UNIQUE") shop).0

process_whop_event_once_example :
    process_whop_event platform mixed_event (text "") (after event)
    ≡ (after event, returned duplicate_event)
unfolding process_whop_event
process_whop_event_once_example =
    process_whop_event_once platform event mixed_event (text "UNIQUE") (text "") shop refl refl

-- the customer's name is written, and then the session of the grants raises
abbrev failing_event : Event
failing_event = record event { name = some (text "Ann"); raises_in = some grant_session }

process_whop_event_failed_example :
    HasFailed platform failing_event
      (text "locked")
      shop
      (process_whop_event platform failing_event (text "locked") shop).0
unfolding process_whop_event
process_whop_event_failed_example =
    process_whop_event_failed platform failing_event (text "locked") shop refl

-- a payment without a period, for a package with two products
abbrev bare_event : Event
bare_event = record event { info = bare_info }

abbrev two_grants : List PackageGrant
two_grants =
    request.grant
    ∷ record { product_id = text "p2"; product_name = text "Solo"; days = some 7 }
    ∷ []

abbrev bare_again : Event
bare_again = record bare_event { webhook_id = text "w2"; now = today + days 3 }

abbrev granted : Database
granted =
    (apply_grants platform bare_event
      (request_of platform bare_event customer request.whop_package none) two_grants shop).0

grants_replay_unchanged_example :
    (apply_grants platform bare_again
      (request_of platform bare_again customer request.whop_package none)
      two_grants
      granted).0
    ≡ granted
unfolding is_relative normalize_entitlement_status grant_kind is_cancel_at_period_end_event contains
    lower replace_char contains_any is_one_of same_text
grants_replay_unchanged_example =
    grants_replay_unchanged platform bare_event (text "w2") (today + days 3) customer
      request.whop_package none two_grants shop (refl, (refl, tt))
