-- ===== src/Whop/Subscription/Periods.antt =====
-- The periods of subscriptions under the events of their memberships.
use autoedge_licensing_serve.Prelude.{
  ◌≤◌, ◌*◌, ◌≡◌, ◌⊎◌, inl, inr, refl, Bool, true, false, Option, none, some, List, [], ◌∷◌, ◌++◌,
  arith, Bool-cases, update_where,
}
use autoedge_licensing_serve.Text.{Text, is_truthy}
use autoedge_licensing_serve.Time.{Datetime, Stamp, iso_optional, parse_stamp, later_time, second}
use autoedge_licensing_serve.Database.{Platform, Database, Subscription}
use autoedge_licensing_serve.Whop.Status.{SubscriptionStatus}
use autoedge_licensing_serve.Whop.Expiry.{SubscriptionInfo}
use autoedge_licensing_serve.Whop.Subscription.{
  saved, is_expired_status, stale_terminal_update, existing_sub, write_subscription,
  upsert_whop_subscription,
}

-- a time that is known stays known, and does not go back
abbrev pub NotBack : Option Stamp → Option Stamp → Type 0
NotBack none t = Unit
NotBack (some s) none = ⊥
NotBack (some s) (some t) = s ≤ t

NotBack-refl : (o : Option Stamp) → NotBack o o
NotBack-refl none = tt
NotBack-refl (some s) = omega arith

NotBack-later :
    (o : Option Stamp) (t : Option Datetime)
    → NotBack o (iso_optional (later_time (parse_stamp o) t))
NotBack-later none t = tt
NotBack-later (some s) none = ground arith
NotBack-later (some s) (some t) = ground arith

abbrev pub ExpiredStatus : Subscription → Type 0
ExpiredStatus s = is_expired_status s.status ≡ true

-- the end that an event brings, or else the present, is not before the end that is stored
abbrev pub IsNews : Option Stamp → Option Datetime → Datetime → Type 0
IsNews none incoming_end now = Unit
IsNews (some s) none now = s * second ≤ now
IsNews (some s) (some t) now = s * second ≤ t

not_stale-IsNews :
    (o : Option Stamp) (e : Option Datetime) (now : Datetime)
    → stale_terminal_update SubscriptionStatus.expired (parse_stamp o) e now ≡ false
    → IsNews o e now
unfolding stale_terminal_update
not_stale-IsNews none e now h = tt
not_stale-IsNews (some s) none now h = ground arith
not_stale-IsNews (some s) (some t) now h = ground arith

-- What one event may do to one row: it keeps its id and its membership, its period's bounds do
-- not go back, and it becomes expired only if the event's end is not before the stored one, or if
-- the event has no end and the stored one has passed.
abbrev pub Advances : Option Datetime → Datetime → Subscription → Subscription → Type 0
Advances incoming_end now s t =
    (s.id ≡ t.id)
    × (s.whop_membership_id ≡ t.whop_membership_id)
    × NotBack s.current_period_start t.current_period_start
    × NotBack s.current_period_end t.current_period_end
    × (ExpiredStatus t → ExpiredStatus s ⊎ IsNews s.current_period_end incoming_end now)

abbrev pub AllAdvance : Option Datetime → Datetime → List Subscription → List Subscription → Type 0
AllAdvance incoming_end now [] rows = Unit
AllAdvance incoming_end now (s ∷ rows) [] = ⊥
AllAdvance incoming_end now (s ∷ rows) (t ∷ rows') =
    Advances incoming_end now s t × AllAdvance incoming_end now rows rows'

Advances-refl : (e : Option Datetime) (now : Datetime) (s : Subscription) → Advances e now s s
Advances-refl e now s =
    (refl, refl, NotBack-refl s.current_period_start, NotBack-refl s.current_period_end, λ h. inl h)

AllAdvance-refl :
    (e : Option Datetime) (now : Datetime) (rows : List Subscription) → AllAdvance e now rows rows
AllAdvance-refl e now [] = tt
AllAdvance-refl e now (s ∷ rows) = (Advances-refl e now s, AllAdvance-refl e now rows)

AllAdvance-insert :
    (e : Option Datetime) (now : Datetime) (rows : List Subscription) (t : Subscription)
    → AllAdvance e now rows (rows ++ t ∷ [])
AllAdvance-insert e now [] t = tt
AllAdvance-insert e now (s ∷ rows) t = (Advances-refl e now s, AllAdvance-insert e now rows t)

AllAdvance-update :
    (e : Option Datetime) (now : Datetime) (test : Subscription → Bool)
    (f : Subscription → Subscription) (rows : List Subscription)
    → ((s : Subscription) → Advances e now s (f s))
    → AllAdvance e now rows (update_where test f rows)
AllAdvance-update e now test f [] h = tt
AllAdvance-update e now test f (s ∷ rows) h = elim (Bool-cases (test s)) [
  | inl hit ↦ rw hit (h s, AllAdvance-update e now test f rows h)
  | inr miss ↦ rw miss (Advances-refl e now s, AllAdvance-update e now test f rows h)
]

module _ (customer_id : Text) (info : SubscriptionInfo) (sub_status : SubscriptionStatus)
    (now : Datetime) where
  saved-Advances :
      (s : Subscription) → Advances info.expires_at now s (saved customer_id info sub_status now s)
  unfolding saved stale_terminal_update
  saved-Advances s = (
    refl,
    refl,
    NotBack-later s.current_period_start info.period_start,
    NotBack-later s.current_period_end info.expires_at,
    λ h.
        elim (Bool-cases (
          stale_terminal_update SubscriptionStatus.expired (parse_stamp s.current_period_end)
            info.expires_at now)) [
              | inl stale ↦ inl (ground arith)
              | inr fresh ↦ inr (not_stale-IsNews s.current_period_end info.expires_at now fresh)
            ],
  )

  write-AllAdvance :
      (p : Platform) (db : Database) (existing : Option Subscription)
      → AllAdvance info.expires_at now db.subscriptions
          (write_subscription customer_id info sub_status now p db existing).0.subscriptions
  unfolding write_subscription
  write-AllAdvance p db none = AllAdvance-insert info.expires_at now db.subscriptions _
  write-AllAdvance p db (some s) =
      AllAdvance-update info.expires_at now _ _ db.subscriptions saved-Advances

  -- After an event every subscription is still in its place under its id and its membership, the
  -- bounds of its period that were known do not go back, and it has become expired only by an
  -- event whose end is not before the one that was stored, or that has no end when the stored one
  -- has passed or is not known.
  pub subscriptions_advance :
      (p : Platform) (db : Database)
      → AllAdvance info.expires_at now db.subscriptions
          (upsert_whop_subscription customer_id info sub_status now p db).0.subscriptions
  unfolding upsert_whop_subscription
  subscriptions_advance p db = elim (Bool-cases (is_truthy info.membership_id)) [
    | inl known ↦ rw known (write-AllAdvance p db (existing_sub customer_id info sub_status now db))
    | inr unknown ↦ rw unknown (AllAdvance-refl info.expires_at now db.subscriptions)
  ]

latest_commutes :
    (o : Option Stamp) (a b : Option Datetime)
    → iso_optional (later_time (parse_stamp (iso_optional (later_time (parse_stamp o) a))) b)
      ≡ iso_optional (later_time (parse_stamp (iso_optional (later_time (parse_stamp o) b))) a)
latest_commutes none none none = refl
latest_commutes none none (some b) = ground arith
latest_commutes none (some a) none = ground arith
latest_commutes none (some a) (some b) = ground arith
latest_commutes (some s) none none = ground arith
latest_commutes (some s) none (some b) = ground arith
latest_commutes (some s) (some a) none = ground arith
latest_commutes (some s) (some a) (some b) = ground arith

-- Two events of a membership leave the same period in whichever order they come, and whatever
-- else they say.
pub saved_periods_commute :
    (c d : Text) (i j : SubscriptionInfo) (u v : SubscriptionStatus) (m n : Datetime)
    (s : Subscription)
    → ((saved d j v n (saved c i u m s)).current_period_start
        ≡ (saved c i u m (saved d j v n s)).current_period_start)
      × ((saved d j v n (saved c i u m s)).current_period_end
          ≡ (saved c i u m (saved d j v n s)).current_period_end)
unfolding saved
saved_periods_commute c d i j u v m n s = (
  latest_commutes s.current_period_start i.period_start j.period_start,
  latest_commutes s.current_period_end i.expires_at j.expires_at,
)
