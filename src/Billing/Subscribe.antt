-- ===== src/Billing/Subscribe.antt =====
-- app/services/subscription_service.py: periods of subscription, one row each.
use mathlib.Core.List.{reverse}
use kasb_o_kar_hoshmand.Base.{
  ℕ, ◌+◌, Bool, true, false, Option, none, some, [], ◌∷◌, ◌++◌, ltb, leb, ◌==◌, if◌then◌else◌,
  where_rows, sort_on, head_of, is_some,
}
use kasb_o_kar_hoshmand.Base.Time.{Instant, days, hours}
use kasb_o_kar_hoshmand.Base.Table.{next_key}
use kasb_o_kar_hoshmand.Models.{
  Subscription-Keyed, Subscription, SubscriptionStatus, Db, Result, ok, raised, type_error,
}
use kasb_o_kar_hoshmand.Settings.{get_admin_settings}

abbrev pub trial_duration_days : ℕ
trial_duration_days = 7

-- `ORDER BY id DESC LIMIT 1`
unfoldable pub get_latest_subscription_by_owner_id : ℕ → Db → Option Subscription
get_latest_subscription_by_owner_id owner_id db =
    head_of (
      reverse
        (sort_on (λ s. s.id) (where_rows (λ s. s.shop_owner_id == owner_id) db.subscriptions)))

unfoldable pub has_ever_had_subscription : ℕ → Db → Bool
has_ever_had_subscription owner_id db = is_some (get_latest_subscription_by_owner_id owner_id db)

-- `Subscription(...)` with its column defaults
unfoldable pub new_subscription :
    ℕ → ℕ → SubscriptionStatus → ℕ → Bool → Instant → Instant → Subscription
new_subscription id owner_id status months is_trial start_date end_date = record {
  id = id;
  shop_owner_id = owner_id;
  status = status;
  duration_months = months;
  is_trial = is_trial;
  start_date = start_date;
  end_date = end_date;
  grace_reminder_sent = false;
}

unfoldable pub add_subscription : Subscription → Db → Subscription × Db
add_subscription s db = (s, record db { subscriptions = db.subscriptions ++ s ∷ [] })

unfoldable pub activate_trial : Instant → ℕ → Db → Subscription × Db
activate_trial now owner_id db =
    add_subscription
      (new_subscription (next_key db.subscriptions) owner_id SubscriptionStatus.trial 0 true now
        (now + days trial_duration_days))
      db

-- the end of the latest period if that is ahead, or else now
unfoldable pub start_of : Instant → ℕ → Db → Instant
start_of now owner_id db = elim (get_latest_subscription_by_owner_id owner_id db) [
  | none ↦ now
  | some latest ↦ if ltb now latest.end_date then latest.end_date else now
]

unfoldable pub extend_by_days : Instant → ℕ → ℕ → Db → Subscription × Db
extend_by_days now owner_id number db =
    let start = start_of now owner_id db in
    add_subscription
      (new_subscription (next_key db.subscriptions) owner_id SubscriptionStatus.active 0 false start
        (start + days number))
      db

unfoldable pub is_shop_usable : Instant → ℕ → Db → Bool × Db
is_shop_usable now owner_id db =
    let (settings, db1) = get_admin_settings db in
    elim (get_latest_subscription_by_owner_id owner_id db1) [
      | none ↦ (false, db1)
      | some latest ↦ (leb now (latest.end_date + hours settings.grace_period_hours), db1)
    ]

-- `plus_months t n` is `t + relativedelta(months=n)`, of the package dateutil. Without a number of
-- months `relativedelta` raises a TypeError.
module _ (plus_months : Instant → ℕ → Instant) where
  unfoldable pub purchase_or_renew : Instant → ℕ → Option ℕ → Db → Result (Subscription × Db)
  purchase_or_renew now owner_id none db = raised type_error
  purchase_or_renew now owner_id (some months) db =
      let start = start_of now owner_id db in
      ok (
        add_subscription
          (new_subscription (next_key db.subscriptions) owner_id SubscriptionStatus.active months
            false start (plus_months start months))
          db)
