-- ===== src/Grace.antt =====
-- app/services/grace_period_service.py: the daily move of subscriptions into grace and out of it.
pub mod Moved
use kasb_o_kar_hoshmand.Base.{
  Bool-cases, Option-cases, ℕ, ◌+◌, ◌≡◌, ◌≤◌, ◌<◌, ◌⊎◌, refl, inl, inr, Bool, true, false, ◌&&◌,
  none, some, List, [], ◌∷◌, ◌==◌, arith, leb, if◌then◌else◌, where_rows,
}
use kasb_o_kar_hoshmand.Base.Time.{Instant, hours}
use kasb_o_kar_hoshmand.Base.Table.{get_row, save, get_row-save}
use kasb_o_kar_hoshmand.Models.{
  ShopOwner-Keyed, Subscription-Keyed, Subscription, SubscriptionStatus, trial, active, grace,
  expired, Db, Result, Result-cases, ok, raised, attribute_error, ◌>>=◌,
}
use kasb_o_kar_hoshmand.Settings.{get_admin_settings}
use kasb_o_kar_hoshmand.Billing.Subscribe.{get_latest_subscription_by_owner_id}

-- the join with `max(id) GROUP BY shop_owner_id`: the latest of its owner
unfoldable pub is_latest : Db → Subscription → Bool
is_latest db s = elim (get_latest_subscription_by_owner_id s.shop_owner_id db) [
  | none ↦ false
  | some latest ↦ latest.id == s.id
]

abbrev pub is_running : SubscriptionStatus → Bool
is_running trial = true
is_running active = true
is_running grace = false
is_running expired = false

abbrev pub is_in_grace : SubscriptionStatus → Bool
is_in_grace grace = true
is_in_grace trial = false
is_in_grace active = false
is_in_grace expired = false

abbrev save_subscription : Subscription → Db → Db
save_subscription s db = record db { subscriptions = save s db.subscriptions }

-- `delivered telegram_id` says whether Telegram takes the message
module _ (delivered : ℕ → Bool) where
  -- the reminder, sent once; an owner that is missing has no `telegram_id` to read
  unfoldable pub remind_grace : Subscription → Db → Result Subscription
  remind_grace s db =
      if s.grace_reminder_sent then ok s else (elim (get_row s.shop_owner_id db.owners) [
        | none ↦ raised attribute_error
        | some o ↦
            ok (if delivered o.telegram_id then record s { grace_reminder_sent = true } else s)
      ])

  -- one round of the loop
  unfoldable pub move_one : Instant → ℕ → Subscription → Db → Result Db
  move_one now grace_hours s db =
      if is_running s.status && leb s.end_date now
      then (do s1 ← remind_grace (record s { status = grace }) db; ok (save_subscription s1 db))
      else if is_in_grace s.status && leb (s.end_date + hours grace_hours) now
      then ok (save_subscription (record s { status = expired }) db)
      else ok db

  unfoldable pub move_each : Instant → ℕ → List Subscription → Db → Result Db
  move_each now grace_hours [] db = ok db
  move_each now grace_hours (s ∷ ss) db = do
    db1 ← move_one now grace_hours s db
    move_each now grace_hours ss db1

  unfoldable pub process_grace_transitions : Instant → Db → Result Db
  process_grace_transitions now db =
      let (settings, db1) = get_admin_settings db in
      move_each now settings.grace_period_hours (where_rows (is_latest db1) db1.subscriptions) db1

  pub reminded_keeps :
      (s : Subscription) (db : Db) {s' : Subscription}
      → remind_grace s db ≡ ok s'
      → (s'.id ≡ s.id)
        × (s'.status ≡ s.status)
        × (s'.end_date ≡ s.end_date)
        × (s'.shop_owner_id ≡ s.shop_owner_id)
  unfolding remind_grace
  reminded_keeps s db {s'} e = elim (Bool-cases s.grace_reminder_sent) [
    | inl sent ↦ ground (arith, sent)
    | inr unsent ↦ elim (Option-cases (get_row s.shop_owner_id db.owners)) [
      | inl missing ↦ absurd (ground (arith, unsent, missing))
      | inr (o, found) ↦ ground (arith, unsent, found)
    ]
  ]
