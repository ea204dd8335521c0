-- ===== src/Jobs.antt =====
-- The periodic jobs: app/services/report_service.py, app/services/order_expiry_service.py, and
-- `run_periodic_tasks` of app/services/scheduler.py, which runs them in turn. `delivered` says whether
-- Telegram takes a message to a user. The reports' text is left out.
pub mod Wallets
pub mod Frames
pub mod Rounds
mod Examples
use kasb_o_kar_hoshmand.Base.{
  ℕ, ◌+◌, Bool, true, false, Option, none, some, List, [], ◌∷◌, leb, if◌then◌else◌,
}
use kasb_o_kar_hoshmand.Base.Time.{Instant, days}
use kasb_o_kar_hoshmand.Base.Table.{get_row, save}
use kasb_o_kar_hoshmand.Models.{
  ShopOwner-Keyed, ShopBot-Keyed, ShopBot, OrderConsultation, Db, Result, ok, raised,
  attribute_error, telegram_error, ◌>>=◌,
}
use kasb_o_kar_hoshmand.Settings.{get_admin_settings}
use kasb_o_kar_hoshmand.Shops.Bots.{get_all_active}
use kasb_o_kar_hoshmand.Grace.{process_grace_transitions}
use kasb_o_kar_hoshmand.Wallet.Remind.{process_wallet_expiry_and_reminders}
use kasb_o_kar_hoshmand.Orders.Customer.{expire_stale_customer_confirmations}
use kasb_o_kar_hoshmand.Orders.Owner.{expire_stale_reservations}
use kasb_o_kar_hoshmand.Chat.Conversations.{prune_old_messages}

-- `now - last_report_sent_at >= frequency`
abbrev pub report_due : Instant → ℕ → Option Instant → Bool
report_due now frequency none = true
report_due now frequency (some last) = leb (last + days frequency) now

-- the orders whose reservation ended, and the tables; the notices change nothing
unfoldable pub process_order_expiry : Instant → Db → List OrderConsultation × Db
process_order_expiry now db =
    let (settings, db1) = get_admin_settings db in
    let (stale, db2) =
      expire_stale_customer_confirmations now settings.order_customer_confirmation_timeout_minutes
        db1 in
    expire_stale_reservations now db2

module _ (delivered : ℕ → Bool) where
  -- an owner that is missing has no `telegram_id` to read
  unfoldable pub send_report : Instant → ShopBot → Db → Result Db
  send_report now b db = elim (get_row b.shop_owner_id db.owners) [
    | none ↦ raised attribute_error
    | some owner ↦ ok (
        if delivered owner.telegram_id
        then record db {
          shop_bots = save (record b { last_report_sent_at = some now }) db.shop_bots;
        }
        else db)
  ]

  unfoldable pub send_each : Instant → ℕ → List ShopBot → Db → Result Db
  unfolding send_report
  send_each now frequency [] db = ok db
  send_each now frequency (b ∷ bs) db = do
    db1 ← if report_due now frequency b.last_report_sent_at then send_report now b db else ok db
    send_each now frequency bs db1

  unfoldable pub send_due_reports : Instant → Db → Result Db
  unfolding send_each
  send_due_reports now db =
      let (settings, db1) = get_admin_settings db in
      send_each now settings.periodic_report_frequency_days (get_all_active db1) db1

-- One job, in a session of its own.
abbrev pub Job : Type 0
Job = Db → Result Db

abbrev pub prune_job : Instant → Db → Db
prune_job now db =
    let (settings, db1) = get_admin_settings db in
    (prune_old_messages now settings.conversation_retention_days db1).1

-- What a round meets: when it begins, which users Telegram takes a message to in it, and which of its
-- jobs, counted from 0, are broken off by an exception from outside the program, as of the database or
-- of the network.
pub record Round : Type 0 where
  pub now : Instant
  pub delivered : ℕ → Bool
  pub breaks : ℕ → Bool

-- the jobs in their order
unfoldable pub jobs_of : Round → List Job
unfolding send_due_reports process_order_expiry
jobs_of r =
    process_grace_transitions r.delivered r.now
    ∷ send_due_reports r.delivered r.now
    ∷ (λ db. ok (process_wallet_expiry_and_reminders r.delivered r.now db))
    ∷ (λ db. ok (process_order_expiry r.now db).1)
    ∷ (λ db. ok (prune_job r.now db))
    ∷ []

-- Each job commits its own session; the first that raises is rolled back and ends the round. `k` is
-- the number of the first job.
unfoldable pub run_jobs : (ℕ → Bool) → ℕ → List Job → Db → Db
run_jobs breaks k [] db = db
run_jobs breaks k (job ∷ jobs) db = elim (if breaks k then raised telegram_error else job db) [
  | raised e ↦ db
  | ok db1 ↦ run_jobs breaks (k + 1) jobs db1
]

unfoldable pub run_round : Round → Db → Db
unfolding run_jobs jobs_of
run_round r db = run_jobs r.breaks 0 (jobs_of r) db

-- The rounds, until the event that stops them.
unfoldable pub run_periodic_tasks : List Round → Db → Db
unfolding run_round
run_periodic_tasks [] db = db
run_periodic_tasks (r ∷ later) db = run_periodic_tasks later (run_round r db)
