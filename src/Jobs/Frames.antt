-- ===== src/Jobs/Frames.antt =====
-- What each job of a round, in app/services/scheduler.py, leaves alone.
use kasb_o_kar_hoshmand.Base.{
  ℕ, ◌≡◌, refl, inl, inr, Bool, ◌+◌, List, [], ◌∷◌, arith, Bool-cases, Option-cases, where_rows,
}
use kasb_o_kar_hoshmand.Base.Time.{Instant}
use kasb_o_kar_hoshmand.Base.Table.{get_row}
use kasb_o_kar_hoshmand.Models.{
  ShopOwner-Keyed, Subscription, grace, WalletCharge, ShopBot, OrderConsultation, OrderStatus, Db,
  Result-cases, ok,
}
use kasb_o_kar_hoshmand.Settings.{get_admin_settings}
use kasb_o_kar_hoshmand.Grace.{remind_grace, move_one, move_each, process_grace_transitions}
use kasb_o_kar_hoshmand.Wallet.Charge.{add_transaction}
use kasb_o_kar_hoshmand.Wallet.Expire.{
  is_stale, lower_balance, expire_charge, expire_all, expire_stale_charges,
}
use kasb_o_kar_hoshmand.Wallet.Remind.{
  mark_reminder_sent, send_reminders, find_charges_needing_reminder,
  process_wallet_expiry_and_reminders,
}
use kasb_o_kar_hoshmand.Wallet.Reach as Wallet
use kasb_o_kar_hoshmand.Orders.Owner.{
  release_reservation, unreserve, expire_order, expire_each, is_lapsed, expire_stale_reservations,
}
use kasb_o_kar_hoshmand.Orders.Customer.{
  save_order, cancel_all, is_unanswered, expire_stale_customer_confirmations,
}
use kasb_o_kar_hoshmand.Orders.Reach as Orders
use kasb_o_kar_hoshmand.Chat.Conversations.{prune_old_messages}
use kasb_o_kar_hoshmand.Billing.Frame.{SameWallets, SameWallets-IsSound, settings-SameWallets}
use kasb_o_kar_hoshmand.Answer.Frame.{SameGoods, settings-SameGoods}
use kasb_o_kar_hoshmand.Jobs.{
  report_due, process_order_expiry, send_report, send_each, send_due_reports,
}

-- The invariants of the wallets and of the orders.
pub record IsSound (db : Db) : Type 0 where
  pub wallets : Wallet.IsSound db
  pub orders : Orders.IsSound db

pub SameGoods-IsSound : (db db' : Db) → SameGoods db db' → Orders.IsSound db → Orders.IsSound db'
SameGoods-IsSound db db' same h = record {
  unique = rw same.1 h.unique;
  rule = record {
    reserved = λ i. rw same.0 (rw same.1 (h.rule.reserved i));
    pending = λ i. rw same.1 (h.rule.pending i);
  };
}

-- what leaves the wallets, the goods and the orders alone
abbrev Keeps : Db → Db → Type 0
Keeps db db' = SameWallets db db' × SameGoods db db'

pub Keeps-IsSound : (db db' : Db) → Keeps db db' → IsSound db → IsSound db'
Keeps-IsSound db db' k h = record {
  wallets = SameWallets-IsSound db db' k.0 h.wallets;
  orders = SameGoods-IsSound db db' k.1 h.orders;
}

Keeps-trans : (a b c : Db) → Keeps a b → Keeps b c → Keeps a c
Keeps-trans a b c h k = ground (arith, h, k)

pub settings-Keeps : (db : Db) → Keeps db (get_admin_settings db).1
settings-Keeps db = (settings-SameWallets db, settings-SameGoods db)

expire_all-SameGoods :
    (cs : List WalletCharge) (n : ℕ) (db : Db) → SameGoods db (expire_all cs n db).1
unfolding expire_all expire_charge lower_balance add_transaction
expire_all-SameGoods [] n db = (refl, refl, refl)
expire_all-SameGoods (c ∷ cs) n db = elim (Option-cases (get_row c.shop_owner_id db.owners)) [
  | inl missing ↦ rw (missing, expire_all) (expire_all-SameGoods cs n db)
  | inr (o, found) ↦ rw (found, expire_all) (expire_all-SameGoods cs (n + 1) (expire_charge o c db))
]

cancel_all-SameWallets : (os : List OrderConsultation) (db : Db) → SameWallets db (cancel_all os db)
unfolding cancel_all
cancel_all-SameWallets [] db = (refl, refl, refl)
cancel_all-SameWallets (o ∷ os) db =
    cancel_all-SameWallets os (save_order (record o { status = OrderStatus.cancelled }) db)

expire_order-SameWallets : (o : OrderConsultation) (db : Db) → SameWallets db (expire_order o db)
unfolding expire_order release_reservation unreserve
expire_order-SameWallets o db = ground arith

expire_each-SameWallets :
    (os : List OrderConsultation) (db : Db) → SameWallets db (expire_each os db)
unfolding expire_each
expire_each-SameWallets [] db = (refl, refl, refl)
expire_each-SameWallets (o ∷ os) db =
    ground (arith, expire_order-SameWallets o db, expire_each-SameWallets os (expire_order o db))

module _ (delivered : ℕ → Bool) where
  move_one-Keeps :
      (now : Instant) (n : ℕ) (s : Subscription) (db : Db) {db' : Db}
      → move_one delivered now n s db ≡ ok db'
      → Keeps db db'
  unfolding move_one
  move_one-Keeps now n s db {db'} e =
      elim (Result-cases (remind_grace delivered (record s { status = grace }) db)) [
        | inr (x, failed) ↦ ground (arith, failed)
        | inl (s1, reminded) ↦ ground (arith, reminded)
      ]

  move_each-Keeps :
      (now : Instant) (n : ℕ) (ss : List Subscription) (db : Db) {db' : Db}
      → move_each delivered now n ss db ≡ ok db'
      → Keeps db db'
  unfolding move_each
  move_each-Keeps now n [] db {db'} e = ground (arith, e)
  move_each-Keeps now n (s ∷ ss) db {db'} e = elim (Result-cases (move_one delivered now n s db)) [
    | inr (x, failed) ↦ absurd (ground (arith, failed))
    | inl (db1, moved) ↦
        Keeps-trans db db1 db' (move_one-Keeps now n s db moved)
          (move_each-Keeps now n ss db1 {db' = db'} (ground (arith, moved, e)))
  ]

  pub grace-Keeps :
      (now : Instant) (db : Db) {db' : Db}
      → process_grace_transitions delivered now db ≡ ok db'
      → Keeps db db'
  unfolding process_grace_transitions
  grace-Keeps now db {db'} e =
      Keeps-trans db (get_admin_settings db).1 db' (settings-Keeps db)
        (move_each-Keeps now _ _ (get_admin_settings db).1 e)

  send_report-Keeps :
      (now : Instant) (b : ShopBot) (db : Db) {db' : Db}
      → send_report delivered now b db ≡ ok db'
      → Keeps db db'
  unfolding send_report
  send_report-Keeps now b db {db'} e = elim (Option-cases (get_row b.shop_owner_id db.owners)) [
    | inl missing ↦ absurd (ground (arith, missing))
    | inr (o, found) ↦ ground (arith, found)
  ]

  send_each-Keeps :
      (now : Instant) (n : ℕ) (bs : List ShopBot) (db : Db) {db' : Db}
      → send_each delivered now n bs db ≡ ok db'
      → Keeps db db'
  unfolding send_each
  send_each-Keeps now n [] db {db'} e = ground (arith, e)
  send_each-Keeps now n (b ∷ bs) db {db'} e =
      elim (Bool-cases (report_due now n b.last_report_sent_at)) [
        | inr early ↦ send_each-Keeps now n bs db {db' = db'} (ground (arith, early, e))
        | inl due ↦ elim (Result-cases (send_report delivered now b db)) [
          | inr (x, failed) ↦ absurd (ground (arith, due, failed))
          | inl (db1, sent) ↦
              Keeps-trans db db1 db' (send_report-Keeps now b db sent)
                (send_each-Keeps now n bs db1 {db' = db'} (ground (arith, due, sent, e)))
        ]
      ]

  pub reports-Keeps :
      (now : Instant) (db : Db) {db' : Db}
      → send_due_reports delivered now db ≡ ok db'
      → Keeps db db'
  unfolding send_due_reports
  reports-Keeps now db {db'} e =
      Keeps-trans db (get_admin_settings db).1 db' (settings-Keeps db)
        (send_each-Keeps now _ _ (get_admin_settings db).1 e)

  send_reminders-SameGoods :
      (due : List (WalletCharge × ℕ)) (db : Db) → SameGoods db (send_reminders delivered due db)
  unfolding send_reminders mark_reminder_sent
  send_reminders-SameGoods [] db = (refl, refl, refl)
  send_reminders-SameGoods ((c, d) ∷ due) db =
      elim (Option-cases (get_row c.shop_owner_id db.owners)) [
        | inl missing ↦ rw (missing, send_reminders) (send_reminders-SameGoods due db)
        | inr (o, found) ↦
            rw (found, send_reminders)
              (elim (Bool-cases (delivered o.telegram_id)) [
                | inl sent ↦ rw sent (send_reminders-SameGoods due (mark_reminder_sent c d db))
                | inr lost ↦ rw lost (send_reminders-SameGoods due db)
              ])
      ]

  pub wallet_job-SameGoods :
      (now : Instant) (db : Db)
      → SameGoods db (process_wallet_expiry_and_reminders delivered now db)
  unfolding process_wallet_expiry_and_reminders expire_stale_charges
  wallet_job-SameGoods now db =
      let db1 = (expire_stale_charges now db).1 in
      ground (
        arith,
        expire_all-SameGoods (where_rows (is_stale now) db.charges) 0 db,
        send_reminders-SameGoods (find_charges_needing_reminder now db1) db1,
      )

pub order_job-SameWallets :
    (now : Instant) (db : Db) → SameWallets db (process_order_expiry now db).1
unfolding process_order_expiry expire_stale_customer_confirmations expire_stale_reservations
order_job-SameWallets now db =
    let (settings, db1) = get_admin_settings db in
    let timeout = settings.order_customer_confirmation_timeout_minutes in
    let db2 = (expire_stale_customer_confirmations now timeout db1).1 in
    ground (
      arith,
      settings-SameWallets db,
      cancel_all-SameWallets (where_rows (is_unanswered now timeout) db1.orders) db1,
      expire_each-SameWallets (where_rows (is_lapsed now) db2.orders) db2,
    )

pub prune-Keeps : (now : Instant) (n : ℕ) (db : Db) → Keeps db (prune_old_messages now n db).1
unfolding prune_old_messages
prune-Keeps now n db = ground arith
