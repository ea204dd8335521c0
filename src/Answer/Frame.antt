-- ===== src/Answer/Frame.antt =====
-- The tables that a payment for an answer, in app/bots/shop_bot/handlers/customer.py, leaves alone.
use kasb_o_kar_hoshmand.Base.{
  ℕ, ◌-◌, min, ◌≡◌, refl, inl, inr, String, Bool, Option, none, List, [], ◌∷◌, arith,
}
use kasb_o_kar_hoshmand.Base.Int.{ℤ, pos, pos_part, neg}
use kasb_o_kar_hoshmand.Base.Time.{Instant}
use kasb_o_kar_hoshmand.Models.{
  ShopOwner-Keyed, AdminSettings, WalletCharge, WalletTransactionReason, Db, Result-cases, ok,
}
use kasb_o_kar_hoshmand.Settings.{get_admin_settings}
use kasb_o_kar_hoshmand.Wallet.Charge.{apply_balance_delta, add_transaction}
use kasb_o_kar_hoshmand.Wallet.Deduct.{deductible, take_from, drain, deduct}
use kasb_o_kar_hoshmand.Wallet.Notify.{
  try_claim_empty_notification, try_claim_low_balance_notification,
}
use kasb_o_kar_hoshmand.Access.{notify_owner, deduct_and_notify}

-- Two databases with the same goods, orders and customers.
abbrev pub SameGoods : Db → Db → Type 0
SameGoods db db' =
    (db'.products ≡ db.products) × (db'.orders ≡ db.orders) × (db'.customers ≡ db.customers)

drain-SameGoods :
    (i : ℕ) (reason : WalletTransactionReason) (reference : Option String) (cs : List WalletCharge)
    (left : ℕ) (db : Db)
    → SameGoods db (drain i reason reference cs left db).1
unfolding drain take_from add_transaction
drain-SameGoods i reason reference [] left db = (refl, refl, refl)
drain-SameGoods i reason reference (c ∷ cs) left db =
    let amount = min c.remaining_toman left in
    ground (
      arith,
      drain-SameGoods i reason reference cs (left - amount)
          (take_from i reason reference c amount db),
    )

apply_balance_delta-SameGoods :
    (i : ℕ) (delta : ℤ) (db : Db) {db' : Db}
    → apply_balance_delta i delta db ≡ ok db'
    → SameGoods db db'
unfolding apply_balance_delta
apply_balance_delta-SameGoods i delta db e = ground arith

deduct-SameGoods :
    (i : ℕ) (amount : ℤ) (reason : WalletTransactionReason) (reference : Option String) (db : Db)
    {done : Bool} {db' : Db}
    → deduct i amount reason reference db ≡ ok (done, db')
    → SameGoods db db'
unfolding deduct
deduct-SameGoods i amount reason reference db {done} {db'} e =
    let want = pos_part amount in
    let drained = (drain i reason reference (deductible i db) want db).1 in
    let kept = drain-SameGoods i reason reference (deductible i db) want db in
    elim (Result-cases (apply_balance_delta i (neg want) drained)) [
      | inr (x, failed) ↦ ground (arith, kept, failed)
      | inl (db2, paid) ↦
          ground (arith, kept, paid, apply_balance_delta-SameGoods i (neg want) drained {db' = db2})
    ]

notify_owner-SameGoods :
    (now : Instant) (settings : AdminSettings) (i : ℕ) (db : Db)
    → SameGoods db (notify_owner now settings i db)
unfolding notify_owner try_claim_empty_notification try_claim_low_balance_notification
notify_owner-SameGoods now settings i db = ground arith

pub deduct_and_notify-SameGoods :
    (now : Instant) (settings : AdminSettings) (i amount : ℕ) (reason : WalletTransactionReason)
    (db : Db) {db' : Db}
    → deduct_and_notify now settings i amount reason db ≡ ok db'
    → SameGoods db db'
unfolding deduct_and_notify
deduct_and_notify-SameGoods now settings i amount reason db {db'} e =
    elim (Result-cases (deduct i (pos amount) reason none db)) [
      | inr (x, failed) ↦ absurd (ground (arith, failed))
      | inl ((done, db1), step) ↦ ground (
        arith,
        step,
        deduct-SameGoods i (pos amount) reason none db step,
        notify_owner-SameGoods now settings i db1,
      )
    ]

pub settings-SameGoods : (db : Db) → SameGoods db (get_admin_settings db).1
unfolding get_admin_settings
settings-SameGoods db = ground arith
