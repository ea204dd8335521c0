-- ===== src/Billing/Approve.antt =====
-- Approval in app/services/payment_service.py, and the buttons of the main bot's administrators in
-- app/bots/main_bot/handlers/admin.py that lead to it.
use kasb_o_kar_hoshmand.Base.{
  ℕ, String, Bool, true, false, not, Option, none, some, if◌then◌else◌, ◌==◌,
}
use kasb_o_kar_hoshmand.Base.Int.{pos}
use kasb_o_kar_hoshmand.Base.Time.{Instant}
use kasb_o_kar_hoshmand.Base.Table.{get_row}
use kasb_o_kar_hoshmand.Models.{
  ShopOwner-Keyed, Payment, PaymentStatus, wallet_topup, subscription, Subscription, WalletCharge,
  topup, Db, Result, ok, raised, value_error, attribute_error, key_error, telegram_error, ◌>>=◌,
}
use kasb_o_kar_hoshmand.Wallet.Charge.{add_charge}
use kasb_o_kar_hoshmand.Billing.Discount.{record_usage}
use kasb_o_kar_hoshmand.Billing.Subscribe.{purchase_or_renew}
use kasb_o_kar_hoshmand.Billing.Reward.{RewardInfo, process_referral_reward}
use kasb_o_kar_hoshmand.Billing.Pay.{
  get_by_id, is_pending, is_first_approved_payment, save_payment, reject_payment,
}

-- what an approved payment gave
pub data Effect : Type 0 where
  renewed : Subscription → Effect
  charged : WalletCharge → Effect

-- `add_charge` reads the amount before it reads `owner.id`
unfoldable pub credit_payment : Instant → Payment → Db → Result (Effect × Db)
credit_payment now p db = elim (get_row p.shop_owner_id db.owners) [
  | none ↦ if p.final_amount == 0 then raised value_error else raised attribute_error
  | some o ↦ (do
    (charge, db1) ← add_charge now o.id (pos p.final_amount) topup (some p.id) none none db
    ok (charged charge, db1))
]

-- `if payment.discount_code_id is not None: await record_usage(...)`
unfoldable pub use_discount : Payment → Db → Result Db
use_discount p db = elim p.discount_code_id [
  | none ↦ ok db
  | some code_id ↦ record_usage code_id p.shop_owner_id p.id db
]

-- the first approved payment of an owner may earn a commission
unfoldable pub reward_first : Bool → Instant → Payment → Db → Result (Option RewardInfo × Db)
reward_first first now p db =
    if first then process_referral_reward now p.shop_owner_id p.final_amount db else ok (none, db)

-- `plus_months` is the sum with a `relativedelta`
module _ (plus_months : Instant → ℕ → Instant) where
  unfoldable pub apply_payment_effect : Instant → Payment → Db → Result (Effect × Db)
  unfolding credit_payment
  apply_payment_effect now p db = elim p.purpose [
    | wallet_topup ↦ credit_payment now p db
    | subscription ↦ (do
      (s, db1) ← purchase_or_renew plus_months now p.shop_owner_id p.duration_months db
      ok (renewed s, db1))
  ]

  -- The body that the three functions of approval share: `p` is the payment as it was, `p1` as
  -- they write it.
  unfoldable pub settle :
      Instant → Payment → Payment → Db → Result ((Effect × Option RewardInfo) × Db)
  unfolding use_discount reward_first
  settle now p p1 db =
      let first = is_first_approved_payment p.shop_owner_id p.id db in
      (do
        db1 ← use_discount p1 (save_payment p1 db)
        (effect, db2) ← apply_payment_effect now p1 db1
        (reward_info, db3) ← reward_first first now p1 db2
        ok ((effect, reward_info), db3))

  unfoldable pub approve_zarinpal_payment :
      Instant → Payment → String → Db → Result ((Effect × Option RewardInfo) × Db)
  approve_zarinpal_payment now p ref_id db =
      settle now p
        (record p {
          status = PaymentStatus.approved;
          zarinpal_ref_id = some ref_id;
          reviewed_at = some now;
        })
        db

  unfoldable pub approve_bale_payment :
      Instant → Payment → String → Db → Result ((Effect × Option RewardInfo) × Db)
  approve_bale_payment now p transaction_id db =
      settle now p
        (record p {
          status = PaymentStatus.approved;
          bale_transaction_id = some transaction_id;
          reviewed_at = some now;
        })
        db

  unfoldable pub approve_payment :
      Instant → Payment → ℕ → Db → Result ((Effect × Option RewardInfo) × Db)
  approve_payment now p admin_telegram_id db =
      settle now p
        (record p {
          status = PaymentStatus.approved;
          reviewed_at = some now;
          reviewed_by_admin_id = some admin_telegram_id;
        })
        db

  -- The button that approves. `answers` says whether Telegram takes the answer to the button and
  -- the new caption, whose errors are not caught; the errors of the notices are. The notices read
  -- `owner.telegram_id`, and of the dict of a commission the key `referred_telegram_id`, which it
  -- does not have. The result says whether the payment was approved.
  unfoldable pub cb_admin_approve_payment : Bool → Instant → ℕ → ℕ → Db → Result (Bool × Db)
  cb_admin_approve_payment answers now payment_id admin db = elim (get_by_id payment_id db) [
    | none ↦ if answers then ok (false, db) else raised telegram_error
    | some p ↦
        if not (is_pending p.status)
        then (if answers then ok (false, db) else raised telegram_error)
        else (do
          ((effect, reward_info), db1) ← approve_payment now p admin db
          if not answers then raised telegram_error else (elim (get_row p.shop_owner_id db.owners) [
            | none ↦ raised attribute_error
            | some owner ↦ (elim reward_info [
              | none ↦ ok (true, db1)
              | some info ↦ raised key_error
            ])
          ]))
  ]

-- The button that rejects.
unfoldable pub cb_admin_reject_payment : Bool → Instant → ℕ → ℕ → Db → Result (Bool × Db)
cb_admin_reject_payment answers now payment_id admin db = elim (get_by_id payment_id db) [
  | none ↦ if answers then ok (false, db) else raised telegram_error
  | some p ↦
      if not (is_pending p.status)
      then (if answers then ok (false, db) else raised telegram_error)
      else if not answers
      then raised telegram_error
      else (elim (get_row p.shop_owner_id db.owners) [
        | none ↦ raised attribute_error
        | some owner ↦ ok (true, reject_payment now p (some admin) none db)
      ])
]
