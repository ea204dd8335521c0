-- ===== src/Billing/Unpaid.antt =====
-- What the button that approves a payment, `cb_admin_approve_payment` of
-- app/bots/main_bot/handlers/admin.py, leaves of the referrals.
use kasb_o_kar_hoshmand.Base.{
  ℕ, ◌≡◌, ◌∙◌, inl, inr, Bool, true, false, Option, none, arith, Option-cases, Bool-cases,
}
use kasb_o_kar_hoshmand.Base.Time.{Instant}
use kasb_o_kar_hoshmand.Base.Table.{get_row}
use kasb_o_kar_hoshmand.Models.{
  ShopOwner-Keyed, Payment-Keyed, Payment, Referral, referral_reward, Db, Result-cases, ok,
}
use kasb_o_kar_hoshmand.Base.Int.{pos}
use kasb_o_kar_hoshmand.Settings.{get_admin_settings}
use kasb_o_kar_hoshmand.Wallet.Charge.{add_charge}
use kasb_o_kar_hoshmand.Billing.Discount.{record_usage}
use kasb_o_kar_hoshmand.Billing.Reward.{RewardInfo, pay_reward}
use kasb_o_kar_hoshmand.Billing.Pay.{get_by_id, is_pending}
use kasb_o_kar_hoshmand.Billing.Approve.{
  Effect, use_discount, reward_first, approve_payment, cb_admin_approve_payment,
}
use kasb_o_kar_hoshmand.Billing.Effects.{
  apply_payment_effect-IsSound, process_referral_reward_steps,
}
use kasb_o_kar_hoshmand.Billing.Settled.{settle_steps}

-- a commission that is paid is reported
pay_reward-some :
    (now : Instant) (r : Referral) (amount percent : ℕ) (db : Db) {x : Option RewardInfo} {db' : Db}
    → pay_reward now r amount percent db ≡ ok (x, db')
    → ¬ (x ≡ none)
unfolding pay_reward
pay_reward-some now r amount percent db {x} {db'} e silent =
    elim (Option-cases (get_row r.referrer_id db.owners)) [
      | inl missing ↦ absurd (ground (arith, missing, e))
      | inr (o, found) ↦
          elim (Result-cases (add_charge now o.id (pos amount) referral_reward none none none db)) [
            | inl ((c, db1), step) ↦ absurd (ground (arith, found, step, e, silent))
            | inr (x1, failed) ↦ absurd (ground (arith, found, failed, e))
          ]
    ]

reward_first-referrals :
    (first : Bool) (now : Instant) (p : Payment) (db : Db) {x : Option RewardInfo} {db' : Db}
    → reward_first first now p db ≡ ok (x, db')
    → x ≡ none
    → db'.referrals ≡ db.referrals
unfolding reward_first
reward_first-referrals false now p db {x} {db'} e silent = ground (arith, e)
reward_first-referrals true now p db {x} {db'} e silent =
    elim (process_referral_reward_steps now p.shop_owner_id p.final_amount db {x = x} e) [
      | inl (nobody, wallets, papers) ↦ papers.2
      | inr (r, (asked, paid)) ↦
          absurd (pay_reward-some now r _ _ (get_admin_settings db).1 {x = x} paid silent)
    ]

use_discount-referrals :
    (p : Payment) (db : Db) {db' : Db} → use_discount p db ≡ ok db' → db'.referrals ≡ db.referrals
unfolding use_discount record_usage
use_discount-referrals p db {db'} e = elim (Option-cases p.discount_code_id) [
  | inl plain ↦ ground (arith, plain, e)
  | inr (code_id, named) ↦ ground (arith, named, e)
]

module _ (plus_months : Instant → ℕ → Instant) where
  approve_payment-referrals :
      (now : Instant) (p : Payment) (admin : ℕ) (db : Db) {x : Effect × Option RewardInfo}
      {db' : Db}
      → approve_payment plus_months now p admin db ≡ ok (x, db')
      → x.1 ≡ none
      → db'.referrals ≡ db.referrals
  unfolding approve_payment
  approve_payment-referrals now p admin db {x} {db'} e silent =
      let (db1, (db2, (used, done, paid))) = settle_steps plus_months now p _ db {x = x} e in
      let (sound, papers) = apply_payment_effect-IsSound plus_months now _ db1 {x = x.0} done in
      reward_first-referrals _ now _ db2 {x = x.1} paid silent
      ∙ (papers.2 ∙ use_discount-referrals _ _ used)

  -- A press of the administrator's button on a payment that returns changes no referral, so it marks none
  -- as rewarded, whoever pays.
  pub cb_admin_approve_pays_nobody :
      (answers : Bool) (now : Instant) (payment_id admin : ℕ) (db : Db) {done : Bool} {db' : Db}
      → cb_admin_approve_payment plus_months answers now payment_id admin db ≡ ok (done, db')
      → db'.referrals ≡ db.referrals
  unfolding cb_admin_approve_payment get_by_id
  cb_admin_approve_pays_nobody answers now payment_id admin db {done} {db'} e =
      elim (Option-cases (get_row payment_id db.payments)) [
        | inl missing ↦ ground (arith, missing, e)
        | inr (p, found) ↦ elim (Bool-cases (is_pending p.status)) [
          | inr settled ↦ ground (arith, found, settled, e)
          | inl waits ↦ elim (Result-cases (approve_payment plus_months now p admin db)) [
            | inr (x1, failed) ↦ absurd (ground (arith, found, waits, failed, e))
            | inl ((x, db1), step) ↦ elim (Option-cases x.1) [
              | inl nobody ↦
                  let kept : db1 ≡ db' = ground (arith, found, waits, step, nobody, e) in
                  rw (← kept) (approve_payment-referrals now p admin db {x = x} step nobody)
              | inr (info, somebody) ↦ absurd (ground (arith, found, waits, step, somebody, e))
            ]
          ]
        ]
      ]
