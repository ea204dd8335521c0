-- ===== src/Billing/Settled.antt =====
-- An approval step by step: what a settled payment has gone through.
use kasb_o_kar_hoshmand.Base.{ℕ, ◌≡◌, ◌∙◌, inl, inr, Option, arith, Option-cases}
use kasb_o_kar_hoshmand.Base.Time.{Instant}
use kasb_o_kar_hoshmand.Base.Table.{save}
use kasb_o_kar_hoshmand.Models.{ShopOwner-Keyed, Payment-Keyed, Payment, Db, Result-cases, ok}
use kasb_o_kar_hoshmand.Wallet.Reach.{IsSound}
use kasb_o_kar_hoshmand.Billing.Discount.{record_usage}
use kasb_o_kar_hoshmand.Billing.Reward.{RewardInfo}
use kasb_o_kar_hoshmand.Billing.Pay.{is_first_approved_payment, save_payment}
use kasb_o_kar_hoshmand.Billing.Approve.{
  Effect, use_discount, reward_first, apply_payment_effect, settle,
}
use kasb_o_kar_hoshmand.Billing.Frame.{
  SameWallets, SameWallets-IsSound, record_usage-SameWallets, record_usage-payments,
}
use kasb_o_kar_hoshmand.Billing.Effects.{apply_payment_effect-IsSound, reward_first-IsSound}

use_discount-SameWallets :
    (p : Payment) (db : Db) {db' : Db}
    → use_discount p db ≡ ok db'
    → SameWallets db db' × (db'.payments ≡ db.payments)
unfolding use_discount
use_discount-SameWallets p db {db'} e = elim (Option-cases p.discount_code_id) [
  | inl plain ↦ ground (arith, plain)
  | inr (code_id, named) ↦
      let used : record_usage code_id p.shop_owner_id p.id db ≡ ok db' = ground (arith, named) in
      (
        record_usage-SameWallets code_id p.shop_owner_id p.id db used,
        record_usage-payments code_id p.shop_owner_id p.id db used,
      )
]

-- The steps of an approval that goes through.
pub settle_steps :
    (plus_months : Instant → ℕ → Instant) (now : Instant) (p p1 : Payment) (db : Db)
    {x : Effect × Option RewardInfo} {db' : Db}
    → settle plus_months now p p1 db ≡ ok (x, db')
    → (db1 : Db) × ((db2 : Db) × ((use_discount p1 (save_payment p1 db) ≡ ok db1)
          × (apply_payment_effect plus_months now p1 db1 ≡ ok (x.0, db2))
          × (reward_first (is_first_approved_payment p.shop_owner_id p.id db) now p1 db2
              ≡ ok (x.1, db'))))
unfolding settle
settle_steps plus_months now p p1 db {x} {db'} e =
    elim (Result-cases (use_discount p1 (save_payment p1 db))) [
      | inl (db1, used) ↦ elim (Result-cases (apply_payment_effect plus_months now p1 db1)) [
        | inl ((effect, db2), done) ↦
            elim (Result-cases
              (reward_first (is_first_approved_payment p.shop_owner_id p.id db) now p1 db2)) [
                | inl ((info, db3), paid) ↦ (
                  db1,
                  (db2, (used, ground (arith, used, done, paid), ground (arith, used, done, paid))),
                )
                | inr (x1, failed) ↦ absurd (ground (arith, used, done, failed))
              ]
        | inr (x1, failed) ↦ absurd (ground (arith, used, failed))
      ]
      | inr (x1, failed) ↦ absurd (ground (arith, failed))
    ]

-- An approval keeps the wallets sound and the uses of codes that it made, and writes the row of
-- its payment alone.
pub settle-IsSound :
    (plus_months : Instant → ℕ → Instant) (now : Instant) (p p1 : Payment) (db : Db)
    {x : Effect × Option RewardInfo} {db' : Db}
    → settle plus_months now p p1 db ≡ ok (x, db')
    → (IsSound db → IsSound db')
      × (db'.payments ≡ save p1 db.payments)
      × ((db1 : Db) × ((use_discount p1 (save_payment p1 db) ≡ ok db1) × (db'.usages ≡ db1.usages)))
settle-IsSound plus_months now p p1 db {x} {db'} e =
    let (db1, (db2, (used, done, paid))) = settle_steps plus_months now p p1 db {x = x} e in
    let (wallets, kept) = use_discount-SameWallets p1 (save_payment p1 db) used in
    let (h2, papers) = apply_payment_effect-IsSound plus_months now p1 db1 {x = x.0} done in
    let (h3, payments, usages) = reward_first-IsSound _ now p1 db2 {x = x.1} paid in
    (
      λ h. h3 (h2 (SameWallets-IsSound db db1 wallets h)),
      payments ∙ (papers.0 ∙ kept),
      (db1, (used, usages ∙ papers.1)),
    )
