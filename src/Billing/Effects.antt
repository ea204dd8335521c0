-- ===== src/Billing/Effects.antt =====
-- The wallets under what an approved payment sets off: a charge, a period, a commission.
use kasb_o_kar_hoshmand.Base.{
  ℕ, ◌≡◌, subst, sym, refl, ◌∙◌, ◌⊎◌, inl, inr, Bool, true, false, Option, none, some, arith,
  Option-cases, Bool-cases, ◌==◌, where_rows,
}
use kasb_o_kar_hoshmand.Base.Int.{pos}
use kasb_o_kar_hoshmand.Base.Time.{Instant}
use kasb_o_kar_hoshmand.Base.Table.{get_row}
use kasb_o_kar_hoshmand.Models.{
  ShopOwner-Keyed, Payment-Keyed, Referral, Subscription, Payment, PaymentPurpose, wallet_topup,
  subscription, topup, referral_reward, Db, Result-cases, ok, ◌>>=◌, scalar_one_or_none,
}
use kasb_o_kar_hoshmand.Settings.{get_admin_settings}
use kasb_o_kar_hoshmand.Wallet.Charge.{add_charge}
use kasb_o_kar_hoshmand.Wallet.Reach.{IsSound, WalletStep, WalletStep-IsSound}
use kasb_o_kar_hoshmand.Billing.Subscribe.{purchase_or_renew, add_subscription}
use kasb_o_kar_hoshmand.Billing.Reward.{
  RewardInfo, mark_rewarded, pay_reward, is_unpaid, reward_amount, process_referral_reward,
}
use kasb_o_kar_hoshmand.Billing.Approve.{
  Effect, renewed, credit_payment, reward_first, apply_payment_effect,
}
use kasb_o_kar_hoshmand.Billing.Frame.{
  SamePapers, SameWallets, SameWallets-IsSound, settings-SamePapers, settings-SameWallets,
  add_charge-SamePapers,
}

credit_payment-IsSound :
    (now : Instant) (p : Payment) (db : Db) {x : Effect} {db' : Db}
    → credit_payment now p db ≡ ok (x, db')
    → (IsSound db → IsSound db') × SamePapers db db'
unfolding credit_payment
credit_payment-IsSound now p db {x} {db'} e =
    elim (Option-cases (get_row p.shop_owner_id db.owners)) [
      | inl missing ↦ absurd (ground (arith, missing))
      | inr (o, found) ↦
          elim (Result-cases
            (add_charge now o.id (pos p.final_amount) topup (some p.id) none none db)) [
              | inl ((c, db1), step) ↦
                  let same : db1 ≡ db' = ground (arith, found, step) in
                  (
                    λ h. subst IsSound same (
                        WalletStep-IsSound
                          (WalletStep.charge now o.id (pos p.final_amount) topup (some p.id) none
                            none c step)
                          h),
                    subst (SamePapers db) same (
                        add_charge-SamePapers now o.id (pos p.final_amount) topup (some p.id) none
                          none db step),
                  )
              | inr (x1, failed) ↦ absurd (ground (arith, found, failed))
            ]
    ]

pub PaymentPurpose-cases : (x : PaymentPurpose) → (x ≡ wallet_topup) ⊎ (x ≡ subscription)
PaymentPurpose-cases wallet_topup = inl refl
PaymentPurpose-cases subscription = inr refl

module _ (plus_months : Instant → ℕ → Instant) where
  renew-Same :
      (now : Instant) (i : ℕ) (months : Option ℕ) (db : Db) {r : Subscription × Db}
      → purchase_or_renew plus_months now i months db ≡ ok r
      → SameWallets db r.1 × SamePapers db r.1
  unfolding purchase_or_renew add_subscription
  renew-Same now i none db e = absurd (ground arith)
  renew-Same now i (some n) db e = ground arith

  pub effect_topup :
      (now : Instant) (p : Payment) (db : Db)
      → p.purpose ≡ wallet_topup
      → apply_payment_effect plus_months now p db ≡ credit_payment now p db
  unfolding apply_payment_effect
  effect_topup now p db topped = ground (arith, topped)

  effect_renewal :
      (now : Instant) (p : Payment) (db : Db)
      → p.purpose ≡ subscription
      → apply_payment_effect plus_months now p db ≡ (
          purchase_or_renew plus_months now p.shop_owner_id p.duration_months db >>= λ r.
          ok (renewed r.0, r.1))
  unfolding apply_payment_effect
  effect_renewal now p db bought = ground (arith, bought)

  pub apply_payment_effect-IsSound :
      (now : Instant) (p : Payment) (db : Db) {x : Effect} {db' : Db}
      → apply_payment_effect plus_months now p db ≡ ok (x, db')
      → (IsSound db → IsSound db') × SamePapers db db'
  apply_payment_effect-IsSound now p db {x} {db'} e = elim (PaymentPurpose-cases p.purpose) [
    | inl topped ↦
        credit_payment-IsSound now p db {x = x} (ground (arith, effect_topup now p db topped))
    | inr bought ↦
        elim (Result-cases
          (purchase_or_renew plus_months now p.shop_owner_id p.duration_months db)) [
            | inl (r, step) ↦
                let (wallets, papers) = renew-Same now p.shop_owner_id p.duration_months db step in
                let same : r.1 ≡ db' = ground (arith, effect_renewal now p db bought, step) in
                (
                  λ h. subst IsSound same (SameWallets-IsSound db r.1 wallets h),
                  subst (SamePapers db) same papers,
                )
            | inr (x1, failed) ↦ absurd (ground (arith, effect_renewal now p db bought, failed))
          ]
  ]

-- A commission that is paid is a charge of the referrer's wallet, and marks the referral.
pub pay_reward_steps :
    (now : Instant) (r : Referral) (amount percent : ℕ) (db : Db) {x : Option RewardInfo} {db' : Db}
    → pay_reward now r amount percent db ≡ ok (x, db')
    → (db1 : Db) × (WalletStep db db1 × SamePapers db db1 × (db' ≡ mark_rewarded now r db1))
unfolding pay_reward
pay_reward_steps now r amount percent db {x} {db'} e =
    elim (Option-cases (get_row r.referrer_id db.owners)) [
      | inl missing ↦ absurd (ground (arith, missing))
      | inr (o, found) ↦
          elim (Result-cases (add_charge now o.id (pos amount) referral_reward none none none db)) [
            | inl ((c, db1), step) ↦ (
              db1,
              (
                WalletStep.charge now o.id (pos amount) referral_reward none none none c step,
                add_charge-SamePapers now o.id (pos amount) referral_reward none none none db step,
                ground (arith, found, step),
              ),
            )
            | inr (x1, failed) ↦ absurd (ground (arith, found, failed))
          ]
    ]

pub pay_reward-IsSound :
    (now : Instant) (r : Referral) (amount percent : ℕ) (db : Db) {x : Option RewardInfo} {db' : Db}
    → pay_reward now r amount percent db ≡ ok (x, db')
    → (IsSound db → IsSound db') × (db'.payments ≡ db.payments) × (db'.usages ≡ db.usages)
unfolding mark_rewarded
pay_reward-IsSound now r amount percent db {x} {db'} e =
    let (db1, (step, papers, done)) = pay_reward_steps now r amount percent db e in
    (
      λ h. subst IsSound (sym done) (
          SameWallets-IsSound db1 (mark_rewarded now r db1) (refl, refl, refl)
            (WalletStep-IsSound step h)),
      ground (arith, done, papers),
      ground (arith, done, papers),
    )

-- A run of the commission changes neither wallets nor papers, or it is a payment to the referrer.
pub process_referral_reward_steps :
    (now : Instant) (referred_id payment_amount : ℕ) (db : Db) {x : Option RewardInfo} {db' : Db}
    → process_referral_reward now referred_id payment_amount db ≡ ok (x, db')
    → ((x ≡ none) × SameWallets db db' × SamePapers db db')
      ⊎ ((r : Referral) × ((scalar_one_or_none (where_rows (is_unpaid referred_id) db.referrals)
              ≡ ok (some r))
            × (let (settings, db1) = get_admin_settings db in
                pay_reward now r
                  (reward_amount payment_amount settings.referral_reward_value)
                  settings.referral_reward_value
                  db1
                ≡ ok (x, db'))))
unfolding process_referral_reward
process_referral_reward_steps now referred_id payment_amount db {x} {db'} e =
    elim (Result-cases (scalar_one_or_none (where_rows (is_unpaid referred_id) db.referrals))) [
      | inl (found, asked) ↦ elim (Option-cases found) [
        | inl nobody ↦ inl (ground (arith, asked, nobody))
        | inr (r, somebody) ↦
            elim (Bool-cases
              (reward_amount payment_amount (get_admin_settings db).0.referral_reward_value == 0)) [
                | inl nothing ↦ inl (
                    ground
                      (arith, asked, somebody, settings-SameWallets db, settings-SamePapers db))
                | inr something ↦
                    inr (r, (ground (arith, asked, somebody), ground (arith, asked, somebody)))
              ]
      ]
      | inr (x1, failed) ↦ absurd (ground (arith, failed))
    ]

pub reward_first-IsSound :
    (first : Bool) (now : Instant) (p : Payment) (db : Db) {x : Option RewardInfo} {db' : Db}
    → reward_first first now p db ≡ ok (x, db')
    → (IsSound db → IsSound db') × (db'.payments ≡ db.payments) × (db'.usages ≡ db.usages)
unfolding reward_first
reward_first-IsSound false now p db {x} {db'} e =
    subst (λ d. (IsSound db → IsSound d) × (d.payments ≡ db.payments) × (d.usages ≡ db.usages))
      {x = db} (ground arith) (λ h. h, refl, refl)
reward_first-IsSound true now p db {x} {db'} e =
    elim (process_referral_reward_steps now p.shop_owner_id p.final_amount db {x = x} e) [
      | inl (nobody, wallets, papers) ↦ (SameWallets-IsSound db db' wallets, papers.0, papers.1)
      | inr (r, (asked, paid)) ↦
          let db1 = (get_admin_settings db).1 in
          let (sound, payments, usages) = pay_reward-IsSound now r _ _ db1 {x = x} paid in
          let papers = settings-SamePapers db in
          (
            λ h. sound (SameWallets-IsSound db db1 (settings-SameWallets db) h),
            payments ∙ papers.0,
            usages ∙ papers.1,
          )
    ]
