-- ===== src/Billing/Reach.antt =====
-- Billing and the wallets as one state machine: payments are made, rejected and approved between
-- the operations on wallets.
use kasb_o_kar_hoshmand.Base.{inl, inr, arith, ℕ, ◌≡◌, refl, String, Option}
use kasb_o_kar_hoshmand.Base.Time.{Instant}
use kasb_o_kar_hoshmand.Models.{Result-cases, Payment, PaymentPurpose, DiscountCode, Db, ok}
use kasb_o_kar_hoshmand.Settings.{get_admin_settings}
use kasb_o_kar_hoshmand.Wallet.Reach.{IsSound, WalletStep, WalletStep-IsSound}
use kasb_o_kar_hoshmand.Billing.Reward.{RewardInfo}
use kasb_o_kar_hoshmand.Billing.Pay.{
  create_card_to_card_payment, generate_unique_amount, discounted, attach_receipt, reject_payment,
  add_payment, create_zarinpal_payment, create_bale_payment,
}
use kasb_o_kar_hoshmand.Billing.Approve.{
  Effect, approve_zarinpal_payment, approve_bale_payment, approve_payment,
}
use kasb_o_kar_hoshmand.Billing.Frame.{SameWallets, settings-SameWallets, SameWallets-IsSound}
use kasb_o_kar_hoshmand.Billing.Settled.{settle-IsSound}

-- `plus_months` is the sum with a `relativedelta`, and `part_of` the percentage of a discount.
module _ (plus_months : Instant → ℕ → Instant) (part_of : ℕ → ℕ → ℕ) where
  pub data BillingStep : Db → Db → Type 0 where
    wallet : {db db' : Db} → WalletStep db db' → BillingStep db db'
    pay_zarinpal :
        {db : Db} (owner_id base : ℕ) (discount : Option DiscountCode) (authority : String)
        (months : Option ℕ) (purpose : PaymentPurpose)
        → BillingStep db
            (create_zarinpal_payment part_of owner_id base discount authority months purpose db).1
    pay_card :
        {db db' : Db} (draw : ℕ → ℕ) (now : Instant) (owner_id base : ℕ)
        (discount : Option DiscountCode) (months : Option ℕ) (purpose : PaymentPurpose)
        (p : Payment)
        → create_card_to_card_payment part_of draw now owner_id base discount months purpose db
          ≡ ok (p, db')
        → BillingStep db db'
    pay_bale :
        {db : Db} (owner_id base : ℕ) (discount : Option DiscountCode) (payload : String)
        (months : Option ℕ) (purpose : PaymentPurpose)
        → BillingStep db
            (create_bale_payment part_of owner_id base discount payload months purpose db).1
    receipt :
        {db : Db} (p : Payment) (file_id : String) → BillingStep db (attach_receipt p file_id db)
    reject :
        {db : Db} (now : Instant) (p : Payment) (admin : Option ℕ) (reason : Option String)
        → BillingStep db (reject_payment now p admin reason db)
    approve_zarinpal :
        {db db' : Db} (now : Instant) (p : Payment) (ref_id : String)
        (x : Effect × Option RewardInfo)
        → approve_zarinpal_payment plus_months now p ref_id db ≡ ok (x, db')
        → BillingStep db db'
    approve_bale :
        {db db' : Db} (now : Instant) (p : Payment) (transaction_id : String)
        (x : Effect × Option RewardInfo)
        → approve_bale_payment plus_months now p transaction_id db ≡ ok (x, db')
        → BillingStep db db'
    approve_card :
        {db db' : Db} (now : Instant) (p : Payment) (admin : ℕ) (x : Effect × Option RewardInfo)
        → approve_payment plus_months now p admin db ≡ ok (x, db')
        → BillingStep db db'

  pub data BillingReach (start : Db) : Db → Type 0 where
    here : BillingReach start start
    next : {db db' : Db} → BillingReach start db → BillingStep db db' → BillingReach start db'

  pay_card-SameWallets :
      (draw : ℕ → ℕ) (now : Instant) (owner_id base : ℕ) (discount : Option DiscountCode)
      (months : Option ℕ) (purpose : PaymentPurpose) (db : Db) {p : Payment} {db' : Db}
      → create_card_to_card_payment part_of draw now owner_id base discount months purpose db
        ≡ ok (p, db')
      → SameWallets db db'
  unfolding create_card_to_card_payment add_payment
  pay_card-SameWallets draw now owner_id base discount months purpose db {p} {db'} e =
      elim (Result-cases (
        generate_unique_amount draw now (discounted part_of base discount)
          (get_admin_settings db).1)) [
            | inl (amount, step) ↦ ground (arith, step, settings-SameWallets db)
            | inr (x, failed) ↦ absurd (ground (arith, failed))
          ]

  BillingStep-IsSound : {db db' : Db} → BillingStep db db' → IsSound db → IsSound db'
  unfolding create_zarinpal_payment create_bale_payment add_payment attach_receipt reject_payment
      approve_zarinpal_payment approve_bale_payment approve_payment
  BillingStep-IsSound (wallet step) h = WalletStep-IsSound step h
  BillingStep-IsSound {db} (pay_zarinpal owner_id base discount authority months purpose) h =
      SameWallets-IsSound db _ (refl, refl, refl) h
  BillingStep-IsSound {db} {db'} (pay_card draw now owner_id base discount months purpose p e) h =
      SameWallets-IsSound db db'
        (pay_card-SameWallets draw now owner_id base discount months purpose db {p = p} e) h
  BillingStep-IsSound {db} (pay_bale owner_id base discount payload months purpose) h =
      SameWallets-IsSound db _ (refl, refl, refl) h
  BillingStep-IsSound {db} (receipt p file_id) h = SameWallets-IsSound db _ (refl, refl, refl) h
  BillingStep-IsSound {db} (reject now p admin reason) h =
      SameWallets-IsSound db _ (refl, refl, refl) h
  BillingStep-IsSound {db} (approve_zarinpal now p ref_id x e) h =
      (settle-IsSound plus_months now p _ db {x = x} e).0 h
  BillingStep-IsSound {db} (approve_bale now p transaction_id x e) h =
      (settle-IsSound plus_months now p _ db {x = x} e).0 h
  BillingStep-IsSound {db} (approve_card now p admin x e) h =
      (settle-IsSound plus_months now p _ db {x = x} e).0 h

  -- From a database whose wallets are sound, payments made, rejected and approved by any of the three
  -- ways of payment, with their discounts and commissions, and operations on wallets between them,
  -- lead to one whose wallets are sound: each cached balance is the sum of what remains on the
  -- owner's open charges, and the sum of the owner's ledger.
  pub BillingReach-IsSound : {start db : Db} → IsSound start → BillingReach start db → IsSound db
  BillingReach-IsSound h here = h
  BillingReach-IsSound h (next r step) = BillingStep-IsSound step (BillingReach-IsSound h r)
