-- ===== src/Billing/Examples.antt =====
-- Runs of billing on a small platform.
use kasb_o_kar_hoshmand.Base.{
  max, leb, if◌then◌else◌, where_rows, ℕ, ◌+◌, ◌*◌, ◌≤◌, ◌<◌, ◌≡◌, refl, Bool-cases, inl, inr, ◌==◌,
  true, false, none, some, List, [], ◌∷◌, arith, All, Option,
}
use kasb_o_kar_hoshmand.Base.Int.{pos}
use kasb_o_kar_hoshmand.Base.Time.{hours, Instant, days}
use kasb_o_kar_hoshmand.Base.Table.{get_row}
use kasb_o_kar_hoshmand.Models.{
  empty_db, ShopOwner-Keyed, WalletCharge-Keyed, ShopOwner, WalletCharge, Payment, PaymentStatus,
  card_to_card, Subscription, SubscriptionStatus, wallet_topup, WalletTransactionReason, Referral,
  RewardStatus, DiscountCode, percent, Db, Result, ok, raised, integrity_error,
}
use kasb_o_kar_hoshmand.Wallet.Credited
use kasb_o_kar_hoshmand.Wallet.Reach.{IsSound}
use kasb_o_kar_hoshmand.Billing.Reward.{RewardInfo, process_referral_reward, reward_amount}
use kasb_o_kar_hoshmand.Billing.Pay.{
  is_first_approved_payment, generate_unique_amount, is_reserving, attach_receipt,
}
use kasb_o_kar_hoshmand.Billing.Approve.{
  Effect, charged, settle, approve_payment, cb_admin_approve_payment,
}
use kasb_o_kar_hoshmand.Billing.Reach.{BillingStep, BillingReach, BillingReach-IsSound}
use kasb_o_kar_hoshmand.Billing.Amounts.{generate_unique_amount_fresh}
use kasb_o_kar_hoshmand.Billing.Discount.{is_past, is_used_up, is_usage, get_by_code, validate_code}
use kasb_o_kar_hoshmand.Settings.{get_admin_settings}
use kasb_o_kar_hoshmand.Billing.Subscribe.{
  get_latest_subscription_by_owner_id, purchase_or_renew, is_shop_usable,
}
use kasb_o_kar_hoshmand.Billing.Renewal.{end_of, purchase_or_renew_extends}
use kasb_o_kar_hoshmand.Billing.Once.{settle_code_once}
use kasb_o_kar_hoshmand.Billing.Buttons.{cb_admin_approve_once}
use kasb_o_kar_hoshmand.Billing.Unpaid.{cb_admin_approve_pays_nobody}
use kasb_o_kar_hoshmand.Billing.Credit.{settle_topup}
use kasb_o_kar_hoshmand.Billing.Commission.{process_referral_reward_once}

-- a month as thirty days
abbrev plus_months : Instant → ℕ → Instant
plus_months t n = t + days (30 * n)

abbrev owner_of : ℕ → ShopOwner
owner_of id = record {
  id = id;
  telegram_id = 9000 + id;
  first_name = none;
  last_name = none;
  phone_number = none;
  email = none;
  phone_verified = true;
  email_verified = true;
  registration_completed = true;
  referral_code = "AB12";
  referred_by_id = none;
  wallet_balance_toman = pos 0;
  wallet_low_balance_notified_at = none;
  wallet_empty_notified_at = none;
}

abbrev payment_of : ℕ → ℕ → Payment
payment_of id owner_id = record {
  id = id;
  shop_owner_id = owner_id;
  purpose = wallet_topup;
  duration_months = none;
  base_amount = 50000;
  final_amount = 50037;
  method = card_to_card;
  status = PaymentStatus.pending;
  receipt_file_id = none;
  discount_code_id = none;
  zarinpal_authority = none;
  zarinpal_ref_id = none;
  bale_invoice_payload = none;
  bale_transaction_id = none;
  reserved_until = some (days 1);
  reviewed_by_admin_id = none;
  reviewed_at = none;
  rejection_reason = none;
}

abbrev coded_of : ℕ → Payment
coded_of id = record (payment_of id 2) { discount_code_id = some 6 }

abbrev approved_of : Payment → Payment
approved_of p = record p {
  status = PaymentStatus.approved;
  reviewed_at = some 5;
  reviewed_by_admin_id = some 77;
}

abbrev referral : Referral
referral = record {
  id = 1;
  referrer_id = 1;
  referred_id = 2;
  reward_status = RewardStatus.pending;
  rewarded_at = none;
}

-- owner 1 brought in owner 2, and owner 3 came alone
abbrev platform_with : List Payment → Db
platform_with payments = record empty_db {
  owners = owner_of 1 ∷ owner_of 2 ∷ owner_of 3 ∷ [];
  payments = payments;
  referrals = referral ∷ [];
}

abbrev platform : Db
platform = platform_with (payment_of 1 2 ∷ payment_of 2 3 ∷ coded_of 3 ∷ coded_of 4 ∷ [])

platform-IsSound : IsSound platform
platform-IsSound = record {
  consistent = record { unique = tt; cached = λ i o p. ground arith };
  books = record { balanced = λ i o p. ground arith };
}

abbrev db_of : {A : Type 0} → Result (A × Db) → Db
db_of (ok (x, db)) = db
db_of (raised e) = platform

abbrev paid_db : Db
paid_db = db_of (settle plus_months 5 (payment_of 1 2) (approved_of (payment_of 1 2)) platform)

abbrev paid_charge : WalletCharge
paid_charge =
    Credited.made 5 2 (pos 50037) WalletTransactionReason.topup (some 1) none none platform

abbrev paid_info : RewardInfo
paid_info = record { referrer_telegram_id = 9001; amount_toman = 5004; percent = 1000 }

paid :
    approve_payment plus_months 5 (payment_of 1 2) 77 platform
    ≡ ok ((charged paid_charge, some paid_info), paid_db)
unfolding approve_payment settle kasb_o_kar_hoshmand.Billing.Approve.apply_payment_effect
    kasb_o_kar_hoshmand.Wallet.Charge.add_charge
    kasb_o_kar_hoshmand.Wallet.Charge.apply_balance_delta kasb_o_kar_hoshmand.Wallet.Charge.validity
    kasb_o_kar_hoshmand.Settings.get_admin_settings
    kasb_o_kar_hoshmand.Billing.Pay.is_first_approved_payment process_referral_reward
    kasb_o_kar_hoshmand.Wallet.Charge.add_transaction
    kasb_o_kar_hoshmand.Wallet.Charge.clear_notified reward_amount
    kasb_o_kar_hoshmand.Base.Rounding.round_div
paid = refl

BillingReach-IsSound_example : IsSound paid_db
BillingReach-IsSound_example =
    BillingReach-IsSound plus_months (λ b v. 0) platform-IsSound
      (BillingReach.next BillingReach.here
        (BillingStep.approve_card 5 (payment_of 1 2) 77 (charged paid_charge, some paid_info) paid))

abbrev coded_db : Db
coded_db = db_of (settle plus_months 5 (coded_of 3) (approved_of (coded_of 3)) platform)

abbrev coded_charge : WalletCharge
coded_charge =
    Credited.made 5 2 (pos 50037) WalletTransactionReason.topup (some 3) none none platform

coded :
    settle plus_months 5 (coded_of 3) (approved_of (coded_of 3)) platform
    ≡ ok ((charged coded_charge, some paid_info), coded_db)
unfolding settle kasb_o_kar_hoshmand.Billing.Discount.record_usage
    kasb_o_kar_hoshmand.Billing.Approve.apply_payment_effect
    kasb_o_kar_hoshmand.Wallet.Charge.add_charge
    kasb_o_kar_hoshmand.Wallet.Charge.apply_balance_delta kasb_o_kar_hoshmand.Wallet.Charge.validity
    kasb_o_kar_hoshmand.Settings.get_admin_settings
    kasb_o_kar_hoshmand.Billing.Pay.is_first_approved_payment process_referral_reward
    kasb_o_kar_hoshmand.Wallet.Charge.add_transaction
    kasb_o_kar_hoshmand.Wallet.Charge.clear_notified reward_amount
    kasb_o_kar_hoshmand.Base.Rounding.round_div
coded = refl

settle_code_once_example :
    settle plus_months 9 (coded_of 4) (approved_of (coded_of 4)) coded_db ≡ raised integrity_error
settle_code_once_example =
    settle_code_once plus_months 5 9 (coded_of 3) (approved_of (coded_of 3)) (coded_of 4)
      (approved_of (coded_of 4)) 6 platform {x = (charged coded_charge, some paid_info)} refl refl
      refl coded

abbrev alone_db : Db
alone_db = db_of (cb_admin_approve_payment plus_months true 5 2 77 platform)

alone : cb_admin_approve_payment plus_months true 5 2 77 platform ≡ ok (true, alone_db)
unfolding kasb_o_kar_hoshmand.Billing.Pay.get_by_id cb_admin_approve_payment approve_payment settle
    kasb_o_kar_hoshmand.Billing.Approve.apply_payment_effect
    kasb_o_kar_hoshmand.Wallet.Charge.add_charge
    kasb_o_kar_hoshmand.Wallet.Charge.apply_balance_delta kasb_o_kar_hoshmand.Wallet.Charge.validity
    kasb_o_kar_hoshmand.Settings.get_admin_settings
    kasb_o_kar_hoshmand.Billing.Pay.is_first_approved_payment process_referral_reward
    kasb_o_kar_hoshmand.Wallet.Charge.add_transaction
    kasb_o_kar_hoshmand.Wallet.Charge.clear_notified reward_amount
    kasb_o_kar_hoshmand.Base.Rounding.round_div
alone = refl

cb_admin_approve_once_example :
    cb_admin_approve_payment plus_months true 8 2 78 alone_db ≡ ok (false, alone_db)
cb_admin_approve_once_example = cb_admin_approve_once plus_months true 5 8 2 77 78 platform alone

cb_admin_approve_pays_nobody_example : alone_db.referrals ≡ platform.referrals
cb_admin_approve_pays_nobody_example =
    cb_admin_approve_pays_nobody plus_months true 5 2 77 platform alone

-- the second payment of owner 2
abbrev second_db : Db
second_db = platform_with (approved_of (payment_of 1 2) ∷ payment_of 2 2 ∷ [])

another : is_first_approved_payment 2 2 second_db ≡ false
unfolding is_first_approved_payment
another = refl

settle_topup_example :
    (c : WalletCharge) × ((db' : Db) × ((settle plus_months 5
            (payment_of 2 2)
            (approved_of (payment_of 2 2))
            second_db
          ≡ ok ((charged c, none), db'))
        × (get_row 2 db'.owners ≡ some (Credited.credited (owner_of 2) (pos 50037)))
        × (c.remaining_toman ≡ 50037)
        × (c.payment_id ≡ some 2)
        × (get_row c.id db'.charges ≡ some c)))
settle_topup_example =
    settle_topup plus_months 5 (payment_of 2 2) (approved_of (payment_of 2 2)) (owner_of 2)
      second_db refl refl another (omega arith) refl

rewarded :
    process_referral_reward 5 2 50037 platform
    ≡ ok (some paid_info, db_of (process_referral_reward 5 2 50037 platform))
unfolding kasb_o_kar_hoshmand.Wallet.Charge.add_charge
    kasb_o_kar_hoshmand.Wallet.Charge.apply_balance_delta kasb_o_kar_hoshmand.Wallet.Charge.validity
    kasb_o_kar_hoshmand.Settings.get_admin_settings
    kasb_o_kar_hoshmand.Billing.Pay.is_first_approved_payment process_referral_reward
    kasb_o_kar_hoshmand.Wallet.Charge.add_transaction
    kasb_o_kar_hoshmand.Wallet.Charge.clear_notified reward_amount
    kasb_o_kar_hoshmand.Base.Rounding.round_div
rewarded = refl

process_referral_reward_once_example :
    process_referral_reward 9 2 80000 (db_of (process_referral_reward 5 2 50037 platform))
    ≡ ok (none, db_of (process_referral_reward 5 2 50037 platform))
process_referral_reward_once_example =
    process_referral_reward_once 5 9 2 50037 80000 platform {info = paid_info} (refl, tt) rewarded

abbrev one_waits : Db
one_waits = platform_with (payment_of 1 2 ∷ [])

-- the first draw gives the amount that is taken
abbrev draw : ℕ → ℕ
draw n = if n == 29 then 27 else 28

draw_small : (n : ℕ) → draw n < 90
draw_small n = ground arith

generated : generate_unique_amount draw 5 50000 one_waits ≡ ok 50038
unfolding generate_unique_amount kasb_o_kar_hoshmand.Billing.Pay.try_amounts
    kasb_o_kar_hoshmand.Billing.Pay.amount_currently_reserved
generated = refl

generate_unique_amount_fresh_example :
    All (λ p. is_reserving 5 50038 p ≡ false) one_waits.payments
    × (50000 + 10 ≤ 50038)
    × (50038 < 50000 + 100)
generate_unique_amount_fresh_example =
    generate_unique_amount_fresh draw draw_small 5 50000 one_waits generated

abbrev spring : DiscountCode
spring = record {
  id = 6;
  code = "SPRING";
  type = percent;
  value = 2000;
  max_uses = some 3;
  used_count = 2;
  expires_at = some (days 9);
  is_active = true;
}

abbrev spring_db : Db
spring_db = record platform { discounts = spring ∷ [] }

given : validate_code (λ s. s) (days 2) "SPRING" 2 spring_db ≡ ok (some spring)
unfolding validate_code get_by_code
given = refl

abbrev trial_of : Subscription
trial_of = record {
  id = 1;
  shop_owner_id = 2;
  status = SubscriptionStatus.trial;
  duration_months = 0;
  is_trial = true;
  start_date = days 1;
  end_date = days 8;
  grace_reminder_sent = false;
}

abbrev trial_db : Db
trial_db = record platform { subscriptions = trial_of ∷ [] }

purchase_or_renew_extends_example :
    (s : Subscription) × ((db' : Db) × ((purchase_or_renew plus_months (days 5) 2 (some 3) trial_db
          ≡ ok (s, db'))
        × (get_latest_subscription_by_owner_id 2 db' ≡ some s)
        × (s.start_date ≡ max (days 5) (end_of (get_latest_subscription_by_owner_id 2 trial_db)))
        × (s.status ≡ SubscriptionStatus.active)
        × (s.end_date ≡ plus_months s.start_date 3)
        × ((is_shop_usable (days 99) 2 db').0
            ≡ leb
                (days 99)
                (s.end_date + hours (get_admin_settings trial_db).0.grace_period_hours))))
purchase_or_renew_extends_example =
    purchase_or_renew_extends plus_months (days 5) (days 99) 2 3 trial_db
