-- ===== src/Models/Billing.antt =====
-- `Payment`, `Subscription`, `DiscountCode`, `DiscountCodeUsage` and `Referral` of
-- app/database/models.py, with their enums.
use kasb_o_kar_hoshmand.Base.{ℕ, String, Bool, Option}
use kasb_o_kar_hoshmand.Base.Time.{Instant}
use kasb_o_kar_hoshmand.Base.Table.{Keyed}

pub data DiscountType : Type 0 where
  percent fixed : DiscountType

pub data PaymentMethod : Type 0 where
  card_to_card zarinpal bale_pay : PaymentMethod

pub data PaymentStatus : Type 0 where
  pending approved rejected : PaymentStatus

pub data PaymentPurpose : Type 0 where
  subscription wallet_topup : PaymentPurpose

pub data SubscriptionStatus : Type 0 where
  trial active grace expired : SubscriptionStatus

-- the strings "pending" and "rewarded" of the column `reward_status`
pub data RewardStatus : Type 0 where
  pending rewarded : RewardStatus

pub record DiscountCode : Type 0 where
  pub id : ℕ
  pub code : String
  pub type : DiscountType
  pub value : ℕ  -- Numeric(10, 2), in hundredths
  pub max_uses : Option ℕ
  pub used_count : ℕ
  pub expires_at : Option Instant
  pub is_active : Bool

pub record DiscountCodeUsage : Type 0 where
  pub id : ℕ
  pub discount_code_id : ℕ
  pub shop_owner_id : ℕ
  pub payment_id : ℕ

pub record Payment : Type 0 where
  pub id : ℕ
  pub shop_owner_id : ℕ
  pub purpose : PaymentPurpose
  pub duration_months : Option ℕ
  pub base_amount : ℕ
  pub final_amount : ℕ
  pub method : PaymentMethod
  pub status : PaymentStatus
  pub receipt_file_id : Option String
  pub discount_code_id : Option ℕ
  pub zarinpal_authority : Option String
  pub zarinpal_ref_id : Option String
  pub bale_invoice_payload : Option String
  pub bale_transaction_id : Option String
  pub reserved_until : Option Instant
  pub reviewed_by_admin_id : Option ℕ
  pub reviewed_at : Option Instant
  pub rejection_reason : Option String

pub record Subscription : Type 0 where
  pub id : ℕ
  pub shop_owner_id : ℕ
  pub status : SubscriptionStatus
  pub duration_months : ℕ
  pub is_trial : Bool
  pub start_date : Instant
  pub end_date : Instant
  pub grace_reminder_sent : Bool

pub record Referral : Type 0 where
  pub id : ℕ
  pub referrer_id : ℕ
  pub referred_id : ℕ
  pub reward_status : RewardStatus
  pub rewarded_at : Option Instant

instance abbrev pub DiscountCode-Keyed : Keyed DiscountCode
DiscountCode-Keyed = record { key = λ r. r.id }

instance abbrev pub DiscountCodeUsage-Keyed : Keyed DiscountCodeUsage
DiscountCodeUsage-Keyed = record { key = λ r. r.id }

instance abbrev pub Payment-Keyed : Keyed Payment
Payment-Keyed = record { key = λ r. r.id }

instance abbrev pub Subscription-Keyed : Keyed Subscription
Subscription-Keyed = record { key = λ r. r.id }

instance abbrev pub Referral-Keyed : Keyed Referral
Referral-Keyed = record { key = λ r. r.id }
