-- ===== src/Models/Wallet.antt =====
-- `ShopOwner`, `WalletCharge` and `WalletTransaction` of app/database/models.py.
use kasb_o_kar_hoshmand.Base.{ℕ, String, Bool, Option}
use kasb_o_kar_hoshmand.Base.Int.{ℤ}
use kasb_o_kar_hoshmand.Base.Time.{Instant}
use kasb_o_kar_hoshmand.Base.Table.{Keyed}

pub data WalletTransactionReason : Type 0 where
  chat_message photo_analysis voice_transcription order_detection : WalletTransactionReason
  topup trial referral_reward admin_grant admin_correction expiry : WalletTransactionReason

pub record ShopOwner : Type 0 where
  pub id : ℕ
  pub telegram_id : ℕ
  pub first_name : Option String
  pub last_name : Option String
  pub phone_number : Option String
  pub email : Option String
  pub phone_verified : Bool
  pub email_verified : Bool
  pub registration_completed : Bool
  pub referral_code : String
  pub referred_by_id : Option ℕ
  pub wallet_balance_toman : ℤ
  pub wallet_low_balance_notified_at : Option Instant
  pub wallet_empty_notified_at : Option Instant

-- Amounts of a charge are natural numbers: a charge is only made with a positive amount, and a
-- deduction never takes more than what remains.
pub record WalletCharge : Type 0 where
  pub id : ℕ
  pub shop_owner_id : ℕ
  pub payment_id : Option ℕ
  pub amount_toman : ℕ
  pub remaining_toman : ℕ
  pub expires_at : Instant
  pub is_expired : Bool
  pub reminder_30d_sent : Bool
  pub reminder_7d_sent : Bool
  pub reminder_1d_sent : Bool

pub record WalletTransaction : Type 0 where
  pub id : ℕ
  pub shop_owner_id : ℕ
  pub wallet_charge_id : Option ℕ
  pub amount_toman : ℤ
  pub reason : WalletTransactionReason
  pub reference : Option String

instance abbrev pub ShopOwner-Keyed : Keyed ShopOwner
ShopOwner-Keyed = record { key = λ r. r.id }

instance abbrev pub WalletCharge-Keyed : Keyed WalletCharge
WalletCharge-Keyed = record { key = λ r. r.id }

instance abbrev pub WalletTransaction-Keyed : Keyed WalletTransaction
WalletTransaction-Keyed = record { key = λ r. r.id }
