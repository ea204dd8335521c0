-- ===== src/Access/Examples.antt =====
-- Runs of the access check on a shop whose wallet holds 500.
use kasb_o_kar_hoshmand.Base.{ℕ, ◌≡◌, refl, true, false, none, some, [], ◌∷◌}
use kasb_o_kar_hoshmand.Base.Int.{pos, ◌<ℤ◌}
use kasb_o_kar_hoshmand.Base.Time.{days}
use kasb_o_kar_hoshmand.Base.Table.{get_row}
use kasb_o_kar_hoshmand.Models.{
  empty_db, ShopOwner-Keyed, ShopOwner, WalletCharge, WalletTransaction, topup, chat_message,
  default_settings, Db, Result, ok, raised,
}
use kasb_o_kar_hoshmand.Settings.{get_admin_settings}
use kasb_o_kar_hoshmand.Billing.Frame.{SameWallets}
use kasb_o_kar_hoshmand.Limiter.Window.{Windows, check_and_record}
use kasb_o_kar_hoshmand.Access.{check_access, check_access_granted, deduct_and_notify}

abbrev paying : ShopOwner
paying = record {
  id = 1;
  telegram_id = 9001;
  first_name = some "Niki";
  last_name = none;
  phone_number = none;
  email = none;
  phone_verified = true;
  email_verified = false;
  registration_completed = true;
  referral_code = "AB12";
  referred_by_id = none;
  wallet_balance_toman = pos 500;
  wallet_low_balance_notified_at = none;
  wallet_empty_notified_at = none;
}

-- a charge of the owner, with its day of expiry
abbrev charge_of : ℕ → ℕ → ℕ → WalletCharge
charge_of id amount day = record {
  id = id;
  shop_owner_id = 1;
  payment_id = none;
  amount_toman = amount;
  remaining_toman = amount;
  expires_at = days day;
  is_expired = false;
  reminder_30d_sent = false;
  reminder_7d_sent = false;
  reminder_1d_sent = false;
}

abbrev entry_of : ℕ → ℕ → WalletTransaction
entry_of id amount = record {
  id = id;
  shop_owner_id = 1;
  wallet_charge_id = some id;
  amount_toman = pos amount;
  reason = topup;
  reference = none;
}

-- two charges, the one made later expiring first
abbrev paid_shop : Db
paid_shop = record empty_db {
  owners = paying ∷ [];
  charges = charge_of 1 300 90 ∷ charge_of 2 200 50 ∷ [];
  transactions = entry_of 1 300 ∷ entry_of 2 200 ∷ [];
}

abbrev quiet : Windows
quiet s c = []

abbrev with_settings : Db
with_settings = record paid_shop { settings = some default_settings }

abbrev seen : Windows
seen = (check_and_record (days 3) 7 1 15 60 quiet).1

let_in : check_access true (days 3) 7 1 1 paid_shop quiet ≡ (ok (true, with_settings), seen)
unfolding check_access get_admin_settings check_and_record
    kasb_o_kar_hoshmand.Limiter.Window.drop_old
let_in = refl

check_access_granted_example :
    let settings = (get_admin_settings paid_shop).0 in
    (settings.maintenance_mode ≡ false)
    × ((o : ShopOwner) × ((get_row 1 paid_shop.owners ≡ some o)
          × (pos 0 <ℤ o.wallet_balance_toman)))
    × (check_and_record
          (days 3)
          7
          1
          settings.rate_limit_max_messages
          settings.rate_limit_window_seconds
          quiet
        ≡ (true, seen))
    × SameWallets paid_shop with_settings
check_access_granted_example = check_access_granted true (days 3) 7 1 1 paid_shop quiet seen let_in

abbrev db_of : Result Db → Db
db_of (ok db) = db
db_of (raised e) = paid_shop

abbrev answered : Db
answered = db_of (deduct_and_notify (days 3) default_settings 1 450 chat_message paid_shop)

spent : deduct_and_notify (days 3) default_settings 1 450 chat_message paid_shop ≡ ok answered
unfolding deduct_and_notify kasb_o_kar_hoshmand.Wallet.Deduct.deduct
    kasb_o_kar_hoshmand.Wallet.Charge.apply_balance_delta
    kasb_o_kar_hoshmand.Wallet.Charge.add_transaction
spent = refl
