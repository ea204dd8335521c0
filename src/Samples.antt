-- ===== src/Samples.antt =====
-- Sample rows and tables, for the runs of the other modules: one shop with its owner, a customer, a
-- product, an order that waits for the customer, a payment that waits for Zarinpal, and a channel.
use kasb_o_kar_hoshmand.Base.{
  ℕ, ◌+◌, ◌-◌, ◌*◌, ◌<◌, ◌≡◌, ◌&&◌, ◌||◌, Option, leb, ltb, if◌then◌else◌, refl, inl, inr, String,
  Bool, true, false, none, some, [], ◌∷◌, ◌==◌, arith, Bool-cases,
}
use kasb_o_kar_hoshmand.Base.Int.{pos}
use kasb_o_kar_hoshmand.Base.Chars.{Unicode}
use kasb_o_kar_hoshmand.Base.Time.{Instant, days}
use kasb_o_kar_hoshmand.Models.{
  default_settings, empty_db, AdminSettings, ShopOwner, WalletCharge, WalletTransaction, topup,
  ShopBot, sales, Customer, Product, OrderConsultation, OrderStatus, OrderType, Payment,
  PaymentStatus, zarinpal, wallet_topup, MandatoryChannel, DiscountCode, fixed, Db, Result, ok,
  raised,
}
use kasb_o_kar_hoshmand.Wallet.Reach as Wallet
use kasb_o_kar_hoshmand.Wallet.Ledger.{account}
use kasb_o_kar_hoshmand.Orders.Reach as Orders

-- Unicode as far as ASCII goes, and a superscript
abbrev pub ascii_is_digit : ℕ → Bool
ascii_is_digit c = leb 48 c && ltb c 58 || c == 178

abbrev pub ascii_digit_value : ℕ → Option ℕ
ascii_digit_value c = if leb 48 c && ltb c 58 then some (c - 48) else none

abbrev pub ascii_is_space : ℕ → Bool
ascii_is_space c = c == 32 || leb 9 c && ltb c 14

pub digit_value_ascii : (d : ℕ) → d < 10 → ascii_digit_value (48 + d) ≡ some d
digit_value_ascii d h = ground arith

pub value_is_digit : (c d : ℕ) → ascii_digit_value c ≡ some d → ascii_is_digit c ≡ true
value_is_digit c d h = ground arith

pub value_not_space : (c d : ℕ) → ascii_digit_value c ≡ some d → ascii_is_space c ≡ false
value_not_space c d h = ground arith

abbrev pub ascii : Unicode
ascii = record {
  is_digit = ascii_is_digit;
  decimal = ascii_digit_value;
  is_space = ascii_is_space;
  ascii_decimal = digit_value_ascii;
  ascii_separators = (refl, refl, refl);
  ascii_plus = (refl, refl, refl);
  decimal_is_digit = value_is_digit;
  decimal_not_space = value_not_space;
}

-- a month as thirty days
abbrev pub plus_months : Instant → ℕ → Instant
plus_months t n = t + days (30 * n)

abbrev pub settings : AdminSettings
settings = record default_settings { zarinpal_merchant_id = some "M1"; ai_api_key = some "K1" }

abbrev pub owner : ShopOwner
owner = record {
  id = 1;
  telegram_id = 9001;
  first_name = some "Niki";
  last_name = none;
  phone_number = none;
  email = none;
  phone_verified = true;
  email_verified = false;
  registration_completed = true;
  referral_code = "AB12";
  referred_by_id = none;
  wallet_balance_toman = pos 500;
  wallet_low_balance_notified_at = none;
  wallet_empty_notified_at = none;
}

abbrev pub charge : WalletCharge
charge = record {
  id = 1;
  shop_owner_id = 1;
  payment_id = none;
  amount_toman = 500;
  remaining_toman = 500;
  expires_at = days 40;
  is_expired = false;
  reminder_30d_sent = false;
  reminder_7d_sent = false;
  reminder_1d_sent = false;
}

abbrev pub entry : WalletTransaction
entry = record {
  id = 1;
  shop_owner_id = 1;
  wallet_charge_id = some 1;
  amount_toman = pos 500;
  reason = topup;
  reference = none;
}

abbrev pub bot : ShopBot
bot = record {
  id = 3;
  shop_owner_id = 1;
  encrypted_token = "T1";
  bot_telegram_id = 700;
  bot_username = "shop_bot";
  webhook_secret_token = "S1";
  ai_instructions = none;
  zarinpal_merchant_id = none;
  tenant_mode = sales;
  knowledge_channel_id = none;
  knowledge_channel_bot = none;
  is_active = true;
  disabled_reason = none;
  last_report_sent_at = none;
}

abbrev pub customer : Customer
customer = record {
  id = 4;
  shop_bot_id = 3;
  telegram_id = 555;
  first_name = some "Sara";
  username = none;
  last_message_at = none;
}

abbrev pub shirt : Product
shirt = record {
  id = 7;
  shop_bot_id = 3;
  name = "shirt";
  description = none;
  price_toman = 900;
  photo_file_id = none;
  stock_quantity = some 10;
  reserved_quantity = 0;
  is_active = true;
}

-- two shirts, which the customer has not confirmed yet
abbrev pub candidate : OrderConsultation
candidate = record {
  id = 1;
  shop_bot_id = 3;
  customer_id = 4;
  type = OrderType.order;
  summary = "two shirts";
  estimated_value_toman = some (pos 1800);
  product_id = some 7;
  quantity = some 2;
  customer_phone = none;
  customer_address = none;
  confirmed = false;
  confirmed_at = none;
  status = OrderStatus.awaiting_customer_confirmation;
  stock_reserved = false;
  reservation_expires_at = none;
  created_at = 0;
}

abbrev pub payment : Payment
payment = record {
  id = 5;
  shop_owner_id = 1;
  purpose = wallet_topup;
  duration_months = none;
  base_amount = 50000;
  final_amount = 50000;
  method = zarinpal;
  status = PaymentStatus.pending;
  receipt_file_id = none;
  discount_code_id = none;
  zarinpal_authority = some "A1";
  zarinpal_ref_id = none;
  bale_invoice_payload = none;
  bale_transaction_id = none;
  reserved_until = none;
  reviewed_by_admin_id = none;
  reviewed_at = none;
  rejection_reason = none;
}

abbrev pub channel : MandatoryChannel
channel = record {
  id = 2;
  channel_id = "@news";
  name = "News";
  invite_link = none;
  is_primary = true;
}

abbrev pub code : DiscountCode
code = record {
  id = 6;
  code = "WELCOME";
  type = fixed;
  value = 1_000_000;
  max_uses = none;
  used_count = 0;
  expires_at = none;
  is_active = true;
}

abbrev pub shop : Db
shop = record empty_db {
  settings = some settings;
  owners = owner ∷ [];
  charges = charge ∷ [];
  transactions = entry ∷ [];
  payments = payment ∷ [];
  discounts = code ∷ [];
  products = shirt ∷ [];
  orders = candidate ∷ [];
  customers = customer ∷ [];
  shop_bots = bot ∷ [];
  channels = channel ∷ [];
}

shop_books : account 1 shop.transactions ≡ pos 500
unfolding kasb_o_kar_hoshmand.Base.Int.◌+ℤ◌
shop_books = refl

pub shop_wallets : Wallet.IsSound shop
shop_wallets = record {
  consistent = record { unique = ground arith; cached = λ i o p. ground arith };
  books = record {
    balanced = λ i o p. (elim (Bool-cases (1 == i)) [
      | inl own ↦ ground (arith, shop_books)
      | inr other ↦ ground arith
    ]);
  };
}

pub shop_orders : Orders.IsSound shop
shop_orders = record {
  unique = ground arith;
  rule = record {
    reserved = λ i p e s. (elim (Bool-cases (7 == i)) [
      | inl own ↦ ground arith
      | inr other ↦ ground arith
    ]);
    pending = λ i o e s. ground arith;
  };
}

abbrev pub value_or : {A : Type 0} → A → Result A → A
value_or a (ok x) = x
value_or a (raised e) = a
