-- ===== src/Wallet/Examples.antt =====
-- Runs of the wallet on a small database.
use kasb_o_kar_hoshmand.Base.{
  ℕ, ◌≤◌, ◌-◌, ◌⊎◌, leb, Bool-cases, ◌==◌, ◌+◌, ◌*◌, ◌<◌, ◌≡◌, refl, inl, inr, true, false, none,
  some, [], ◌∷◌, arith,
}
use kasb_o_kar_hoshmand.Base.Int.{ℤ, pos, negsuc, ◌≤ℤ◌, ◌<ℤ◌, ◌-ℤ◌}
use kasb_o_kar_hoshmand.Base.Time.{days}
use kasb_o_kar_hoshmand.Base.Table.{get_row}
use kasb_o_kar_hoshmand.Models.{
  empty_db, WalletCharge-Keyed, ShopOwner-Keyed, ShopOwner, WalletCharge, WalletTransaction, topup,
  chat_message, Db, ok, raised,
}
use kasb_o_kar_hoshmand.Wallet.Charge.{add_charge}
use kasb_o_kar_hoshmand.Wallet.Deduct.{deduct}
use kasb_o_kar_hoshmand.Wallet.Expire.{expire_stale_charges}
use kasb_o_kar_hoshmand.Wallet.Remind.{reminder_for, mark_charge}
use kasb_o_kar_hoshmand.Wallet.Notify.{
  try_claim_empty_notification, try_claim_low_balance_notification,
}
use kasb_o_kar_hoshmand.Wallet.Fifo.{deduct_fifo}
use kasb_o_kar_hoshmand.Wallet.Closed.{expire_stale_charges_exact}
use kasb_o_kar_hoshmand.Wallet.Reach.{IsSound, WalletStep, WalletReach, WalletReach-IsSound}
use kasb_o_kar_hoshmand.Wallet.Invariant.{IsConsistent}
use kasb_o_kar_hoshmand.Wallet.Invariant.Deducted.{Outcome, deduct_exact}
use kasb_o_kar_hoshmand.Wallet.Credited
use kasb_o_kar_hoshmand.Wallet.Ledger.{account}

abbrev shop_owner : ShopOwner
shop_owner = record {
  id = 1;
  telegram_id = 9001;
  first_name = some "Niki";
  last_name = none;
  phone_number = none;
  email = none;
  phone_verified = true;
  email_verified = false;
  registration_completed = true;
  referral_code = "AB12";
  referred_by_id = none;
  wallet_balance_toman = pos 500;
  wallet_low_balance_notified_at = none;
  wallet_empty_notified_at = none;
}

-- a charge of the owner, with its day of expiry
abbrev charge_of : ℕ → ℕ → ℕ → WalletCharge
charge_of id amount day = record {
  id = id;
  shop_owner_id = 1;
  payment_id = none;
  amount_toman = amount;
  remaining_toman = amount;
  expires_at = days day;
  is_expired = false;
  reminder_30d_sent = false;
  reminder_7d_sent = false;
  reminder_1d_sent = false;
}

abbrev entry_of : ℕ → ℕ → WalletTransaction
entry_of id amount = record {
  id = id;
  shop_owner_id = 1;
  wallet_charge_id = some id;
  amount_toman = pos amount;
  reason = topup;
  reference = none;
}

-- two charges, the one made later expiring first
abbrev shop : Db
shop = record empty_db {
  owners = shop_owner ∷ [];
  charges = charge_of 1 300 90 ∷ charge_of 2 200 50 ∷ [];
  transactions = entry_of 1 300 ∷ entry_of 2 200 ∷ [];
}

shop-IsConsistent : IsConsistent shop
shop-IsConsistent = record { unique = ground arith; cached = λ i o p. ground arith }

shop_account : account 1 shop.transactions ≡ pos 500
unfolding kasb_o_kar_hoshmand.Base.Int.◌+ℤ◌
shop_account = refl

shop-IsSound : IsSound shop
shop-IsSound = record {
  consistent = shop-IsConsistent;
  books = record {
    balanced = λ i o p. (elim (Bool-cases (1 == i)) [
      | inl own ↦ ground (arith, shop_account)
      | inr other ↦ ground arith
    ]);
  };
}

abbrev after_spend : Db
after_spend = elim (deduct 1 (pos 250) chat_message none shop) [
  | ok (done, db) ↦ db
  | raised e ↦ shop
]

spent : deduct 1 (pos 250) chat_message none shop ≡ ok (true, after_spend)
unfolding deduct kasb_o_kar_hoshmand.Wallet.Charge.apply_balance_delta
    kasb_o_kar_hoshmand.Wallet.Charge.add_transaction
spent = refl

WalletReach-IsSound_example : IsSound (expire_stale_charges (days 60) after_spend).1
WalletReach-IsSound_example = WalletReach-IsSound shop-IsSound (
    WalletReach.next
      (WalletReach.next WalletReach.here
        (WalletStep.spend 1 (pos 250) chat_message none true spent))
      (WalletStep.expire (days 60)))

deduct_exact_example : Outcome 1 (pos 250) chat_message none shop shop_owner
deduct_exact_example = deduct_exact 1 (pos 250) chat_message none shop shop-IsConsistent refl

-- forty days before the expiry of the first charge, and six days before
thirty : reminder_for (days 62) (charge_of 1 300 90) ≡ some 30
unfolding reminder_for
thirty = refl

seven : reminder_for (days 84) (mark_charge 30 (charge_of 1 300 90)) ≡ some 7
unfolding reminder_for mark_charge
seven = refl

empty_granted : (try_claim_empty_notification (days 3) 1 shop).0 ≡ true
unfolding try_claim_empty_notification
empty_granted = refl

low_granted : (try_claim_low_balance_notification (days 3) 1 shop).0 ≡ true
unfolding try_claim_low_balance_notification
low_granted = refl

add_charge_exact_example :
    Credited.Outcome (days 3) 1 (pos 80) topup none (some 6) none shop shop_owner
add_charge_exact_example =
    Credited.add_charge_exact (days 3) 1 (pos 80) topup none (some 6) none shop refl

left_two :
    get_row 2 after_spend.charges ≡ some (record (charge_of 2 200 50) { remaining_toman = 0 })
unfolding deduct kasb_o_kar_hoshmand.Wallet.Charge.apply_balance_delta
    kasb_o_kar_hoshmand.Wallet.Charge.add_transaction
left_two = refl

left_one :
    get_row 1 after_spend.charges ≡ some (record (charge_of 1 300 90) { remaining_toman = 250 })
unfolding deduct kasb_o_kar_hoshmand.Wallet.Charge.apply_balance_delta
    kasb_o_kar_hoshmand.Wallet.Charge.add_transaction
left_one = refl

deduct_fifo_example : (record (charge_of 2 200 50) { remaining_toman = 0 }).remaining_toman ≡ 0
deduct_fifo_example =
    deduct_fifo 1 (pos 250) chat_message none 2 1 shop {db' = after_spend} {a = charge_of 2 200 50}
      {b = charge_of 1 300 90} {a' = record (charge_of 2 200 50) { remaining_toman = 0 }}
      {b' = record (charge_of 1 300 90) { remaining_toman = 250 }} shop-IsConsistent.unique spent
      refl refl refl refl (omega arith) left_two left_one (λ e. omega (arith, e))

expire_stale_charges_exact_example :
    get_row 2 (expire_stale_charges (days 60) shop).1.charges
    ≡ some (record (charge_of 2 200 50) { remaining_toman = 0; is_expired = true })
expire_stale_charges_exact_example =
    expire_stale_charges_exact (days 60) 2 shop {c = charge_of 2 200 50} shop-IsConsistent.unique
      refl
