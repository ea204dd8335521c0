-- ===== src/Admin/Examples.antt =====
-- Runs of what the administrators do.
use kasb_o_kar_hoshmand.Base.{ℕ, ◌≡◌, refl, String, Bool, true, false, List, [], ◌∷◌, ◌==◌}
use kasb_o_kar_hoshmand.Base.Int.{ℤ, negsuc}
use kasb_o_kar_hoshmand.Base.Strings.{stripped}
use kasb_o_kar_hoshmand.Models.{Db, Result, ok}
use kasb_o_kar_hoshmand.Admin.Owners.{
  OwnerAnswer, no_such_owner, owner_wallet_correction_reason_entered,
}
use kasb_o_kar_hoshmand.Admin.Audited.{CorrectedBy, wallet_correction-CorrectedBy}
use kasb_o_kar_hoshmand.Samples.{ascii, shop, shop_wallets, value_or}

abbrev correction : Result (OwnerAnswer × Db)
correction =
    owner_wallet_correction_reason_entered ascii true 10 77 1 (negsuc 99) "mistake" (λ note. note)
      shop

abbrev outcome : OwnerAnswer × Db
outcome = value_or (no_such_owner, shop) correction

done : correction ≡ ok outcome
unfolding kasb_o_kar_hoshmand.Admin.Owners.audit kasb_o_kar_hoshmand.Admin.Owners.correct
    kasb_o_kar_hoshmand.Admin.Owners.correct_and_audit
    kasb_o_kar_hoshmand.Admin.Owners.owner_wallet_correction_reason_entered
    kasb_o_kar_hoshmand.Admin.Owners.shop_bot_of kasb_o_kar_hoshmand.Base.Int.neg
    kasb_o_kar_hoshmand.Base.Int.◌+ℤ◌ kasb_o_kar_hoshmand.Base.Int.◌-ℤ◌
    kasb_o_kar_hoshmand.Platform.Audit.log kasb_o_kar_hoshmand.Settings.get_admin_settings
    kasb_o_kar_hoshmand.Shops.Bots.get_by_owner kasb_o_kar_hoshmand.Wallet.Charge.add_charge
    kasb_o_kar_hoshmand.Wallet.Charge.add_transaction
    kasb_o_kar_hoshmand.Wallet.Charge.apply_balance_delta
    kasb_o_kar_hoshmand.Wallet.Charge.clear_notified kasb_o_kar_hoshmand.Wallet.Charge.new_charge
    kasb_o_kar_hoshmand.Wallet.Charge.validity kasb_o_kar_hoshmand.Wallet.Deduct.deduct
    kasb_o_kar_hoshmand.Wallet.Deduct.deductible kasb_o_kar_hoshmand.Wallet.Deduct.drain
    kasb_o_kar_hoshmand.Wallet.Deduct.take_from
done = refl

wallet_correction-CorrectedBy_example :
    CorrectedBy 77 1 (negsuc 99) (stripped ascii "mistake") shop outcome.0 outcome.1
wallet_correction-CorrectedBy_example =
    wallet_correction-CorrectedBy ascii true 10 77 1 (negsuc 99) "mistake" (λ note. note) shop
      {seen = outcome.0} {db' = outcome.1} shop_wallets.consistent done
