-- ===== src/Panel/Examples.antt =====
-- Runs of the owner's buttons and of a purchase.
use kasb_o_kar_hoshmand.Base.{ℕ, ◌≡◌, refl, String, true, Option, none, some, [], ◌∷◌, ◌++◌}
use kasb_o_kar_hoshmand.Models.{Payment, Db, Result, ok}
use kasb_o_kar_hoshmand.Panel.Orders.{cb_confirm_order, cb_reject_order, cb_advance_order}
use kasb_o_kar_hoshmand.Orders.Owner.{confirm_order, reject_order, advance_status}
use kasb_o_kar_hoshmand.Panel.Pressed.{
  StepsOwn, seen_confirm, seen_reject, seen_advance, owner_buttons-StepsOwn,
}
use kasb_o_kar_hoshmand.Panel.TopUp.{
  Purchase, Chat, cleared, cb_topup_amount, cb_payment_method_zarinpal,
}
use kasb_o_kar_hoshmand.Panel.Quoted.{Choosing, cb_payment_method_zarinpal_amount}
use kasb_o_kar_hoshmand.Samples.{shop, payment, value_or}

owner_buttons-StepsOwn_example :
    StepsOwn true 9001 1 shop
      (seen_confirm 10 shop)
      (λ o. (confirm_order 10 o shop).1)
      (cb_confirm_order true 10 9001 1 shop)
    × StepsOwn true 9001 1 shop
        (seen_reject shop)
        (λ o. (reject_order o shop).1)
        (cb_reject_order true 9001 1 shop)
    × StepsOwn true 9001 1 shop
        (seen_advance shop)
        (λ o. (advance_status o shop).1)
        (cb_advance_order true 9001 1 shop)
owner_buttons-StepsOwn_example = owner_buttons-StepsOwn true 10 9001 1 shop (refl, tt)

-- The discount's percentage, not used here, and a gateway that takes every amount.
abbrev part_of : ℕ → ℕ → ℕ
part_of base percent = base

abbrev accepts : String → ℕ → Option String
accepts merchant_id amount = some "A2"

abbrev chosen : Chat
chosen = cb_topup_amount (some 200000) cleared

abbrev request : Result (Option (Payment × Chat × Db))
request = cb_payment_method_zarinpal part_of accepts 9001 chosen shop

abbrev unpaid : Payment × Chat × Db
unpaid = (payment, cleared, shop)

abbrev found_or : {A : Type 0} → A → Option A → A
found_or a none = a
found_or a (some x) = x

abbrev outcome : Payment × Chat × Db
outcome = found_or unpaid (value_or none request)

requested : request ≡ ok (some outcome)
unfolding kasb_o_kar_hoshmand.Billing.Discount.apply_discount
    kasb_o_kar_hoshmand.Billing.Pay.add_payment
    kasb_o_kar_hoshmand.Billing.Pay.create_zarinpal_payment
    kasb_o_kar_hoshmand.Billing.Pay.new_payment
    kasb_o_kar_hoshmand.Owners.Register.get_by_telegram_id
    kasb_o_kar_hoshmand.Panel.TopUp.cb_payment_method_zarinpal
    kasb_o_kar_hoshmand.Panel.TopUp.cb_topup_amount
    kasb_o_kar_hoshmand.Panel.TopUp.get_discount_or_none
    kasb_o_kar_hoshmand.Settings.get_admin_settings
requested = refl

cb_payment_method_zarinpal_amount_example :
    (p : Purchase) × (merchant_id authority : String) × ((chosen.purchase ≡ some p)
      × (accepts merchant_id p.final_amount ≡ some authority)
      × (outcome.0.final_amount ≡ p.final_amount)
      × (outcome.0.zarinpal_authority ≡ some authority)
      × (outcome.2.payments ≡ shop.payments ++ outcome.0 ∷ []))
cb_payment_method_zarinpal_amount_example =
    cb_payment_method_zarinpal_amount part_of accepts (λ s. s) 9001 chosen shop
      {payment = outcome.0} {chat' = outcome.1} {db' = outcome.2} (refl, tt)
      (Choosing.amount (some 200000) Choosing.start) requested
