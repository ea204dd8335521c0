-- ===== src/Web/Examples.antt =====
-- Runs of the callbacks of Zarinpal and of the filter on updates.
use kasb_o_kar_hoshmand.Base.{
  ℕ, ◌≡◌, ◌⊎◌, refl, String, Option, none, some, [], ◌∷◌, take, ◌==◌, if◌then◌else◌,
}
use kasb_o_kar_hoshmand.Base.Texts.{same_text}
use kasb_o_kar_hoshmand.Models.{Db}
use kasb_o_kar_hoshmand.Billing.Frame.{SameWallets}
use kasb_o_kar_hoshmand.Samples.{plus_months, shop}
use kasb_o_kar_hoshmand.Web.Payments.{failed, zarinpal_callback}
use kasb_o_kar_hoshmand.Web.Updates.{is_duplicate_update, member}
use kasb_o_kar_hoshmand.Web.Genuine.{Genuine, zarinpal_callback-Genuine, zarinpal_callback_once}
use kasb_o_kar_hoshmand.Web.Seen.{seen_after, let_through, is_duplicate_update_exact}

-- the gateway confirms the payment of 50000 with the authority "A1" for the merchant "M1"
abbrev confirms : Option String → ℕ → String → Option String
confirms merchant_id amount authority =
    if amount == 50000 then (if same_text authority "A1" then some "R1" else none) else none

abbrev after_callback : Db
after_callback = (zarinpal_callback plus_months confirms 10 "A1" "OK" shop).1

zarinpal_callback-Genuine_example : Genuine plus_months confirms 10 "A1" shop after_callback
zarinpal_callback-Genuine_example = zarinpal_callback-Genuine plus_months confirms 10 "A1" "OK" shop

zarinpal_callback_once_example :
    (SameWallets shop after_callback × (after_callback.payments ≡ shop.payments))
    ⊎ (zarinpal_callback plus_months confirms 20 "A1" "OK" after_callback
        ≡ (failed, after_callback))
zarinpal_callback_once_example =
    zarinpal_callback_once plus_months confirms 10 20 "A1" "OK" "OK" shop (refl, tt)

is_duplicate_update_exact_example :
    (is_duplicate_update 2 1 10 (seen_after 2 ((1, 12) ∷ (1, 11) ∷ (1, 10) ∷ []))).0
    ≡ member (1, 10) (take 2 (let_through 2 ((1, 12) ∷ (1, 11) ∷ (1, 10) ∷ [])))
is_duplicate_update_exact_example =
    is_duplicate_update_exact 2 1 10 ((1, 12) ∷ (1, 11) ∷ (1, 10) ∷ [])
