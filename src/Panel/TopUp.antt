-- ===== src/Panel/TopUp.antt =====
-- How a shop owner buys credit, in app/bots/main_bot/handlers/panel.py: the amount, a discount code and
-- the way of paying. What a chat is asked for is kept by aiogram's state of the chat, which a rolled
-- back session does not touch. The discount's percentage, Python's `int` of a text, and the gateways
-- are parameters.
use kasb_o_kar_hoshmand.Base.{
  ℕ, String, Bool, true, false, not, ◌*◌, Option, none, some, ltb, if◌then◌else◌,
}
use kasb_o_kar_hoshmand.Base.Int.{ℤ, pos, negsuc}
use kasb_o_kar_hoshmand.Base.Time.{Instant}
use kasb_o_kar_hoshmand.Base.Table.{get_row}
use kasb_o_kar_hoshmand.Models.{
  DiscountCode-Keyed, ShopOwner, Payment, wallet_topup, DiscountCode, Db, Result, ok, raised,
  key_error, attribute_error, ◌>>=◌,
}
use kasb_o_kar_hoshmand.Settings.{get_admin_settings}
use kasb_o_kar_hoshmand.Owners.Register.{get_by_telegram_id}
use kasb_o_kar_hoshmand.Ai.Pool.{given}
use kasb_o_kar_hoshmand.Billing.Discount.{validate_code, apply_discount}
use kasb_o_kar_hoshmand.Billing.Pay.{
  get_by_id, attach_receipt, create_card_to_card_payment, create_zarinpal_payment,
  create_bale_payment,
}

pub data PaymentStates : Type 0 where
  no_state waiting_discount_code waiting_receipt waiting_topup_amount : PaymentStates

-- `base_amount`, `discount_code_id` and `final_amount` of the chat's data; the purpose is always a
-- top-up, and there is no duration.
pub record Purchase : Type 0 where
  pub base_amount : ℕ
  pub discount_code_id : Option ℕ
  pub final_amount : ℕ

pub record Chat : Type 0 where
  pub state : PaymentStates
  pub purchase : Option Purchase
  pub payment_id : Option ℕ

abbrev pub cleared : Chat
cleared = record { state = no_state; purchase = none; payment_id = none }

-- an amount is chosen, and a code is asked for
abbrev pub ask_code : ℕ → Chat → Chat
ask_code amount chat = record chat {
  state = waiting_discount_code;
  purchase = some (record { base_amount = amount; discount_code_id = none; final_amount = amount });
}

-- the amount that the button names, or none for one of the owner's own
unfoldable pub cb_topup_amount : Option ℕ → Chat → Chat
cb_topup_amount none chat = record chat { state = waiting_topup_amount }
cb_topup_amount (some amount) chat = ask_code amount chat

abbrev pub least_topup : ℕ
least_topup = 10_000

-- `int_of` is `int(text.strip())`, with `none` for a ValueError
unfoldable pub topup_custom_amount_received : (String → Option ℤ) → String → Chat → Chat
topup_custom_amount_received int_of text chat = elim (int_of text) [
  | none ↦ chat
  | some (negsuc n) ↦ chat
  | some (pos n) ↦ if ltb n least_topup then chat else ask_code n chat
]

-- `data[name]` of the chat's data
abbrev pub purchase_of : Chat → Result Purchase
purchase_of chat = elim chat.purchase [ none ↦ raised key_error | some p ↦ ok p ]

-- an owner's attribute
abbrev pub owner_of : Option ShopOwner → Result ShopOwner
owner_of none = raised attribute_error
owner_of (some o) = ok o

abbrev pub current_owner : ℕ → Db → Result ShopOwner
current_owner telegram_id db = do found ← get_by_telegram_id telegram_id db; owner_of found

unfoldable pub get_discount_or_none : Option ℕ → Db → Option DiscountCode
get_discount_or_none none db = none
get_discount_or_none (some i) db = get_row i db.discounts

module _ (part_of : ℕ → ℕ → ℕ) where
  abbrev pub with_code : Option DiscountCode → Chat → Result Chat
  with_code none chat = ok chat
  with_code (some d) chat = do
    p ← purchase_of chat
    ok (record chat {
      purchase = some (record p {
        discount_code_id = some d.id;
        final_amount = apply_discount part_of p.base_amount d;
      });
    })

  -- `strip_upper` is Python's `strip` and `upper`
  unfoldable pub payment_discount_code :
      (String → String) → Instant → String → ℕ → Chat → Db → Result Chat
  payment_discount_code strip_upper now text telegram_id chat db = do
    owner ← current_owner telegram_id db
    discount ← validate_code strip_upper now text owner.id db
    with_code discount chat

  -- the payment as it is made, and the chat
  abbrev pub Paying : Type 0
  Paying = Payment × Chat × Db

  unfoldable pub cb_payment_method_card : (ℕ → ℕ) → Instant → ℕ → Chat → Db → Result Paying
  unfolding get_discount_or_none
  cb_payment_method_card draw now telegram_id chat db = do
    found ← get_by_telegram_id telegram_id db
    p ← purchase_of chat
    owner ← owner_of found
    (payment, db1) ←
        create_card_to_card_payment part_of draw now owner.id p.base_amount
          (get_discount_or_none p.discount_code_id db) none wallet_topup db
    ok (payment, record chat { state = waiting_receipt; payment_id = some payment.id }, db1)

  -- `request` is `zarinpal_service.request_payment`, with `none` for its error
  module _ (request : String → ℕ → Option String) where
    abbrev pub pay_zarinpal : Option ShopOwner → String → Chat → Db → Result (Option Paying)
    pay_zarinpal found merchant_id chat db = do
      p ← purchase_of chat
      elim (request merchant_id p.final_amount) [
        | none ↦ ok none
        | some authority ↦ (do
          owner ← owner_of found
          let (payment, db1) =
              create_zarinpal_payment part_of owner.id p.base_amount
                (get_discount_or_none p.discount_code_id db) authority none wallet_topup db
          ok (some (payment, cleared, db1)))
      ]

    abbrev pub open_zarinpal : Option ShopOwner → Chat → Db → Result (Option Paying)
    open_zarinpal found chat db =
        let (settings, db1) = get_admin_settings db in
        if not settings.zarinpal_enabled
        then ok none
        else (elim (given settings.zarinpal_merchant_id) [
          | none ↦ ok none
          | some merchant_id ↦ pay_zarinpal found merchant_id chat db1
        ])

    unfoldable pub cb_payment_method_zarinpal : ℕ → Chat → Db → Result (Option Paying)
    unfolding get_discount_or_none
    cb_payment_method_zarinpal telegram_id chat db = do
      found ← get_by_telegram_id telegram_id db
      open_zarinpal found chat db

  -- `link` is `bale_service.create_invoice_link`, for a payload and an amount in rials; `payload_of`
  -- is the payload with what `secrets.token_hex` drew
  module _ (link : String → String → ℕ → Bool) (payload_of : ℕ → String) where
    abbrev pub pay_bale : Option ShopOwner → String → Chat → Db → Result (Option Paying)
    pay_bale found provider_token chat db = do
      owner ← owner_of found
      p ← purchase_of chat
      elim (link provider_token (payload_of owner.id) (p.final_amount * 10)) [
        | false ↦ ok none
        | true ↦
            let (payment, db1) =
              create_bale_payment part_of owner.id p.base_amount
                (get_discount_or_none p.discount_code_id db) (payload_of owner.id) none wallet_topup
                db in
            ok (some (payment, cleared, db1))
      ]

    abbrev pub open_bale : Bool → Option ShopOwner → Chat → Db → Result (Option Paying)
    open_bale has_bot_token found chat db =
        let (settings, db1) = get_admin_settings db in
        if not settings.bale_pay_enabled
        then ok none
        else (elim (given settings.bale_provider_token) [
          | none ↦ ok none
          | some token ↦ if has_bot_token then pay_bale found token chat db1 else ok none
        ])

    unfoldable pub cb_payment_method_bale : Bool → ℕ → Chat → Db → Result (Option Paying)
    unfolding get_discount_or_none
    cb_payment_method_bale has_bot_token telegram_id chat db = do
      found ← get_by_telegram_id telegram_id db
      open_bale has_bot_token found chat db

-- the photo of a receipt, for the payment of the chat
unfoldable pub payment_receipt_received : String → Chat → Db → Result (Chat × Db)
payment_receipt_received file_id chat db = elim chat.payment_id [
  | none ↦ raised key_error
  | some i ↦ elim (get_by_id i db) [
    | none ↦ raised attribute_error
    | some p ↦ ok (cleared, attach_receipt p file_id db)
  ]
]
