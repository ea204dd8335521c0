-- ===== src/Panel/Quoted.antt =====
-- The amounts of a purchase, in app/bots/main_bot/handlers/panel.py: what the chat was shown, what a
-- gateway is asked for, and what the payment says.
use kasb_o_kar_hoshmand.Base.{
  ℕ, ◌≡◌, refl, sym, subst, inl, inr, String, Option, none, some, List, [], ◌∷◌, ◌++◌, ltb, arith,
  Bool-cases, Option-cases,
}
use kasb_o_kar_hoshmand.Base.Int.{ℤ, pos, negsuc}
use kasb_o_kar_hoshmand.Base.Time.{Instant}
use kasb_o_kar_hoshmand.Base.Table.{get_row, Unique}
use kasb_o_kar_hoshmand.Models.{
  DiscountCode-Keyed, Payment, DiscountCode, Db, Result-cases, ok, selected_row,
}
use kasb_o_kar_hoshmand.Settings.{get_admin_settings}
use kasb_o_kar_hoshmand.Owners.Register.{get_by_telegram_id}
use kasb_o_kar_hoshmand.Ai.Pool.{given}
use kasb_o_kar_hoshmand.Billing.Discount.{get_by_code, validate_code, apply_discount}
use kasb_o_kar_hoshmand.Billing.Pay.{discounted, new_payment, add_payment, create_zarinpal_payment}
use kasb_o_kar_hoshmand.Panel.TopUp.{
  waiting_discount_code, waiting_topup_amount, Purchase, Chat, cleared, cb_topup_amount,
  least_topup, current_owner, topup_custom_amount_received, get_discount_or_none,
  payment_discount_code, cb_payment_method_zarinpal,
}

module _ (part_of : ℕ → ℕ → ℕ) where
  -- the final amount is that of the code, if there is one
  abbrev pub QuotedAt : List DiscountCode → ℕ → ℕ → Option ℕ → Type 0
  QuotedAt discounts base final none = final ≡ base
  QuotedAt discounts base final (some i) =
      (d : DiscountCode) × ((get_row i discounts ≡ some d)
        × (final ≡ apply_discount part_of base d))

  -- the amount that the chat was shown
  abbrev pub Quoted : List DiscountCode → Option Purchase → Type 0
  Quoted discounts none = Unit
  Quoted discounts (some p) = QuotedAt discounts p.base_amount p.final_amount p.discount_code_id

  -- What the handlers make of a chat, while the codes are as in `discounts`.
  pub data Choosing (discounts : List DiscountCode) (strip_upper : String → String)
      : Chat → Type 0 where
    start : Choosing discounts strip_upper cleared
    amount :
        {chat : Chat} (choice : Option ℕ)
        → Choosing discounts strip_upper chat
        → Choosing discounts strip_upper (cb_topup_amount choice chat)
    custom :
        {chat : Chat} (int_of : String → Option ℤ) (text : String)
        → chat.state ≡ waiting_topup_amount
        → Choosing discounts strip_upper chat
        → Choosing discounts strip_upper (topup_custom_amount_received int_of text chat)
    code :
        {chat chat' : Chat} (now : Instant) (text : String) (telegram_id : ℕ) (db : Db)
        → chat.state ≡ waiting_discount_code
        → db.discounts ≡ discounts
        → payment_discount_code part_of strip_upper now text telegram_id chat db ≡ ok chat'
        → Choosing discounts strip_upper chat
        → Choosing discounts strip_upper chat'

  validate_code_row :
      (strip_upper : String → String) (now : Instant) (text : String) (i : ℕ) (db : Db)
      {d : DiscountCode}
      → Unique db.discounts
      → validate_code strip_upper now text i db ≡ ok (some d)
      → get_row d.id db.discounts ≡ some d
  unfolding validate_code get_by_code
  validate_code_row strip_upper now text i db {d} u e =
      elim (Result-cases (get_by_code strip_upper text db)) [
        | inr (x, failed) ↦ absurd (ground (arith, failed))
        | inl (none, found) ↦ absurd (ground (arith, found))
        | inl (some d1, found) ↦
            let same : d1 ≡ d = ground (arith, found) in
            subst (λ q. get_row q.id db.discounts ≡ some q) same
              (selected_row _ db.discounts {r = d1} u found)
      ]

  topup_custom-Quoted :
      (discounts : List DiscountCode) (int_of : String → Option ℤ) (text : String) (chat : Chat)
      → Quoted discounts chat.purchase
      → Quoted discounts (topup_custom_amount_received int_of text chat).purchase
  unfolding topup_custom_amount_received
  topup_custom-Quoted discounts int_of text chat h = elim (Option-cases (int_of text)) [
    | inl bad ↦ rw (bad, topup_custom_amount_received) h
    | inr (negsuc n, read) ↦ rw (read, topup_custom_amount_received) h
    | inr (pos n, read) ↦
        rw (read, topup_custom_amount_received)
          (elim (Bool-cases (ltb n least_topup)) [
            | inl little ↦ rw little h
            | inr enough ↦ rw enough refl
          ])
  ]

  payment_discount_code-Quoted :
      (strip_upper : String → String) (now : Instant) (text : String) (telegram_id : ℕ) (db : Db)
      (chat : Chat) {chat' : Chat}
      → Unique db.discounts
      → payment_discount_code part_of strip_upper now text telegram_id chat db ≡ ok chat'
      → Quoted db.discounts chat.purchase
      → Quoted db.discounts chat'.purchase
  unfolding payment_discount_code
  payment_discount_code-Quoted strip_upper now text telegram_id db chat {chat'} u e h =
      elim (Result-cases (current_owner telegram_id db)) [
        | inr (x, failed) ↦ absurd (ground (arith, failed))
        | inl (owner, known) ↦
            elim (Result-cases (validate_code strip_upper now text owner.id db)) [
              | inr (x, failed) ↦ absurd (ground (arith, known, failed))
              | inl (none, asked) ↦
                  let same : chat ≡ chat' = ground (arith, known, asked) in
                  subst (λ c. Quoted db.discounts c.purchase) same h
              | inl (some d, asked) ↦ elim (Option-cases chat.purchase) [
                | inl missing ↦ absurd (ground (arith, known, asked, missing))
                | inr (p, chosen) ↦
                    let p1 : Purchase = record p {
                      discount_code_id = some d.id;
                      final_amount = apply_discount part_of p.base_amount d;
                    } in
                    let set : some p1 ≡ chat'.purchase = ground (arith, known, asked, chosen) in
                    subst (Quoted db.discounts) set
                      (d, (validate_code_row strip_upper now text owner.id db u asked, refl))
              ]
            ]
      ]

  Choosing-Quoted :
      {discounts : List DiscountCode} {strip_upper : String → String} {chat : Chat}
      → Unique discounts
      → Choosing discounts strip_upper chat
      → Quoted discounts chat.purchase
  unfolding cb_topup_amount
  Choosing-Quoted u start = tt
  Choosing-Quoted u (amount none c) = Choosing-Quoted u c
  Choosing-Quoted u (amount (some n) c) = refl
  Choosing-Quoted {discounts} u (custom {chat} int_of text state c) =
      topup_custom-Quoted discounts int_of text chat (Choosing-Quoted u c)
  Choosing-Quoted {discounts} {strip_upper} u
        (code {chat} {chat'} now text telegram_id db state same done c) =
      subst (λ ds. Quoted ds chat'.purchase) same
        (payment_discount_code-Quoted strip_upper now text telegram_id db chat
          (subst Unique (sym same) u) done
          (subst (λ ds. Quoted ds chat.purchase) (sym same) (Choosing-Quoted u c)))

  -- the amount that was shown is the one that a payment computes anew
  discounted-QuotedAt :
      (base final : ℕ) (code_id : Option ℕ) (db : Db)
      → QuotedAt db.discounts base final code_id
      → discounted part_of base (get_discount_or_none code_id db) ≡ final
  unfolding get_discount_or_none
  discounted-QuotedAt base final none db h = sym h
  discounted-QuotedAt base final (some i) db (d, (found, shown)) = ground (arith, found, shown)

  settings_keep :
      (db : Db)
      → let db1 = (get_admin_settings db).1 in
        (db1.discounts ≡ db.discounts) × (db1.payments ≡ db.payments)
  unfolding get_admin_settings
  settings_keep db = ground arith

  module _ (request : String → ℕ → Option String) where
    -- The payment that the panel makes for Zarinpal has the amount that the owner was shown last,
    -- which the gateway was asked for too, and the authority that the gateway gave; it is added to
    -- the payments. This holds for a chat that was led there by the panel's handlers, while the
    -- discount codes stay, with their keys unique.
    pub cb_payment_method_zarinpal_amount :
        (strip_upper : String → String) (telegram_id : ℕ) (chat : Chat) (db : Db)
        {payment : Payment} {chat' : Chat} {db' : Db}
        → Unique db.discounts
        → Choosing db.discounts strip_upper chat
        → cb_payment_method_zarinpal part_of request telegram_id chat db
          ≡ ok (some (payment, chat', db'))
        → (p : Purchase) × (merchant_id authority : String) × ((chat.purchase ≡ some p)
            × (request merchant_id p.final_amount ≡ some authority)
            × (payment.final_amount ≡ p.final_amount)
            × (payment.zarinpal_authority ≡ some authority)
            × (db'.payments ≡ db.payments ++ payment ∷ []))
    unfolding cb_payment_method_zarinpal create_zarinpal_payment new_payment add_payment
    cb_payment_method_zarinpal_amount strip_upper telegram_id chat db {payment} {chat'} {db'} u c
          e =
        let settings = (get_admin_settings db).0 in
        let db1 = (get_admin_settings db).1 in
        elim (Result-cases (get_by_telegram_id telegram_id db)) [
          | inr (x, failed) ↦ absurd (ground (arith, failed))
          | inl (found, asked) ↦ elim (Bool-cases settings.zarinpal_enabled) [
            | inr off ↦ absurd (ground (arith, asked, off))
            | inl on ↦ elim (Option-cases (given settings.zarinpal_merchant_id)) [
              | inl missing ↦ absurd (ground (arith, asked, on, missing))
              | inr (merchant_id, set) ↦ elim (Option-cases chat.purchase) [
                | inl empty ↦ absurd (ground (arith, asked, on, set, empty))
                | inr (p, chosen) ↦ elim (Option-cases (request merchant_id p.final_amount)) [
                  | inl refused ↦ absurd (ground (arith, asked, on, set, chosen, refused))
                  | inr (authority, given_back) ↦ elim (Option-cases found) [
                    | inl stranger ↦
                        absurd (ground (arith, asked, on, set, chosen, given_back, stranger))
                    | inr (owner, known) ↦
                        let (codes, payments) = settings_keep db in
                        let shown : QuotedAt db1.discounts p.base_amount p.final_amount
                            p.discount_code_id =
                          subst (λ ds. Quoted ds (some p)) (sym codes)
                            (subst (Quoted db.discounts) chosen (Choosing-Quoted u c)) in
                        let same =
                          discounted-QuotedAt p.base_amount p.final_amount p.discount_code_id db1
                            shown in
                        (
                          p,
                          merchant_id,
                          authority,
                          (
                            chosen,
                            given_back,
                            ground (arith, asked, on, set, chosen, given_back, known, same),
                            ground (arith, asked, on, set, chosen, given_back, known),
                            ground (arith, asked, on, set, chosen, given_back, known, payments),
                          ),
                        )
                  ]
                ]
              ]
            ]
          ]
        ]
