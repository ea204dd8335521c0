-- ===== src/Answer/Proposed.antt =====
-- What `_detect_and_notify_order` of app/bots/shop_bot/handlers/customer.py does to the orders.
use kasb_o_kar_hoshmand.Base.{
  ℕ, ◌≡◌, refl, subst, inl, inr, String, Bool, Option, none, some, List, arith, Bool-cases,
  Option-cases,
}
use kasb_o_kar_hoshmand.Base.Int.{ℤ, pos, leb_ℤ}
use kasb_o_kar_hoshmand.Base.Time.{Instant}
use kasb_o_kar_hoshmand.Base.Table.{get_row, get_row-key}
use kasb_o_kar_hoshmand.Models.{
  ShopOwner-Keyed, ShopBot-Keyed, Product-Keyed, Product, AdminSettings, ShopBot, chat,
  order_detection, Db, Result, Result-cases, ok, raised,
}
use kasb_o_kar_hoshmand.Settings.{get_admin_settings}
use kasb_o_kar_hoshmand.Products.{get_active_by_shop_bot}
use kasb_o_kar_hoshmand.Chat.Prompt.{is_consultation}
use kasb_o_kar_hoshmand.Ai.Client.{AiCallResult}
use kasb_o_kar_hoshmand.Ai.Circuit.{Circuits}
use kasb_o_kar_hoshmand.Ai.Pool.{is_service_error}
use kasb_o_kar_hoshmand.Ai.Keys.{build_ai_service}
use kasb_o_kar_hoshmand.Wallet.Cost.{estimate_order_detection_cost}
use kasb_o_kar_hoshmand.Answer.Turn.{Ask, tokens_of}
use kasb_o_kar_hoshmand.Answer.Detect.{
  Classifier, Reader, Detected, read_reply, read_result, detect_order,
}
use kasb_o_kar_hoshmand.Answer.Propose.{
  charge_detection, settle_detection, classify_conversation, detect_and_notify_order,
}
use kasb_o_kar_hoshmand.Answer.Frame.{SameGoods, deduct_and_notify-SameGoods, settings-SameGoods}
use kasb_o_kar_hoshmand.Answer.Detected.{CheckedOption, CheckedResult, read_reply-Checked}
use kasb_o_kar_hoshmand.Answer.Offered.{
  Proposes, ProposesResult, active_same, Proposes-from, ProposesResult-from, rolled_back-Proposes,
  put_to_customer-Proposes,
}

charge_detection-SameGoods :
    (now : Instant) (settings : AdminSettings) (i : ℕ) (tokens : Option ℤ) (db : Db) {db' : Db}
    → charge_detection now settings i tokens db ≡ ok db'
    → SameGoods db db'
unfolding charge_detection
charge_detection-SameGoods now settings i none db {db'} e = ground (arith, e)
charge_detection-SameGoods now settings i (some tokens) db {db'} e =
    deduct_and_notify-SameGoods now settings i
      (estimate_order_detection_cost settings (tokens_of (some tokens))) order_detection db e

-- what a call of the classifier gave is checked
abbrev CheckedCall : List Product → Bool → Result (Option Detected × Option ℤ) → Type 0
CheckedCall products consulting (ok (found, tokens)) = CheckedOption products consulting found
CheckedCall products consulting (raised e) = Unit

read_result-Checked :
    (reader : Reader) (products : List Product) (consulting : Bool) (r : Result AiCallResult)
    → CheckedCall products consulting (read_result reader products consulting r)
read_result-Checked reader products consulting (ok r) =
    elim (Result-cases (read_reply reader products consulting r.text)) [
      | inr (x, failed) ↦ rw failed tt
      | inl (found, read) ↦ rw read (
          subst (CheckedResult products consulting) read
            (read_reply-Checked reader products consulting r.text))
    ]
read_result-Checked reader products consulting (raised e) = elim (Bool-cases (is_service_error e)) [
  | inl service ↦ rw service tt
  | inr other ↦ rw other tt
]

settle_detection-Proposes :
    (answers : Bool) (now : Instant) (settings : AdminSettings) (shop i customer : ℕ)
    (consulting : Bool) (result : Result (Option Detected × Option ℤ)) (db : Db)
    → CheckedCall (get_active_by_shop_bot shop db) consulting result
    → ProposesResult shop customer db
        (settle_detection answers now settings shop i customer result db)
unfolding settle_detection
settle_detection-Proposes answers now settings shop i customer consulting (raised e) db h = tt
settle_detection-Proposes answers now settings shop i customer consulting (ok (found, tokens)) db
      h =
    elim (Result-cases (charge_detection now settings i tokens db)) [
      | inr (x, failed) ↦ rw failed tt
      | inl (db1, paid) ↦
          let same = charge_detection-SameGoods now settings i tokens db {db' = db1} paid in
          rw paid (
            Proposes-from shop customer db db1 _ same (
              put_to_customer-Proposes answers now shop customer consulting found db1
                (subst (λ ps. CheckedOption ps consulting found) (active_same shop db db1 same) h)))
    ]

module _ (reader : Reader) (say : Classifier) (ask : Ask) (answers : Bool) where
  classify_conversation-Proposes :
      (now : Instant) (start : ℕ) (shop_bot : ShopBot) (owner_id customer : ℕ)
      (history : List (String × String)) (db : Db) (circuits : Circuits)
      → ProposesResult shop_bot.id customer db
          (classify_conversation reader say ask answers now start shop_bot owner_id customer history
            db circuits).0
  unfolding classify_conversation detect_order
  classify_conversation-Proposes now start shop_bot owner_id customer history db circuits =
      let db1 = (get_admin_settings db).1 in
      let same = settings-SameGoods db in
      elim (Option-cases (build_ai_service (get_admin_settings db).0 chat db1)) [
        | inl missing ↦ rw (missing, classify_conversation) (same.0, same.1)
        | inr (service, built) ↦
            let listed = get_active_by_shop_bot shop_bot.id db1 in
            let consulting = is_consultation shop_bot.tenant_mode in
            rw (built, classify_conversation)
              (ProposesResult-from shop_bot.id customer db db1 _ same (
                settle_detection-Proposes answers _ (get_admin_settings db).0 shop_bot.id owner_id
                  customer consulting _ db1 (read_result-Checked reader listed consulting _)))
      ]

  -- Whatever the classifier answers, the task after a turn changes no product and no order that was
  -- there. It adds one order at most, of the conversation's customer and shop, which awaits the
  -- customer's confirmation and holds no stock; and if the order is for a product, for one that the
  -- shop has and sells at that time.
  pub detect_and_notify_order-Proposes :
      (now : Instant) (start shop_bot_id customer : ℕ) (history : List (String × String)) (db : Db)
      (circuits : Circuits)
      → Proposes shop_bot_id customer db
          (detect_and_notify_order reader say ask answers now start shop_bot_id customer history db
            circuits).0
  unfolding detect_and_notify_order
  detect_and_notify_order-Proposes now start shop_bot_id customer history db circuits =
      elim (Option-cases (get_row shop_bot_id db.shop_bots)) [
        | inl missing ↦ rw (missing, detect_and_notify_order) (refl, refl)
        | inr (shop_bot, found) ↦
            rw (found, detect_and_notify_order)
              (elim (Option-cases (get_row shop_bot.shop_owner_id db.owners)) [
                | inl missing ↦ rw missing (refl, refl)
                | inr (owner, owned) ↦
                    rw owned (elim (Bool-cases (leb_ℤ owner.wallet_balance_toman (pos 0))) [
                      | inl empty ↦ rw empty (refl, refl)
                      | inr paid ↦ rw paid (
                          rolled_back-Proposes shop_bot_id customer db _ (
                            subst
                              (λ i.
                                ProposesResult i customer db
                                  (classify_conversation reader say ask answers now start shop_bot
                                    owner.id customer history db circuits).0)
                              (get_row-key shop_bot_id db.shop_bots found)
                              (classify_conversation-Proposes now start shop_bot owner.id customer
                                history db circuits)))
                    ])
              ])
      ]
