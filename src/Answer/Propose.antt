-- ===== src/Answer/Propose.antt =====
-- `_detect_and_notify_order` of app/bots/shop_bot/handlers/customer.py: after a turn, a question or a
-- candidate for an order is put to the customer, and the owner pays for the classifier.
use kasb_o_kar_hoshmand.Base.{ℕ, String, Bool, Option, none, some, List, if◌then◌else◌}
use kasb_o_kar_hoshmand.Base.Int.{ℤ, pos, leb_ℤ}
use kasb_o_kar_hoshmand.Base.Time.{Instant}
use kasb_o_kar_hoshmand.Base.Table.{get_row}
use kasb_o_kar_hoshmand.Models.{
  ShopOwner-Keyed, ShopBot-Keyed, AdminSettings, ShopBot, chat, order_detection, Db, Result, ok,
  raised, ◌>>=◌,
}
use kasb_o_kar_hoshmand.Settings.{get_admin_settings}
use kasb_o_kar_hoshmand.Products.{get_active_by_shop_bot}
use kasb_o_kar_hoshmand.Orders.Query.{get_recent_duplicate}
use kasb_o_kar_hoshmand.Orders.Create.{create_order_awaiting_confirmation}
use kasb_o_kar_hoshmand.Chat.Customers.{get_by_id}
use kasb_o_kar_hoshmand.Chat.Conversations.{save_turn}
use kasb_o_kar_hoshmand.Chat.Prompt.{is_consultation}
use kasb_o_kar_hoshmand.Ai.Circuit.{Circuits}
use kasb_o_kar_hoshmand.Ai.Keys.{build_ai_service}
use kasb_o_kar_hoshmand.Wallet.Cost.{estimate_order_detection_cost}
use kasb_o_kar_hoshmand.Access.{deduct_and_notify}
use kasb_o_kar_hoshmand.Answer.Turn.{Ask, tokens_of}
use kasb_o_kar_hoshmand.Answer.Detect.{
  Classifier, Reader, Candidate, Detected, unsure, completed, detect_order,
}

abbrev pub order_dedup_window_minutes : ℕ
order_dedup_window_minutes = 10

-- What the task did.
pub data Outcome : Type 0 where
  no_outcome : Outcome
  asked : String → Outcome
  proposed : ℕ → Outcome

-- A candidate is stored unless the same was proposed or ordered a little before; that the message to
-- the customer fails changes nothing.
unfoldable pub propose : Instant → ℕ → ℕ → Candidate → Db → Outcome × Db
propose now shop_bot_id customer_id c db =
    elim (get_recent_duplicate now customer_id c.type c.product_id order_dedup_window_minutes db) [
      | some recent ↦ (no_outcome, db)
      | none ↦
          let (o, db1) =
            create_order_awaiting_confirmation now shop_bot_id customer_id c.type c.summary
              c.estimated_value_toman c.product_id c.quantity c.customer_phone c.customer_address
              db in
          (proposed o.id, db1)
    ]

-- `answers` says whether Telegram takes the message to the customer: a question that was not sent is
-- not stored either
unfoldable pub put_to_customer : Bool → Instant → ℕ → ℕ → Option Detected → Db → Outcome × Db
unfolding propose
put_to_customer answers now shop_bot_id customer_id found db = elim found [
  | none ↦ (no_outcome, db)
  | some detected ↦ elim (get_by_id customer_id db) [
    | none ↦ (no_outcome, db)
    | some customer ↦ elim detected [
      | unsure question ↦
          if answers
          then (asked question, save_turn now customer_id "" question db)
          else (no_outcome, db)
      | completed c ↦ propose now shop_bot_id customer_id c db
    ]
  ]
]

-- the owner pays where the number of tokens is known
unfoldable pub charge_detection : Instant → AdminSettings → ℕ → Option ℤ → Db → Result Db
charge_detection now settings owner_id none db = ok db
charge_detection now settings owner_id (some tokens) db =
    deduct_and_notify now settings owner_id
      (estimate_order_detection_cost settings (tokens_of (some tokens))) order_detection db

unfoldable pub settle_detection :
    Bool
    → Instant
    → AdminSettings
    → ℕ
    → ℕ
    → ℕ
    → Result (Option Detected × Option ℤ)
    → Db
    → Result (Outcome × Db)
unfolding charge_detection put_to_customer
settle_detection answers now settings shop_bot_id owner_id customer_id result db = do
  (found, tokens) ← result
  db1 ← charge_detection now settings owner_id tokens db
  ok (put_to_customer answers now shop_bot_id customer_id found db1)

-- any exception rolls the session back, and is logged
abbrev pub or_rolled_back : Db → Result (Outcome × Db) → Outcome × Db
or_rolled_back db (ok r) = r
or_rolled_back db (raised e) = (no_outcome, db)

module _ (reader : Reader) (say : Classifier) (ask : Ask) (answers : Bool) where
  unfoldable pub classify_conversation :
      Instant
      → ℕ
      → ShopBot
      → ℕ
      → ℕ
      → List (String × String)
      → Db
      → Circuits
      → Result (Outcome × Db) × Circuits
  unfolding settle_detection
  classify_conversation now start shop_bot owner_id customer_id full_history db circuits =
      let (settings, db1) = get_admin_settings db in
      elim (build_ai_service settings chat db1) [
        | none ↦ (ok (no_outcome, db1), circuits)
        | some service ↦
            let (result, later, circuits1) =
              detect_order reader say ask now start service full_history
                (get_active_by_shop_bot shop_bot.id db1) (is_consultation shop_bot.tenant_mode)
                circuits in
            (
              settle_detection answers later settings shop_bot.id owner_id customer_id result db1,
              circuits1,
            )
      ]

  unfoldable pub detect_and_notify_order :
      Instant → ℕ → ℕ → ℕ → List (String × String) → Db → Circuits → (Outcome × Db) × Circuits
  unfolding classify_conversation
  detect_and_notify_order now start shop_bot_id customer_id full_history db circuits =
      elim (get_row shop_bot_id db.shop_bots) [
        | none ↦ ((no_outcome, db), circuits)
        | some shop_bot ↦ elim (get_row shop_bot.shop_owner_id db.owners) [
          | none ↦ ((no_outcome, db), circuits)
          | some owner ↦
              if leb_ℤ owner.wallet_balance_toman (pos 0)
              then ((no_outcome, db), circuits)
              else (let (result, circuits1) =
                    classify_conversation now start shop_bot owner.id customer_id full_history db
                      circuits in
                  (or_rolled_back db result, circuits1))
        ]
      ]
