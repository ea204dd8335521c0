-- ===== src/Answer/Examples.antt =====
-- Runs of what a customer's messages lead to.
use kasb_o_kar_hoshmand.Base.{
  ℕ, ◌≡◌, ◌⊎◌, refl, String, Bool, true, false, Option, none, some, List, [], ◌∷◌, ◌++◌, ◌==◌,
  if◌then◌else◌,
}
use kasb_o_kar_hoshmand.Base.Int.{pos}
use kasb_o_kar_hoshmand.Base.Chars.{codes}
use kasb_o_kar_hoshmand.Base.Json.{Fields, str, int, obj, field, end}
use kasb_o_kar_hoshmand.Base.Time.{seconds}
use kasb_o_kar_hoshmand.Models.{ShopBot-Keyed, ModerationRule, Db, Result, ok}
use kasb_o_kar_hoshmand.Moderation.{Engine, Search, unmatched}
use kasb_o_kar_hoshmand.Chat.Prompt.{Sentences}
use kasb_o_kar_hoshmand.Ai.Circuit.{Circuits}
use kasb_o_kar_hoshmand.Wallet.Reach.{IsSound}
use kasb_o_kar_hoshmand.Orders.Customer.{customer_confirm_order}
use kasb_o_kar_hoshmand.Answer.Turn.{Request, Reply, nothing, Ask, generate_and_send_reply}
use kasb_o_kar_hoshmand.Answer.Charged.{PaidFor, generate_and_send_reply-Charges}
use kasb_o_kar_hoshmand.Answer.Debounce.{Pending, schedule_debounced_processing, wait_then_process}
use kasb_o_kar_hoshmand.Answer.Buffered.{
  Event, message, clock, nothing_pending, after, handed, sent, handed-sent,
}
use kasb_o_kar_hoshmand.Answer.Wallets.{wait_then_process-IsSound}
use kasb_o_kar_hoshmand.Answer.Detect.{Classifier, Reader}
use kasb_o_kar_hoshmand.Answer.Propose.{detect_and_notify_order}
use kasb_o_kar_hoshmand.Answer.Offered.{Proposes}
use kasb_o_kar_hoshmand.Answer.Proposed.{detect_and_notify_order-Proposes}
use kasb_o_kar_hoshmand.Answer.Buttons.{no_longer_valid, confirmed, cb_customer_confirm_order}
use kasb_o_kar_hoshmand.Answer.Media.{Sender, Memory, Handler, admitted}
use kasb_o_kar_hoshmand.Answer.Refused.{Granted, Unpaid, admitted_refused}
use kasb_o_kar_hoshmand.Samples.{ascii, shop, shop_wallets, bot, owner, value_or}

abbrev say : Sentences
say = record {
  guard_line = codes "Stay on the subject.";
  sales_instructions = codes "Sell.";
  consultation_instructions = codes "Advise.";
  services_intro = codes "Services:";
  products_intro = codes "Products:";
  no_products = codes "None.";
  knowledge_intro = codes "News:";
  sold_out = codes " (sold out)";
  stock_before = codes " (";
  stock_after = codes " left)";
}

-- a service that answers within a second, and an engine that matches nothing
abbrev greets : Ask
greets r now service =
    (ok (record { text = str "Hello!"; total_tokens = some (pos 1000) }), seconds 1)

abbrev engine : Engine
engine = record { search = λ rule text. unmatched; compiles = λ rule. true; lower = λ s. s }

abbrev closed : Circuits
closed k = none

abbrev details : ModerationRule → String
details rule = "rule"

abbrev turn : Result (Reply × Db)
turn = (generate_and_send_reply say greets true engine details 0 0 3 555 "Hi" shop closed).0

abbrev told : Reply × Db
told = value_or (nothing, shop) turn

told_of : turn ≡ ok told
unfolding kasb_o_kar_hoshmand.Access.deduct_and_notify kasb_o_kar_hoshmand.Access.notify_owner
    kasb_o_kar_hoshmand.Ai.Circuit.circuit_is_open
    kasb_o_kar_hoshmand.Ai.Circuit.record_circuit_failure
    kasb_o_kar_hoshmand.Ai.Circuit.record_circuit_success
    kasb_o_kar_hoshmand.Ai.Keys.build_ai_service
    kasb_o_kar_hoshmand.Ai.Keys.get_active_entries_for_capability
    kasb_o_kar_hoshmand.Ai.Pool.get_ai_service kasb_o_kar_hoshmand.Ai.Pool.ordered_entries
    kasb_o_kar_hoshmand.Ai.Pool.run kasb_o_kar_hoshmand.Ai.Pool.run_entries
    kasb_o_kar_hoshmand.Answer.Turn.call_service kasb_o_kar_hoshmand.Answer.Turn.deliver
    kasb_o_kar_hoshmand.Answer.Turn.finish kasb_o_kar_hoshmand.Answer.Turn.generate_and_send_reply
    kasb_o_kar_hoshmand.Answer.Turn.moderate kasb_o_kar_hoshmand.Answer.Turn.reply_to
    kasb_o_kar_hoshmand.Answer.Turn.take_answer kasb_o_kar_hoshmand.Base.Int.neg
    kasb_o_kar_hoshmand.Base.Int.◌+ℤ◌ kasb_o_kar_hoshmand.Base.Int.◌-ℤ◌
    kasb_o_kar_hoshmand.Base.Rounding.round_div kasb_o_kar_hoshmand.Chat.Conversations.add_message
    kasb_o_kar_hoshmand.Chat.Conversations.get_recent_history
    kasb_o_kar_hoshmand.Chat.Conversations.save_turn
    kasb_o_kar_hoshmand.Chat.Customers.get_by_shop_bot_and_telegram_id
    kasb_o_kar_hoshmand.Chat.Customers.get_or_create_customer
    kasb_o_kar_hoshmand.Chat.Customers.seen_again
    kasb_o_kar_hoshmand.Chat.Prompt.build_system_prompt kasb_o_kar_hoshmand.Chat.Prompt.product_line
    kasb_o_kar_hoshmand.Moderation.check_text kasb_o_kar_hoshmand.Moderation.get_active_rules
    kasb_o_kar_hoshmand.Moderation.rule_matches kasb_o_kar_hoshmand.Moderation.safe_regex_match
    kasb_o_kar_hoshmand.Platform.Audit.log kasb_o_kar_hoshmand.Platform.Audit.log_error
    kasb_o_kar_hoshmand.Products.get_active_by_shop_bot
    kasb_o_kar_hoshmand.Settings.get_admin_settings
    kasb_o_kar_hoshmand.Shops.Knowledge.get_recent_knowledge
    kasb_o_kar_hoshmand.Validators.commas_from_low kasb_o_kar_hoshmand.Validators.digits_from_low
    kasb_o_kar_hoshmand.Validators.format_toman kasb_o_kar_hoshmand.Validators.grouped
    kasb_o_kar_hoshmand.Validators.printed kasb_o_kar_hoshmand.Wallet.Charge.add_transaction
    kasb_o_kar_hoshmand.Wallet.Charge.apply_balance_delta
    kasb_o_kar_hoshmand.Wallet.Cost.estimate_chat_cost kasb_o_kar_hoshmand.Wallet.Cost.token_cost
    kasb_o_kar_hoshmand.Wallet.Deduct.deduct kasb_o_kar_hoshmand.Wallet.Deduct.deductible
    kasb_o_kar_hoshmand.Wallet.Deduct.drain kasb_o_kar_hoshmand.Wallet.Deduct.take_from
    kasb_o_kar_hoshmand.Wallet.Notify.try_claim_empty_notification
    kasb_o_kar_hoshmand.Wallet.Notify.try_claim_low_balance_notification
told_of = refl

generate_and_send_reply-Charges_example :
    PaidFor say greets true engine details 0 0 "Hi" closed 1 owner told.0 shop told.1
generate_and_send_reply-Charges_example =
    generate_and_send_reply-Charges say greets true engine details 0 0 555 "Hi" shop closed 3
      {shop_bot = bot} {owner = owner} {reply = told.0} {db' = told.1} shop_wallets.consistent refl
      refl told_of

abbrev pending : Pending
pending = schedule_debounced_processing 0 3 555 "Hi" nothing_pending

wait_then_process-IsSound_example :
    let (p', db', circuits') =
      wait_then_process say greets true engine details (seconds 3) 0 3 555 pending shop closed in
    IsSound db' × (p'.buffers 3 555 ≡ []) × (p'.started_at 3 555 ≡ none) × (p'.tasks 3 555 ≡ none)
wait_then_process-IsSound_example =
    wait_then_process-IsSound say greets true engine details (seconds 3) 0 3 555 pending shop closed
      shop_wallets

-- two messages within a second, which are handed over at once
abbrev history : List Event
history = clock (seconds 10) 3 555 ∷ message (seconds 1) 3 555 "there" ∷ message 0 3 555 "Hi" ∷ []

handed-sent_example : handed 3 555 history ++ (after history).buffers 3 555 ≡ sent 3 555 history
handed-sent_example = handed-sent 3 555 history

abbrev classifier : Classifier
classifier = record {
  template = λ consulting products. products;
  products_label = λ consulting. codes "Products:";
  no_products = λ consulting. codes "None.";
  user_prompt = "Is there an order?";
}

-- the classifier's answer, two of the product 7 ordered
abbrev found : Fields
found = field "status" (str "completed") (
    field "type" (str "order") (
      field "summary" (str "two shirts")
        (field "product_id" (int (pos 7)) (field "quantity" (int (pos 2)) end))))

abbrev reader : Reader
reader = record { unicode = ascii; loads = λ s. some (obj found); shown = λ j. "" }

detect_and_notify_order-Proposes_example :
    Proposes 3 4 shop
      (detect_and_notify_order reader classifier greets true 0 0 3 4
        (("user", "Two shirts") ∷ [])
        shop
        closed).0
detect_and_notify_order-Proposes_example =
    detect_and_notify_order-Proposes reader classifier greets true 0 0 3 4
      (("user", "Two shirts") ∷ []) shop closed

-- the press at hand confirms the order
pressed :
    (value_or (no_longer_valid, shop) (cb_customer_confirm_order true 10 700 555 1 shop)).0
    ≡ confirmed (some (9001, true))
unfolding kasb_o_kar_hoshmand.Answer.Buttons.cb_customer_confirm_order
    kasb_o_kar_hoshmand.Answer.Buttons.resolve_awaiting_order_for_callback
    kasb_o_kar_hoshmand.Chat.Customers.get_by_shop_bot_and_telegram_id
    kasb_o_kar_hoshmand.Orders.Create.hold_stock kasb_o_kar_hoshmand.Orders.Create.reserve_stock
    kasb_o_kar_hoshmand.Orders.Create.stocked_product
    kasb_o_kar_hoshmand.Orders.Customer.customer_confirm_order
    kasb_o_kar_hoshmand.Orders.Customer.get_awaiting_confirmation_for_customer
    kasb_o_kar_hoshmand.Settings.get_admin_settings
    kasb_o_kar_hoshmand.Shops.Bots.get_by_bot_telegram_id
pressed = refl

abbrev sender : Sender
sender = record {
  bot_id = 700;
  telegram_id = 555;
  first_name = some "Sara";
  username = none;
  now = 10;
}

abbrev memory : Memory
memory = record { windows = λ s c. []; pending = nothing_pending; circuits = closed }

abbrev keep : Handler
keep b db s = (ok db, s)

admitted_refused_example :
    let (result, s') = admitted true sender keep shop memory in
    Granted true sender shop memory
    ⊎ ((s'.pending ≡ memory.pending) × (s'.circuits ≡ memory.circuits) × Unpaid shop result)
admitted_refused_example = admitted_refused true sender keep shop memory
