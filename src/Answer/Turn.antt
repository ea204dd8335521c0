-- ===== src/Answer/Turn.antt =====
-- `_generate_and_send_reply` of app/bots/shop_bot/handlers/customer.py: one turn of a conversation.
-- The service's calls, the delivery of messages, the engine of the rules and the fixed sentences are
-- parameters. Messages to the owner may fail without effect, so they are left out.
use kasb_o_kar_hoshmand.Base.{ℕ, String, Bool, true, false, Option, none, some, List, if◌then◌else◌}
use kasb_o_kar_hoshmand.Base.Int.{ℤ, pos, pos_part, leb_ℤ}
use kasb_o_kar_hoshmand.Base.Chars.{Text}
use kasb_o_kar_hoshmand.Base.Json.{Json, str}
use kasb_o_kar_hoshmand.Base.Time.{Instant}
use kasb_o_kar_hoshmand.Base.Table.{get_row}
use kasb_o_kar_hoshmand.Models.{
  ShopOwner-Keyed, ShopBot-Keyed, AdminSettings, ShopBot, ModerationRule, ModerationAction, warn,
  moderation_match, chat, chat_message, Db, Result, ok, raised, telegram_error, integrity_error,
  ◌>>=◌,
}
use kasb_o_kar_hoshmand.Settings.{get_admin_settings}
use kasb_o_kar_hoshmand.Products.{get_active_by_shop_bot}
use kasb_o_kar_hoshmand.Shops.Knowledge.{get_recent_knowledge}
use kasb_o_kar_hoshmand.Platform.Audit.{log, log_error}
use kasb_o_kar_hoshmand.Moderation.{Engine, check_text}
use kasb_o_kar_hoshmand.Chat.Customers.{get_or_create_customer}
use kasb_o_kar_hoshmand.Chat.Conversations.{get_recent_history, save_turn}
use kasb_o_kar_hoshmand.Chat.Prompt.{Sentences, build_system_prompt}
use kasb_o_kar_hoshmand.Ai.Client.{OpenAiCompatibleAiService, AiCallResult}
use kasb_o_kar_hoshmand.Ai.Circuit.{Circuits}
use kasb_o_kar_hoshmand.Ai.Pool.{given, is_service_error, run}
use kasb_o_kar_hoshmand.Ai.Keys.{build_ai_service}
use kasb_o_kar_hoshmand.Wallet.Cost.{estimate_chat_cost}
use kasb_o_kar_hoshmand.Access.{deduct_and_notify}

-- What is sent to the service.
pub record Request : Type 0 where
  pub system_prompt : Text
  pub history : List (String × String)
  pub message : String

-- What the customer is told.
pub data Reply : Type 0 where
  nothing unavailable ai_error blocked : Reply
  answered : String → Reply

-- A call of a service with a request, begun at an instant: its result, and when it ends.
abbrev pub Ask : Type 0
Ask = Request → Instant → OpenAiCompatibleAiService → Result AiCallResult × Instant

-- A message to the customer; an error of Telegram is not caught.
abbrev pub tell : Bool → Reply → Db → Result (Reply × Db)
tell answers reply db = if answers then ok (reply, db) else raised telegram_error

abbrev pub is_warn : ModerationAction → Bool
is_warn warn = true
is_warn _ = false

-- The column of contents takes texts only.
abbrev pub as_text : Json → Result String
as_text (str s) = ok s
as_text _ = raised integrity_error

-- A price is at least one, so a number of tokens below zero counts as none.
abbrev pub tokens_of : Option ℤ → Option ℕ
tokens_of none = none
tokens_of (some n) = some (pos_part n)

-- the answer is sent, and then paid for
unfoldable pub deliver :
    Bool → Instant → AdminSettings → ℕ → Option ℕ → String → Db → Result (Reply × Db)
deliver answers now settings owner_id total_tokens reply db =
    if answers
    then (do
      db1 ←
          deduct_and_notify now settings owner_id (estimate_chat_cost settings total_tokens)
            chat_message db
      ok (answered reply, db1))
    else raised telegram_error

-- the turn is stored, and the answer delivered
unfoldable pub finish :
    Bool → Instant → AdminSettings → ℕ → ℕ → String → AiCallResult → Db → Result (Reply × Db)
unfolding deliver
finish answers now settings owner_id customer_id text r db = do
  reply ← as_text r.text
  deliver answers now settings owner_id (tokens_of r.total_tokens) reply
      (save_turn now customer_id text reply db)

-- an answer of the service, or its error
unfoldable pub take_answer :
    Bool
    → Instant
    → AdminSettings
    → ℕ
    → ℕ
    → ℕ
    → String
    → Result AiCallResult
    → Db
    → Result (Reply × Db)
unfolding finish
take_answer answers now settings shop_bot_id owner_id customer_id text (ok r) db =
    finish answers now settings owner_id customer_id text r db
take_answer answers now settings shop_bot_id owner_id customer_id text (raised e) db =
    if is_service_error e then tell answers ai_error (log_error now shop_bot_id db) else raised e

module _ (say : Sentences) (ask : Ask) (answers : Bool) where
  -- the service is built and called
  unfoldable pub call_service :
      Instant
      → ℕ
      → AdminSettings
      → ShopBot
      → ℕ
      → ℕ
      → String
      → Db
      → Circuits
      → Result (Reply × Db) × Circuits
  unfolding take_answer
  call_service now start settings shop_bot owner_id customer_id text db circuits =
      let request : Request = record {
        system_prompt =
            build_system_prompt say shop_bot (get_active_by_shop_bot shop_bot.id db)
              (get_recent_knowledge shop_bot.id settings.knowledge_items_limit db)
              settings.global_ai_system_prompt;
        history = get_recent_history customer_id settings.conversation_history_limit db;
        message = text;
      } in
      elim (build_ai_service settings chat db) [
        | none ↦ (tell answers ai_error db, circuits)
        | some service ↦
            let outcome = run (ask request) service start now circuits in
            (
              take_answer answers outcome.2 settings shop_bot.id owner_id customer_id text outcome.0
                  db,
              outcome.1,
            )
      ]

  -- from the customer on: the owner's balance and the platform's key are looked at again
  unfoldable pub reply_to :
      Instant
      → ℕ
      → AdminSettings
      → ShopBot
      → ℕ
      → String
      → Db
      → Circuits
      → Result (Reply × Db) × Circuits
  unfolding call_service
  reply_to now start settings shop_bot customer_tg_id text db circuits =
      elim (get_or_create_customer now shop_bot.id customer_tg_id none none db) [
        | raised e ↦ (raised e, circuits)
        | ok (customer, db1) ↦ elim (get_row shop_bot.shop_owner_id db1.owners) [
          | none ↦ (tell answers unavailable db1, circuits)
          | some owner ↦
              if leb_ℤ owner.wallet_balance_toman (pos 0)
              then (tell answers unavailable db1, circuits)
              else (elim (given settings.ai_api_key) [
                | none ↦ (tell answers ai_error (log_error now shop_bot.id db1), circuits)
                | some key ↦
                    call_service now start settings shop_bot owner.id customer.id text db1 circuits
              ])
        ]
      ]

  -- `details` is the text of the audit log for a rule
  module _ (engine : Engine) (details : ModerationRule → String) where
    abbrev pub log_match : ModerationRule → ℕ → ℕ → Db → Db
    log_match rule shop_bot_id customer_tg_id db =
        (log moderation_match (some shop_bot_id) (some customer_tg_id) (some (details rule)) db).1

    -- a rule that blocks ends the turn, one that warns is logged
    unfoldable pub moderate :
        Instant
        → ℕ
        → AdminSettings
        → ShopBot
        → ℕ
        → String
        → Db
        → Circuits
        → Result (Reply × Db) × Circuits
    unfolding reply_to
    moderate now start settings shop_bot customer_tg_id text db circuits =
        elim (check_text engine text db) [
          | none ↦ reply_to now start settings shop_bot customer_tg_id text db circuits
          | some rule ↦
              let db1 = log_match rule shop_bot.id customer_tg_id db in
              if is_warn rule.action
              then reply_to now start settings shop_bot customer_tg_id text db1 circuits
              else (tell answers blocked db1, circuits)
        ]

    unfoldable pub generate_and_send_reply :
        Instant → ℕ → ℕ → ℕ → String → Db → Circuits → Result (Reply × Db) × Circuits
    unfolding moderate
    generate_and_send_reply now start shop_bot_id customer_tg_id text db circuits =
        elim (get_row shop_bot_id db.shop_bots) [
          | none ↦ (ok (nothing, db), circuits)
          | some shop_bot ↦
              if shop_bot.is_active
              then (let (settings, db1) = get_admin_settings db in
                  moderate now start settings shop_bot customer_tg_id text db1 circuits)
              else (ok (nothing, db), circuits)
        ]
