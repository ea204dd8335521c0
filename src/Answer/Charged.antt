-- ===== src/Answer/Charged.antt =====
-- The wallets under one turn of a conversation, in app/bots/shop_bot/handlers/customer.py.
use kasb_o_kar_hoshmand.Base.{
  ℕ, ◌≡◌, refl, subst, inl, inr, String, Bool, none, some, Bool-cases, Option-cases,
}
use kasb_o_kar_hoshmand.Base.Int.{pos, leb_ℤ}
use kasb_o_kar_hoshmand.Base.Time.{Instant}
use kasb_o_kar_hoshmand.Base.Table.{get_row, get_row-key}
use kasb_o_kar_hoshmand.Models.{
  ShopOwner-Keyed, ShopBot-Keyed, AdminSettings, ShopOwner, ShopBot, ModerationRule, chat,
  chat_message, Db, Result-cases, ok,
}
use kasb_o_kar_hoshmand.Settings.{get_admin_settings}
use kasb_o_kar_hoshmand.Platform.Audit.{log, log_error}
use kasb_o_kar_hoshmand.Moderation.{Engine, check_text}
use kasb_o_kar_hoshmand.Chat.Customers.{get_or_create_customer}
use kasb_o_kar_hoshmand.Chat.Prompt.{Sentences}
use kasb_o_kar_hoshmand.Base.Json.{str}
use kasb_o_kar_hoshmand.Ai.Client.{AiCallResult}
use kasb_o_kar_hoshmand.Wallet.Invariant.{IsConsistent}
use kasb_o_kar_hoshmand.Answer.Paid.{Pays, pays}
use kasb_o_kar_hoshmand.Ai.Circuit.{Circuits}
use kasb_o_kar_hoshmand.Ai.Pool.{AiService, given, run}
use kasb_o_kar_hoshmand.Ai.Keys.{build_ai_service}
use kasb_o_kar_hoshmand.Wallet.Cost.{estimate_chat_cost}
use kasb_o_kar_hoshmand.Wallet.Reach.{IsSound}
use kasb_o_kar_hoshmand.Billing.Frame.{SameWallets, SameWallets-IsSound, settings-SameWallets}
use kasb_o_kar_hoshmand.Access.{deduct_and_notify-IsSound}
use kasb_o_kar_hoshmand.Answer.Turn.{
  Request, tokens_of, Reply, nothing, unavailable, ai_error, blocked, answered, Ask, is_warn,
  call_service, reply_to, log_match, moderate, generate_and_send_reply,
}
use kasb_o_kar_hoshmand.Answer.Settled.{
  Answers, Charges, Settles, Settles-from, tell-Settles, same, log_error-SameWallets,
  take_answer-Settles, get_or_create_customer-SameWallets,
}

module _ (say : Sentences) (ask : Ask) (answers : Bool) where
  -- The answers that the service gives to a request with the customer's message, as the pool of keys
  -- gets them at that time.
  abbrev pub Given : Instant → ℕ → String → Circuits → Answers
  Given now start text circuits r =
      (request : Request) × (service : AiService) × ((request.message ≡ text)
        × ((run (ask request) service start now circuits).0 ≡ ok r))

  call_service-Settles :
      (now : Instant) (start : ℕ) (settings : AdminSettings) (shop_bot : ShopBot)
      (i customer_id : ℕ) (text : String) (db : Db) (circuits : Circuits)
      → Settles settings
          (Given now start text circuits)
          i
          db
          (call_service say ask answers now start settings shop_bot i customer_id text db
            circuits).0
  unfolding call_service
  call_service-Settles now start settings shop_bot i customer_id text db circuits =
      elim (Option-cases (build_ai_service settings chat db)) [
        | inl missing ↦
            rw (missing, call_service)
              (tell-Settles settings (Given now start text circuits) i answers ai_error db db
                (same db))
        | inr (service, built) ↦
            rw (built, call_service)
              (take_answer-Settles settings (Given now start text circuits) answers _ shop_bot.id i
                customer_id text _ db (λ r replied. (_, service, (refl, replied))))
      ]

  reply_to-Settles :
      (now : Instant) (start : ℕ) (settings : AdminSettings) (shop_bot : ShopBot)
      (customer_tg_id : ℕ) (text : String) (db : Db) (circuits : Circuits)
      → Settles settings
          (Given now start text circuits)
          shop_bot.shop_owner_id
          db
          (reply_to say ask answers now start settings shop_bot customer_tg_id text db circuits).0
  unfolding reply_to
  reply_to-Settles now start settings shop_bot customer_tg_id text db circuits =
      let i = shop_bot.shop_owner_id in
      elim (Result-cases (get_or_create_customer now shop_bot.id customer_tg_id none none db)) [
        | inr (x, failed) ↦ rw (failed, reply_to) tt
        | inl ((customer, db1), met) ↦
            let kept =
              get_or_create_customer-SameWallets now shop_bot.id customer_tg_id none none db met in
            rw (met, reply_to)
              (Settles-from settings (Given now start text circuits) i db db1 _ kept
                (elim (Option-cases (get_row i db1.owners)) [
                  | inl missing ↦ rw (missing) (
                      tell-Settles settings (Given now start text circuits) i answers unavailable
                        db1 db1 (same db1))
                  | inr (owner, found) ↦
                      rw found (elim (Bool-cases (leb_ℤ owner.wallet_balance_toman (pos 0))) [
                        | inl empty ↦ rw empty (
                            tell-Settles settings (Given now start text circuits) i answers
                              unavailable db1 db1 (same db1))
                        | inr paid ↦ rw paid (elim (Option-cases (given settings.ai_api_key)) [
                          | inl keyless ↦ rw keyless (
                              tell-Settles settings (Given now start text circuits) i answers
                                ai_error db1 (log_error now shop_bot.id db1)
                                (log_error-SameWallets now shop_bot.id db1))
                          | inr (key, keyed) ↦ rw keyed (
                              subst
                                (λ j.
                                  Settles settings (Given now start text circuits) j db1
                                    (call_service say ask answers now start settings shop_bot
                                      owner.id customer.id text db1 circuits).0)
                                (get_row-key i db1.owners found)
                                (call_service-Settles now start settings shop_bot owner.id
                                  customer.id text db1 circuits))
                        ])
                      ])
                ]))
      ]

  module _ (engine : Engine) (details : ModerationRule → String) where
    log_match-SameWallets :
        (rule : ModerationRule) (shop_bot_id customer_tg_id : ℕ) (db : Db)
        → SameWallets db
            (log_match say ask answers engine details rule shop_bot_id customer_tg_id db)
    unfolding log
    log_match-SameWallets rule shop_bot_id customer_tg_id db = (refl, refl, refl)

    moderate-Settles :
        (now : Instant) (start : ℕ) (settings : AdminSettings) (shop_bot : ShopBot)
        (customer_tg_id : ℕ) (text : String) (db : Db) (circuits : Circuits)
        → Settles settings
            (Given now start text circuits)
            shop_bot.shop_owner_id
            db
            (moderate say ask answers engine details now start settings shop_bot customer_tg_id text
              db circuits).0
    unfolding moderate
    moderate-Settles now start settings shop_bot customer_tg_id text db circuits =
        elim (Option-cases (check_text engine text db)) [
          | inl clean ↦
              rw (clean, moderate)
                (reply_to-Settles now start settings shop_bot customer_tg_id text db circuits)
          | inr (rule, matched) ↦
              let db1 =
                log_match say ask answers engine details rule shop_bot.id customer_tg_id db in
              let kept = log_match-SameWallets rule shop_bot.id customer_tg_id db in
              rw (matched, moderate)
                (elim (Bool-cases (is_warn rule.action)) [
                  | inl lenient ↦ rw lenient (
                      Settles-from settings (Given now start text circuits) shop_bot.shop_owner_id
                        db db1 _ kept
                        (reply_to-Settles now start settings shop_bot customer_tg_id text db1
                          circuits))
                  | inr strict ↦ rw strict (
                      tell-Settles settings (Given now start text circuits) shop_bot.shop_owner_id
                        answers blocked db db1 kept)
                ])
        ]

    -- the charge in the terms of the handler
    pub generate_and_send_reply-Settles :
        (now : Instant) (start customer_tg_id : ℕ) (text : String) (db : Db) (circuits : Circuits)
        (shop_bot_id : ℕ) {shop_bot : ShopBot} {reply : Reply} {db' : Db}
        → get_row shop_bot_id db.shop_bots ≡ some shop_bot
        → (generate_and_send_reply say ask answers engine details now start shop_bot_id
            customer_tg_id text db circuits).0
          ≡ ok (reply, db')
        → Charges
            (get_admin_settings db).0
            (Given now start text circuits)
            shop_bot.shop_owner_id
            reply
            db
            db'
    unfolding generate_and_send_reply
    generate_and_send_reply-Settles now start customer_tg_id text db circuits shop_bot_id {shop_bot}
          {reply} {db'} found e =
        let settings = (get_admin_settings db).0 in
        let Counts = Given now start text circuits in
        subst (Settles settings Counts shop_bot.shop_owner_id db) e (
          rw (found, generate_and_send_reply)
            (elim (Bool-cases shop_bot.is_active) [
              | inr off ↦ rw off (same db)
              | inl on ↦ simp on (
                  Settles-from settings Counts shop_bot.shop_owner_id db (get_admin_settings db).1 _
                    (settings-SameWallets db)
                    (moderate-Settles now start settings shop_bot customer_tg_id text
                      (get_admin_settings db).1 circuits))
            ]))

    -- Who pays for a reply: for an answer the owner, by exactly the price of the tokens that the service
    -- reported with it, or nobody, if the balance is less; for anything else nobody.
    abbrev pub PaidFor : Instant → ℕ → String → Circuits → ℕ → ShopOwner → Reply → Db → Db → Type 0
    PaidFor now start text circuits i owner (answered reply) db db' =
        let settings = (get_admin_settings db).0 in
        (r : AiCallResult) × (Given now start text circuits r
          × (r.text ≡ str reply)
          × Pays i owner (estimate_chat_cost settings (tokens_of r.total_tokens)) db db')
    PaidFor now start text circuits i owner other db db' = SameWallets db db'

    -- In a turn of a conversation with a shop bot whose owner is known, an answer that the customer is
    -- given is an answer of the service to the customer's message. For it the owner's balance falls by
    -- exactly the price of the tokens that the service reported with it, or, if the balance is less than
    -- the price, no charge and no entry of the ledger changes. Where no answer is given, because of a
    -- rule, an empty wallet, a bot that is off, or a service that fails, no wallet changes. The cached
    -- balances are right before.
    pub generate_and_send_reply-Charges :
        (now : Instant) (start customer_tg_id : ℕ) (text : String) (db : Db) (circuits : Circuits)
        (shop_bot_id : ℕ) {shop_bot : ShopBot} {owner : ShopOwner} {reply : Reply} {db' : Db}
        → IsConsistent db
        → get_row shop_bot_id db.shop_bots ≡ some shop_bot
        → get_row shop_bot.shop_owner_id db.owners ≡ some owner
        → (generate_and_send_reply say ask answers engine details now start shop_bot_id
            customer_tg_id text db circuits).0
          ≡ ok (reply, db')
        → PaidFor now start text circuits shop_bot.shop_owner_id owner reply db db'
    generate_and_send_reply-Charges now start customer_tg_id text db circuits shop_bot_id {shop_bot}
          {owner} {reply} {db'} h found owned e =
        paid_for reply (
          generate_and_send_reply-Settles now start customer_tg_id text db circuits shop_bot_id
            {shop_bot = shop_bot} {reply = reply} {db' = db'} found e)
      where
        paid_for :
            (reply : Reply)
            → Charges
                (get_admin_settings db).0
                (Given now start text circuits)
                shop_bot.shop_owner_id
                reply
                db
                db'
            → PaidFor now start text circuits shop_bot.shop_owner_id owner reply db db'
        paid_for (answered text) (later, r, db1, (counted, shown, kept, paid)) =
            (r, (counted, shown, pays later _ shop_bot.shop_owner_id _ db db1 h kept owned paid))
        paid_for nothing k = k
        paid_for unavailable k = k
        paid_for ai_error k = k
        paid_for blocked k = k

-- What a turn does to the wallets keeps them sound.
pub Charges-IsSound :
    (settings : AdminSettings) (Counts : Answers) (i : ℕ) (reply : Reply) (db db' : Db)
    → Charges settings Counts i reply db db'
    → IsSound db
    → IsSound db'
Charges-IsSound settings Counts i (answered reply) db db'
      (now, r, db1, (counted, shown, kept, paid)) h =
    deduct_and_notify-IsSound now settings i
      (estimate_chat_cost settings (tokens_of r.total_tokens)) chat_message db1
      (SameWallets-IsSound db db1 kept h) paid
Charges-IsSound settings Counts i nothing db db' k h = SameWallets-IsSound db db' k h
Charges-IsSound settings Counts i unavailable db db' k h = SameWallets-IsSound db db' k h
Charges-IsSound settings Counts i ai_error db db' k h = SameWallets-IsSound db db' k h
Charges-IsSound settings Counts i blocked db db' k h = SameWallets-IsSound db db' k h
