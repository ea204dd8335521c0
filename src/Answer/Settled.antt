-- ===== src/Answer/Settled.antt =====
-- What the end of a turn pays, in app/bots/shop_bot/handlers/customer.py.
use kasb_o_kar_hoshmand.Base.{
  ℕ, ◌≡◌, refl, inl, inr, String, Bool, true, false, Option, arith, Bool-cases, Option-cases,
}
use kasb_o_kar_hoshmand.Base.Json.{Json, null, bool, int, float, str, arr, obj}
use kasb_o_kar_hoshmand.Base.Time.{Instant}
use kasb_o_kar_hoshmand.Models.{
  ShopOwner-Keyed, ShopBot-Keyed, AdminSettings, Customer, chat_message, Db, Result, Result-cases,
  ok, raised,
}
use kasb_o_kar_hoshmand.Platform.Audit.{log_error}
use kasb_o_kar_hoshmand.Chat.Customers.{get_by_shop_bot_and_telegram_id, get_or_create_customer}
use kasb_o_kar_hoshmand.Chat.Conversations.{save_turn, add_message}
use kasb_o_kar_hoshmand.Ai.Client.{AiCallResult}
use kasb_o_kar_hoshmand.Ai.Pool.{is_service_error}
use kasb_o_kar_hoshmand.Wallet.Cost.{estimate_chat_cost}
use kasb_o_kar_hoshmand.Billing.Frame.{SameWallets}
use kasb_o_kar_hoshmand.Access.{deduct_and_notify}
use kasb_o_kar_hoshmand.Answer.Turn.{
  Reply, nothing, unavailable, ai_error, blocked, answered, tell, as_text, tokens_of, deliver,
  finish, take_answer,
}

-- Which answers of the service count.
abbrev pub Answers : Type 1
Answers = AiCallResult → Type 0

-- The owner `i` is charged for an answer of the service that counts, which is the reply, by the price of
-- the tokens that came with it, and for nothing else.
abbrev pub Charges : AdminSettings → Answers → ℕ → Reply → Db → Db → Type 0
Charges settings Counts i (answered reply) db db' =
    (now : Instant) × (r : AiCallResult) × (db1 : Db) × (Counts r
      × (r.text ≡ str reply)
      × SameWallets db db1
      × (deduct_and_notify now settings i (estimate_chat_cost settings (tokens_of r.total_tokens))
            chat_message db1
          ≡ ok db'))
Charges settings Counts i nothing db db' = SameWallets db db'
Charges settings Counts i unavailable db db' = SameWallets db db'
Charges settings Counts i ai_error db db' = SameWallets db db'
Charges settings Counts i blocked db db' = SameWallets db db'

SameWallets-trans : (a b c : Db) → SameWallets a b → SameWallets b c → SameWallets a c
SameWallets-trans a b c h k = ground (arith, h, k)

pub same : (db : Db) → SameWallets db db
same db = (refl, refl, refl)

text_of : (j : Json) {reply : String} → as_text j ≡ ok reply → j ≡ str reply
text_of null e = absurd (ground (arith, e))
text_of (bool b) e = absurd (ground (arith, e))
text_of (int n) e = absurd (ground (arith, e))
text_of (float n b) e = absurd (ground (arith, e))
text_of (str s) e = ground (arith, e)
text_of (arr vs) e = absurd (ground (arith, e))
text_of (obj fs) e = absurd (ground (arith, e))

save_turn-SameWallets :
    (now : Instant) (customer_id : ℕ) (text reply : String) (db : Db)
    → SameWallets db (save_turn now customer_id text reply db)
unfolding save_turn add_message
save_turn-SameWallets now customer_id text reply db = (refl, refl, refl)

pub log_error-SameWallets :
    (now : Instant) (shop_bot_id : ℕ) (db : Db) → SameWallets db (log_error now shop_bot_id db)
unfolding log_error
log_error-SameWallets now shop_bot_id db = (refl, refl, refl)

module _ (settings : AdminSettings) (Counts : Answers) where
  Charges-from :
      (i : ℕ) (reply : Reply) (a b c : Db)
      → SameWallets a b
      → Charges settings Counts i reply b c
      → Charges settings Counts i reply a c
  Charges-from i (answered reply) a b c h (now, r, db1, (counted, shown, kept, paid)) =
      (now, r, db1, (counted, shown, SameWallets-trans a b db1 h kept, paid))
  Charges-from i nothing a b c h k = SameWallets-trans a b c h k
  Charges-from i unavailable a b c h k = SameWallets-trans a b c h k
  Charges-from i ai_error a b c h k = SameWallets-trans a b c h k
  Charges-from i blocked a b c h k = SameWallets-trans a b c h k

  -- A step of a turn, from the tables `db`, raises or charges only so.
  abbrev pub Settles : ℕ → Db → Result (Reply × Db) → Type 0
  Settles i db (ok (reply, db')) = Charges settings Counts i reply db db'
  Settles i db (raised e) = Unit

  pub Settles-from :
      (i : ℕ) (a b : Db) (r : Result (Reply × Db)) → SameWallets a b → Settles i b r → Settles i a r
  Settles-from i a b (ok (reply, db')) h k = Charges-from i reply a b db' h k
  Settles-from i a b (raised e) h k = tt

  pub tell-Settles :
      (i : ℕ) (answers : Bool) (reply : Reply) (a b : Db)
      → Charges settings Counts i reply a b
      → Settles i a (tell answers reply b)
  tell-Settles i true reply a b h = h
  tell-Settles i false reply a b h = tt

  deliver-Settles :
      (answers : Bool) (now : Instant) (i : ℕ) (r : AiCallResult) (text : String) (db : Db)
      → Counts r
      → r.text ≡ str text
      → Settles i db (deliver answers now settings i (tokens_of r.total_tokens) text db)
  unfolding deliver
  deliver-Settles false now i r text db counted shown = tt
  deliver-Settles true now i r text db counted shown =
      elim (Result-cases (
        deduct_and_notify now settings i (estimate_chat_cost settings (tokens_of r.total_tokens))
          chat_message db)) [
            | inr (x, failed) ↦ rw failed tt
            | inl (db1, paid) ↦ rw paid (now, r, db, (counted, shown, same db, paid))
          ]

  pub take_answer-Settles :
      (answers : Bool) (now : Instant) (shop_bot_id i customer_id : ℕ) (text : String)
      (r : Result AiCallResult) (db : Db)
      → ((a : AiCallResult) → r ≡ ok a → Counts a)
      → Settles i db (take_answer answers now settings shop_bot_id i customer_id text r db)
  unfolding take_answer finish
  take_answer-Settles answers now shop_bot_id i customer_id text (ok r) db counts =
      elim (Result-cases (as_text r.text)) [
        | inr (x, failed) ↦ rw failed tt
        | inl (reply, content) ↦ rw content (
            Settles-from i db (save_turn now customer_id text reply db) _
              (save_turn-SameWallets now customer_id text reply db)
              (deliver-Settles answers now i r reply (save_turn now customer_id text reply db)
                (counts r refl) (text_of r.text content)))
      ]
  take_answer-Settles answers now shop_bot_id i customer_id text (raised e) db counts =
      elim (Bool-cases (is_service_error e)) [
        | inl service ↦ rw service (
            tell-Settles i answers ai_error db (log_error now shop_bot_id db)
              (log_error-SameWallets now shop_bot_id db))
        | inr other ↦ rw other tt
      ]

pub get_or_create_customer-SameWallets :
    (now : Instant) (shop_bot_id telegram_id : ℕ) (first_name username : Option String) (db : Db)
    {c : Customer} {db' : Db}
    → get_or_create_customer now shop_bot_id telegram_id first_name username db ≡ ok (c, db')
    → SameWallets db db'
unfolding get_or_create_customer
get_or_create_customer-SameWallets now shop_bot_id telegram_id first_name username db {c} {db'} e =
    elim (Result-cases (get_by_shop_bot_and_telegram_id shop_bot_id telegram_id db)) [
      | inr (x, failed) ↦ absurd (ground (arith, failed))
      | inl (found, asked) ↦ elim (Option-cases found) [
        | inl new ↦ ground (arith, asked, new)
        | inr (o, old) ↦ ground (arith, asked, old)
      ]
    ]
