-- ===== src/Answer/Media.antt =====
-- The handlers of messages in app/bots/shop_bot/handlers/customer.py: texts, photos and voices. What
-- Telegram delivers, the calls of the services and the texts' white space are parameters.
use kasb_o_kar_hoshmand.Base.{ℕ, String, Bool, true, false, Option, none, some, if◌then◌else◌}
use kasb_o_kar_hoshmand.Base.Int.{pos, leb_ℤ}
use kasb_o_kar_hoshmand.Base.Texts.{same_text}
use kasb_o_kar_hoshmand.Base.Chars.{Unicode}
use kasb_o_kar_hoshmand.Base.Strings.{stripped}
use kasb_o_kar_hoshmand.Base.Time.{Instant}
use kasb_o_kar_hoshmand.Base.Table.{get_row}
use kasb_o_kar_hoshmand.Models.{
  ShopOwner-Keyed, AdminSettings, ShopOwner, ShopBot, chat, vision, photo_analysis,
  voice_transcription, Db, Result, ok, raised, telegram_error, attribute_error, ◌>>=◌,
}
use kasb_o_kar_hoshmand.Settings.{get_admin_settings}
use kasb_o_kar_hoshmand.Shops.Bots.{get_by_bot_telegram_id}
use kasb_o_kar_hoshmand.Chat.Customers.{get_or_create_customer}
use kasb_o_kar_hoshmand.Limiter.Window.{Windows}
use kasb_o_kar_hoshmand.Ai.Client.{OpenAiCompatibleAiService, AiCallResult}
use kasb_o_kar_hoshmand.Ai.Circuit.{Circuits}
use kasb_o_kar_hoshmand.Ai.Pool.{AiService, run}
use kasb_o_kar_hoshmand.Ai.Keys.{build_ai_service}
use kasb_o_kar_hoshmand.Wallet.Cost.{estimate_photo_cost, estimate_voice_cost}
use kasb_o_kar_hoshmand.Access.{check_access, deduct_and_notify}
use kasb_o_kar_hoshmand.Answer.Debounce.{Pending, schedule_debounced_processing}

-- A customer's message: the bot that it came to, who sent it, and when.
pub record Sender : Type 0 where
  pub bot_id : ℕ
  pub telegram_id : ℕ
  pub first_name : Option String
  pub username : Option String
  pub now : Instant

-- `answers` says whether Telegram takes an answer; its error is not caught, and rolls back
abbrev pub answered : Bool → Db → Result Db
answered answers db = if answers then ok db else raised telegram_error

abbrev pub met : Sender → ℕ → Db → Result Db
met m shop_bot_id db = do
  (customer, db1) ←
      get_or_create_customer m.now shop_bot_id m.telegram_id m.first_name m.username db
  ok db1

unfoldable pub customer_start : Bool → Sender → Db → Result Db
customer_start answers m db = do
  found ← get_by_bot_telegram_id m.bot_id db
  db1 ← elim found [ none ↦ ok db | some b ↦ met m b.id db ]
  answered answers db1

-- The memory of the process, which a rolled back session does not touch.
pub record Memory : Type 0 where
  pub windows : Windows
  pub pending : Pending
  pub circuits : Circuits

abbrev pub scheduled : Sender → ℕ → String → Memory → Memory
scheduled m shop_bot_id text s = record s {
  pending = schedule_debounced_processing m.now shop_bot_id m.telegram_id text s.pending;
}

-- What a handler does once access was granted and the customer is known.
abbrev pub Handler : Type 0
Handler = ShopBot → Db → Memory → Result Db × Memory

-- the steps that stand before each handler
unfoldable pub admitted : Bool → Sender → Handler → Db → Memory → Result Db × Memory
admitted answers m handle db s = elim (get_by_bot_telegram_id m.bot_id db) [
  | raised e ↦ (raised e, s)
  | ok none ↦ (ok db, s)
  | ok (some b) ↦
      let (access, windows) =
        check_access answers m.now b.id b.shop_owner_id m.telegram_id db s.windows in
      let s1 : Memory = record s { windows = windows } in
      elim access [
        | raised e ↦ (raised e, s1)
        | ok (false, db1) ↦ (ok db1, s1)
        | ok (true, db1) ↦ elim (met m b.id db1) [
          | raised e ↦ (raised e, s1)
          | ok db2 ↦ handle b db2 s1
        ]
      ]
]

unfoldable pub customer_message : Bool → Sender → String → Db → Memory → Result Db × Memory
unfolding admitted
customer_message answers m text = admitted answers m (λ b db s. (ok db, scheduled m b.id text s))

-- a voice that was understood is paid for, and then waits like a text
abbrev pub heard : Sender → AdminSettings → ShopBot → ℕ → String → Db → Memory → Result Db × Memory
heard m settings b owner_id transcript db s =
    elim (deduct_and_notify m.now settings owner_id (estimate_voice_cost settings)
      voice_transcription db) [
        | raised e ↦ (raised e, s)
        | ok db1 ↦ (ok db1, scheduled m b.id transcript s)
      ]

module _ (unicode : Unicode) where
  -- any failure, and a silence, is answered in one way
  abbrev pub understood :
      Bool → Sender → AdminSettings → ShopBot → ℕ → Result String → Db → Memory → Result Db × Memory
  understood answers m settings b owner_id (raised e) db s = (answered answers db, s)
  understood answers m settings b owner_id (ok transcript) db s =
      let text = stripped unicode transcript in
      if same_text text "" then (answered answers db, s) else heard m settings b owner_id text db s

  -- `downloaded` says whether the voice came, and `hear` is the call of a service with it
  module _ (hear : Instant → OpenAiCompatibleAiService → Result String × Instant) where
    abbrev pub transcribe : Bool → Sender → ℕ → AiService → Circuits → Result String × Circuits
    transcribe downloaded m start service circuits =
        let (result, circuits1, later) = run hear service start m.now circuits in
        if downloaded then (result, circuits1) else (raised telegram_error, circuits)

    unfoldable pub voice_from :
        Bool → Bool → Sender → ℕ → AdminSettings → ShopBot → Db → Memory → Result Db × Memory
    voice_from answers downloaded m start settings b db s =
        elim (get_row b.shop_owner_id db.owners) [
          | none ↦ (answered answers db, s)
          | some owner ↦
              if leb_ℤ owner.wallet_balance_toman (pos 0)
              then (answered answers db, s)
              else (elim (build_ai_service settings chat db) [
                | none ↦ (answered answers db, s)
                | some service ↦
                    let (result, circuits) = transcribe downloaded m start service s.circuits in
                    understood answers m settings b owner.id result db
                      (record s { circuits = circuits })
              ])
        ]

    unfoldable pub customer_voice : Bool → Bool → Sender → ℕ → Db → Memory → Result Db × Memory
    unfolding admitted voice_from
    customer_voice answers downloaded m start = admitted answers m (λ b db s.
        let (settings, db1) = get_admin_settings db in
        voice_from answers downloaded m start settings b db1 s)

-- `look` is the call of a service with the photo
module _ (look : Instant → OpenAiCompatibleAiService → Result AiCallResult × Instant) where
  -- The analysis is paid for where it came; any exception is logged, and counts for no analysis.
  unfoldable pub analyze : Sender → ℕ → AdminSettings → ShopOwner → Db → Circuits → Db × Circuits
  analyze m start settings owner db circuits = elim (build_ai_service settings vision db) [
    | none ↦ (db, circuits)
    | some service ↦
        let (result, circuits1, later) = run look service start m.now circuits in
        elim result [
          | raised e ↦ (db, circuits1)
          | ok r ↦
              elim (deduct_and_notify later settings owner.id (estimate_photo_cost settings)
                photo_analysis db) [ raised e ↦ (db, circuits1) | ok db1 ↦ (db1, circuits1) ]
        ]
  ]

  -- A photo that did not come is only acknowledged; one that came is sent on to the owner.
  unfoldable pub photo_from :
      Bool → Bool → Sender → ℕ → AdminSettings → Option ShopOwner → Db → Memory → Result Db × Memory
  unfolding analyze
  photo_from answers false m start settings owner db s = (answered answers db, s)
  photo_from answers true m start settings none db s = (raised attribute_error, s)
  photo_from answers true m start settings (some owner) db s =
      let (db1, circuits) = analyze m start settings owner db s.circuits in
      if leb_ℤ owner.wallet_balance_toman (pos 0)
      then (answered answers db, s)
      else (answered answers db1, record s { circuits = circuits })

  unfoldable pub customer_photo : Bool → Bool → Sender → ℕ → Db → Memory → Result Db × Memory
  unfolding admitted photo_from
  customer_photo answers downloaded m start = admitted answers m (λ b db s.
      let (settings, db1) = get_admin_settings db in
      photo_from answers downloaded m start settings (get_row b.shop_owner_id db1.owners) db1 s)
