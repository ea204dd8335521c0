-- ===== src/Web/Manager.antt =====
-- `ShopBotManager` of app/services/bot_manager.py: the shop bots that run. The cipher of the tokens
-- and Telegram are parameters.
use kasb_o_kar_hoshmand.Base.{
  ℕ, ◌+◌, String, Bool, true, false, Option, none, some, List, [], ◌∷◌, ◌==◌, if◌then◌else◌,
  is_some,
}
use kasb_o_kar_hoshmand.Base.Table.{get_row, save}
use kasb_o_kar_hoshmand.Models.{
  ShopBot-Keyed, ShopBot, Db, Result, ok, raised, value_error, telegram_error,
}

-- The dictionaries, as functions of the shop bot: the bot's token, whether a polling task runs, and
-- the secret of the webhook.
pub record ShopBotManager : Type 0 where
  pub bots : ℕ → Option String
  pub polling_tasks : ℕ → Bool
  pub secrets : ℕ → Option String

abbrev pub with_key {ℓ} : {A : Type ℓ} → ℕ → A → (ℕ → A) → ℕ → A
with_key k a f j = if j == k then a else f j

unfoldable pub get_bot : ShopBotManager → ℕ → Option String
get_bot m shop_bot_id = m.bots shop_bot_id

unfoldable pub get_secret : ShopBotManager → ℕ → Option String
get_secret m shop_bot_id = m.secrets shop_bot_id

-- errors of Telegram in deleting the webhook are passed over
unfoldable pub unregister : ℕ → ShopBotManager → ShopBotManager
unregister shop_bot_id m = record {
  bots = with_key shop_bot_id none m.bots;
  polling_tasks = with_key shop_bot_id false m.polling_tasks;
  secrets = with_key shop_bot_id none m.secrets;
}

-- the bot and its secret, in place of those that run
unfoldable pub install : ShopBot → String → ShopBotManager → ShopBotManager
unfolding unregister
install b token m =
    let m1 = if is_some (m.bots b.id) then unregister b.id m else m in
    record m1 {
      bots = with_key b.id (some token) m1.bots;
      secrets = with_key b.id (some b.webhook_secret_token) m1.secrets;
    }

-- `decrypt_token` raises for a token that was not encrypted here; `set_webhook` says whether
-- Telegram takes the webhook, after the bot is in the dictionaries.
module _ (webhook_mode : Bool) (decrypt_token : String → Option String)
    (set_webhook : ShopBot → Bool) where
  unfoldable pub register : ShopBot → ShopBotManager → Result (Unit {0}) × ShopBotManager
  unfolding install
  register b m = elim (decrypt_token b.encrypted_token) [
    | none ↦ (raised value_error, m)
    | some token ↦
        let m1 = install b token m in
        if webhook_mode
        then (if set_webhook b then ok tt else raised telegram_error, m1)
        else (ok tt, record m1 { polling_tasks = with_key b.id true m1.polling_tasks })
  ]

  -- an exception of one bot is logged, and the next is registered
  unfoldable pub load_all : List ShopBot → ShopBotManager → ShopBotManager
  unfolding register
  load_all [] m = m
  load_all (b ∷ bs) m = load_all bs (register b m).1

unfoldable pub mark_disabled : ℕ → String → Db → Db
mark_disabled shop_bot_id reason db = elim (get_row shop_bot_id db.shop_bots) [
  | none ↦ db
  | some b ↦ record db {
    shop_bots = save (record b { is_active = false; disabled_reason = some reason }) db.shop_bots;
  }
]

-- What a request for updates ends with.
pub data Poll : Type 0 where
  unauthorized : Poll
  failed : Poll
  updates : List ℕ → Poll

-- the offset after the updates that came, each of which is fed, whatever its handling raises
abbrev pub next_offset : Option ℕ → List ℕ → Option ℕ
next_offset offset [] = offset
next_offset offset (u ∷ us) = next_offset (some (u + 1)) us

-- One round of `_poll`: the offset and the updates to feed, or the end of the task.
unfoldable pub poll_round : ℕ → String → Poll → Option ℕ → Db → Option (Option ℕ × List ℕ) × Db
unfolding mark_disabled
poll_round shop_bot_id reason unauthorized offset db = (none, mark_disabled shop_bot_id reason db)
poll_round shop_bot_id reason failed offset db = (some (offset, []), db)
poll_round shop_bot_id reason (updates us) offset db = (some (next_offset offset us, us), db)
