-- ===== src/Shops/Bots.antt =====
-- app/services/shop_bot_service.py: the bot of a shop. The cipher of the tokens is a parameter.
use kasb_o_kar_hoshmand.Base.{
  ℕ, String, Bool, true, not, ◌&&◌, Option, none, some, List, [], ◌∷◌, ◌++◌, ◌==◌, where_rows,
}
use kasb_o_kar_hoshmand.Base.Table.{get_row, save, next_key}
use kasb_o_kar_hoshmand.Models.{
  ShopBot-Keyed, ShopBot, ShopOwner, sales, Db, Result, ok, raised, integrity_error, ◌>>=◌,
  scalar_one_or_none,
}

abbrev pub is_of_owner : ℕ → ShopBot → Bool
is_of_owner shop_owner_id b = b.shop_owner_id == shop_owner_id

unfoldable pub get_by_owner : Option ShopOwner → Db → Result (Option ShopBot)
get_by_owner none db = ok none
get_by_owner (some owner) db = scalar_one_or_none (where_rows (is_of_owner owner.id) db.shop_bots)

unfoldable pub get_by_id : ℕ → Db → Option ShopBot
get_by_id shop_bot_id db = get_row shop_bot_id db.shop_bots

abbrev pub is_bot : ℕ → ShopBot → Bool
is_bot bot_telegram_id b = b.bot_telegram_id == bot_telegram_id

unfoldable pub get_by_bot_telegram_id : ℕ → Db → Result (Option ShopBot)
get_by_bot_telegram_id bot_telegram_id db =
    scalar_one_or_none (where_rows (is_bot bot_telegram_id) db.shop_bots)

unfoldable pub get_all_active : Db → List ShopBot
get_all_active db = where_rows (λ b. b.is_active) db.shop_bots

-- a bot that is registered for the first time
abbrev pub new_bot : ℕ → String → ℕ → String → String → Db → ShopBot
new_bot shop_owner_id encrypted bot_telegram_id bot_username secret db = record {
  id = next_key db.shop_bots;
  shop_owner_id = shop_owner_id;
  encrypted_token = encrypted;
  bot_telegram_id = bot_telegram_id;
  bot_username = bot_username;
  webhook_secret_token = secret;
  ai_instructions = none;
  zarinpal_merchant_id = none;
  tenant_mode = sales;
  knowledge_channel_id = none;
  knowledge_channel_bot = none;
  is_active = true;
  disabled_reason = none;
  last_report_sent_at = none;
}

-- The column of the bots' Telegram ids is unique: a flush of a row with the id of another raises.
abbrev pub flush_bot : ShopBot → List ShopBot → Db → Result (ShopBot × Db)
flush_bot b bots db =
    elim (where_rows (λ o. is_bot b.bot_telegram_id o && not (o.id == b.id)) db.shop_bots) [
      | [] ↦ ok (b, record db { shop_bots = bots })
      | other ∷ rest ↦ raised integrity_error
    ]

module _ (encrypt_token : String → String) where
  -- `secret` is what `secrets.token_urlsafe` drew
  unfoldable pub upsert_shop_bot :
      String → ShopOwner → String → ℕ → String → Db → Result (ShopBot × Db)
  unfolding get_by_owner
  upsert_shop_bot secret owner raw_token bot_telegram_id bot_username db = do
    found ← get_by_owner (some owner) db
    elim found [
      | none ↦
          let b =
            new_bot owner.id (encrypt_token raw_token) bot_telegram_id bot_username secret db in
          flush_bot b (db.shop_bots ++ b ∷ []) db
      | some old ↦
          let b = record old {
            encrypted_token = encrypt_token raw_token;
            bot_telegram_id = bot_telegram_id;
            bot_username = bot_username;
            is_active = true;
            disabled_reason = none;
          } in
          flush_bot b (save b db.shop_bots) db
    ]
