-- ===== src/Models/Shops.antt =====
-- `ShopBot`, `MandatoryChannel`, `ChannelKnowledge` and `BotErrorEvent` of app/database/models.py.
use kasb_o_kar_hoshmand.Base.{ℕ, String, Bool, Option}
use kasb_o_kar_hoshmand.Base.Time.{Instant}
use kasb_o_kar_hoshmand.Base.Table.{Keyed}

pub data TenantMode : Type 0 where
  sales consultation : TenantMode

pub record ShopBot : Type 0 where
  pub id : ℕ
  pub shop_owner_id : ℕ
  pub encrypted_token : String
  pub bot_telegram_id : ℕ
  pub bot_username : String
  pub webhook_secret_token : String
  pub ai_instructions : Option String
  pub zarinpal_merchant_id : Option String
  pub tenant_mode : TenantMode
  pub knowledge_channel_id : Option String
  pub knowledge_channel_bot : Option String
  pub is_active : Bool
  pub disabled_reason : Option String
  pub last_report_sent_at : Option Instant

pub record MandatoryChannel : Type 0 where
  pub id : ℕ
  pub channel_id : String
  pub name : String
  pub invite_link : Option String
  pub is_primary : Bool

pub record ChannelKnowledge : Type 0 where
  pub id : ℕ
  pub shop_bot_id : ℕ
  pub source_channel_id : String
  pub text : String
  pub posted_at : Instant

pub record BotErrorEvent : Type 0 where
  pub id : ℕ
  pub shop_bot_id : ℕ
  pub created_at : Instant

instance abbrev pub ShopBot-Keyed : Keyed ShopBot
ShopBot-Keyed = record { key = λ r. r.id }

instance abbrev pub MandatoryChannel-Keyed : Keyed MandatoryChannel
MandatoryChannel-Keyed = record { key = λ r. r.id }

instance abbrev pub ChannelKnowledge-Keyed : Keyed ChannelKnowledge
ChannelKnowledge-Keyed = record { key = λ r. r.id }

instance abbrev pub BotErrorEvent-Keyed : Keyed BotErrorEvent
BotErrorEvent-Keyed = record { key = λ r. r.id }
