-- ===== src/Models/Chat.antt =====
-- `Customer` and `ConversationMessage` of app/database/models.py.
use kasb_o_kar_hoshmand.Base.{ℕ, String, Option}
use kasb_o_kar_hoshmand.Base.Time.{Instant}
use kasb_o_kar_hoshmand.Base.Table.{Keyed}

pub record Customer : Type 0 where
  pub id : ℕ
  pub shop_bot_id : ℕ
  pub telegram_id : ℕ
  pub first_name : Option String
  pub username : Option String
  pub last_message_at : Option Instant

pub record ConversationMessage : Type 0 where
  pub id : ℕ
  pub customer_id : ℕ
  pub role : String
  pub content : String
  pub created_at : Instant

instance abbrev pub Customer-Keyed : Keyed Customer
Customer-Keyed = record { key = λ r. r.id }

instance abbrev pub ConversationMessage-Keyed : Keyed ConversationMessage
ConversationMessage-Keyed = record { key = λ r. r.id }
