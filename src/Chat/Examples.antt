-- ===== src/Chat/Examples.antt =====
-- Runs of the customers and their conversations.
use kasb_o_kar_hoshmand.Base.{ℕ, ◌≡◌, refl, none, some, [], ◌∷◌}
use kasb_o_kar_hoshmand.Base.Time.{days}
use kasb_o_kar_hoshmand.Models.{empty_db, Customer, ConversationMessage, Db, Result, ok, raised}
use kasb_o_kar_hoshmand.Chat.Customers.{
  is_customer, or_kept, get_by_shop_bot_and_telegram_id, get_or_create_customer,
  get_or_create_customer_found,
}

abbrev ali : Customer
ali = record {
  id = 1;
  shop_bot_id = 3;
  telegram_id = 900;
  first_name = some "Ali";
  username = some "ali";
  last_message_at = some (days 1);
}

abbrev said : ℕ → ℕ → ConversationMessage
said id day = record {
  id = id;
  customer_id = 1;
  role = "user";
  content = "hello";
  created_at = days day;
}

abbrev chat : Db
chat = record empty_db { customers = ali ∷ []; messages = said 1 1 ∷ said 2 50 ∷ [] }

abbrev ali_later : Customer
ali_later = record ali { username = some "ali2"; last_message_at = some (days 9) }

abbrev db_of : Result (Customer × Db) → Db
db_of (ok (c, db)) = db
db_of (raised e) = chat

abbrev greeted : Db
greeted = db_of (get_or_create_customer (days 9) 3 900 none (some "ali2") chat)

met : get_or_create_customer (days 9) 3 900 none (some "ali2") chat ≡ ok (ali_later, greeted)
unfolding get_or_create_customer get_by_shop_bot_and_telegram_id
    kasb_o_kar_hoshmand.Chat.Customers.seen_again
met = refl
