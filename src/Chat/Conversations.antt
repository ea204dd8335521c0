-- ===== src/Chat/Conversations.antt =====
-- app/services/conversation_service.py: the turns of a conversation, and the end of old ones.
use mathlib.Core.List.{reverse}
use kasb_o_kar_hoshmand.Base.{
  ℕ, ◌+◌, String, Bool, not, List, [], ◌∷◌, ◌++◌, map, ltb, ◌==◌, if◌then◌else◌, where_rows, take,
  length, sort_on,
}
use kasb_o_kar_hoshmand.Base.Time.{Instant, days}
use kasb_o_kar_hoshmand.Base.Table.{next_key}
use kasb_o_kar_hoshmand.Models.{ConversationMessage-Keyed, ConversationMessage, Db}

-- the last `limit` messages of a customer, oldest first, as roles and contents
unfoldable pub get_recent_history : ℕ → ℕ → Db → List (String × String)
get_recent_history customer_id limit db =
    map (λ m. (m.role, m.content))
      (reverse (
        take limit (
          reverse
            (sort_on (λ m. m.id) (where_rows (λ m. m.customer_id == customer_id) db.messages)))))

unfoldable pub add_message : Instant → ℕ → String → String → Db → Db
add_message now customer_id role content db = record db {
  messages =
      db.messages
      ++ record {
        id = next_key db.messages;
        customer_id = customer_id;
        role = role;
        content = content;
        created_at = now;
      }
        ∷ [];
}

unfoldable pub save_turn : Instant → ℕ → String → String → Db → Db
unfolding add_message
save_turn now customer_id user_message assistant_reply db =
    add_message now customer_id "assistant" assistant_reply
      (add_message now customer_id "user" user_message db)

-- `created_at < now - retention_days`
abbrev pub is_old : Instant → ℕ → ConversationMessage → Bool
is_old now retention_days m = ltb (m.created_at + days retention_days) now

unfoldable pub prune_old_messages : Instant → ℕ → Db → ℕ × Db
prune_old_messages now retention_days db = if retention_days == 0 then (0, db) else (
  length (where_rows (is_old now retention_days) db.messages),
  record db { messages = where_rows (λ m. not (is_old now retention_days m)) db.messages },
)
