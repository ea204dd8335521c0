-- ===== src/Chat/History.antt =====
-- The stored messages of a conversation, in app/services/conversation_service.py.
use kasb_o_kar_hoshmand.Base.{
  ℕ, ◌+◌, ◌<◌, ◌≡◌, refl, inl, inr, Bool, true, not, List, [], ◌∷◌, arith, where_rows,
  where_rows_pass, length, Bool-cases, All,
}
use kasb_o_kar_hoshmand.Base.Time.{Instant}
use kasb_o_kar_hoshmand.Models.{ConversationMessage, Db}
use kasb_o_kar_hoshmand.Chat.Conversations.{is_old, prune_old_messages}

split_length :
    (p : ConversationMessage → Bool) (ms : List ConversationMessage)
    → length (where_rows p ms) + length (where_rows (λ m. not (p m)) ms) ≡ length ms
split_length p [] = refl
split_length p (m ∷ ms) = ground (arith, split_length p ms)

none_left :
    (p : ConversationMessage → Bool) (ms : List ConversationMessage)
    → length (where_rows p (where_rows (λ m. not (p m)) ms)) ≡ 0
none_left p [] = refl
none_left p (m ∷ ms) = elim (Bool-cases (p m)) [
  | inl old ↦ ground (arith, old, none_left p ms)
  | inr young ↦ ground (arith, young, none_left p ms)
]

prune_on :
    (now : Instant) (retention_days : ℕ) (db : Db)
    → 0 < retention_days
    → prune_old_messages now retention_days db ≡ (
      length (where_rows (is_old now retention_days) db.messages),
      record db { messages = where_rows (λ m. not (is_old now retention_days m)) db.messages },
    )
unfolding prune_old_messages
prune_on now retention_days db positive = ground arith

-- With a retention of some days, a run of the pruning leaves no message older than that, counts
-- those that it deletes, and a second run at the same time deletes none.
pub prune_old_messages_done :
    (now : Instant) (retention_days : ℕ) (db : Db)
    → 0 < retention_days
    → let (count, db') = prune_old_messages now retention_days db in
      All (λ m. not (is_old now retention_days m) ≡ true) db'.messages
      × (count + length db'.messages ≡ length db.messages)
      × ((prune_old_messages now retention_days db').0 ≡ 0)
prune_old_messages_done now retention_days db positive =
    rw (prune_on now retention_days db positive) (
      where_rows_pass (λ m. not (is_old now retention_days m)) db.messages,
      split_length (is_old now retention_days) db.messages,
      rw (prune_on now retention_days _ positive)
          (none_left (is_old now retention_days) db.messages),
    )
