-- ===== src/Shops/Knowledge.antt =====
-- app/services/channel_knowledge_service.py and app/bots/common/channel_knowledge.py: the posts of a
-- shop's channel, which its bot answers from.
use mathlib.Core.List.{reverse}
use kasb_o_kar_hoshmand.Base.{
  ℕ, String, Bool, false, Option, none, some, List, [], ◌∷◌, ◌++◌, ◌==◌, if◌then◌else◌, take,
  where_rows, sort_on,
}
use kasb_o_kar_hoshmand.Base.Texts.{same_text}
use kasb_o_kar_hoshmand.Base.Time.{Instant}
use kasb_o_kar_hoshmand.Base.Table.{next_key}
use kasb_o_kar_hoshmand.Models.{
  ChannelKnowledge-Keyed, ChannelKnowledge, ShopBot, Db, Result, ok, ◌>>=◌, scalar_one_or_none,
}

abbrev pub reads_channel : String → ShopBot → Bool
reads_channel channel_id b = elim b.knowledge_channel_id [
  | none ↦ false
  | some c ↦ same_text c channel_id
]

unfoldable pub get_shop_bot_by_channel_id : String → Db → Result (Option ShopBot)
get_shop_bot_by_channel_id channel_id db =
    scalar_one_or_none (where_rows (reads_channel channel_id) db.shop_bots)

unfoldable pub save_knowledge_post : ℕ → String → String → Instant → Db → ChannelKnowledge × Db
save_knowledge_post shop_bot_id source_channel_id text posted_at db =
    let e : ChannelKnowledge = record {
      id = next_key db.knowledge;
      shop_bot_id = shop_bot_id;
      source_channel_id = source_channel_id;
      text = text;
      posted_at = posted_at;
    } in
    (e, record db { knowledge = db.knowledge ++ e ∷ [] })

-- the latest posts, latest first
unfoldable pub get_recent_knowledge : ℕ → ℕ → Db → List ChannelKnowledge
get_recent_knowledge shop_bot_id limit db = take limit (
    reverse
      (sort_on (λ e. e.posted_at) (where_rows (λ e. e.shop_bot_id == shop_bot_id) db.knowledge)))

-- `channel_post.text or channel_post.caption`, if that is not empty
abbrev pub post_text : Option String → Option String → Option String
post_text text caption = elim (filled text) [ some s ↦ some s | none ↦ filled caption ]
  where
    filled : Option String → Option String
    filled none = none
    filled (some s) = if same_text s "" then none else some s

unfoldable pub capture_channel_post :
    Option String → Option String → String → Instant → Db → Result Db
unfolding get_shop_bot_by_channel_id save_knowledge_post
capture_channel_post text caption chat_id date db = elim (post_text text caption) [
  | none ↦ ok db
  | some post ↦ (do
    found ← get_shop_bot_by_channel_id chat_id db
    ok (elim found [
      | none ↦ db
      | some shop_bot ↦ (save_knowledge_post shop_bot.id chat_id post date db).1
    ]))
]
