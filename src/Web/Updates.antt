-- ===== src/Web/Updates.antt =====
-- The webhooks of app/main.py for Telegram's updates, and the memory of the updates that were seen.
use kasb_o_kar_hoshmand.Base.{
  ℕ, String, Bool, true, false, not, ◌&&◌, ◌||◌, Option, none, some, List, [], ◌∷◌, ltb, ◌==◌,
  if◌then◌else◌, length,
}
use kasb_o_kar_hoshmand.Base.Texts.{same_text}
use kasb_o_kar_hoshmand.Web.Manager.{ShopBotManager, get_bot, get_secret}

abbrev pub max_seen_updates : ℕ
max_seen_updates = 2000

-- `_seen_update_ids`, the latest first: of the ordered dict only the keys are read
abbrev pub Seen : Type 0
Seen = List (ℕ × ℕ)

abbrev pub same_update : ℕ × ℕ → ℕ × ℕ → Bool
same_update (b, u) (c, v) = b == c && u == v

abbrev pub member : ℕ × ℕ → Seen → Bool
member k [] = false
member k (j ∷ js) = same_update k j || member k js

-- `popitem(last=False)`: the oldest key goes
abbrev pub drop_oldest : Seen → Seen
drop_oldest [] = []
drop_oldest (k ∷ []) = []
drop_oldest (k ∷ j ∷ js) = k ∷ drop_oldest (j ∷ js)

-- `limit` is `_MAX_SEEN_UPDATES`
unfoldable pub is_duplicate_update : ℕ → ℕ → ℕ → Seen → Bool × Seen
is_duplicate_update limit bot_id update_id seen =
    let key : ℕ × ℕ = (bot_id, update_id) in
    if member key seen
    then (true, seen)
    else (false, if ltb limit (length (key ∷ seen)) then drop_oldest (key ∷ seen) else key ∷ seen)

-- an absent secret, or an empty one, is not compared
unfoldable pub is_valid_webhook_secret : String → Option String → Bool
is_valid_webhook_secret secret provided =
    same_text secret "" || elim provided [ none ↦ false | some s ↦ same_text s secret ]

-- The status of the response, whether the update is fed to the dispatcher, and what was seen.
unfoldable pub webhook_main : ℕ → String → Option String → ℕ → ℕ → Seen → ℕ × Bool × Seen
unfolding is_valid_webhook_secret is_duplicate_update
webhook_main limit secret provided bot_id update_id seen =
    if not (is_valid_webhook_secret secret provided)
    then (403, false, seen)
    else (let (duplicate, seen1) = is_duplicate_update limit bot_id update_id seen in
        (200, not duplicate, seen1))

abbrev pub same_secret : Option String → Option String → Bool
same_secret none none = true
same_secret (some s) (some t) = same_text s t
same_secret _ _ = false

-- `bot_id` is the id that Telegram gave the bot of a token
unfoldable pub webhook_shop :
    ℕ → ShopBotManager → (String → ℕ) → ℕ → Option String → ℕ → Seen → ℕ × Bool × Seen
unfolding get_bot get_secret is_duplicate_update
webhook_shop limit manager bot_id shop_bot_id provided update_id seen =
    elim (get_bot manager shop_bot_id) [
      | none ↦ (404, false, seen)
      | some token ↦
          if not (same_secret provided (get_secret manager shop_bot_id))
          then (403, false, seen)
          else (let (duplicate, seen1) = is_duplicate_update limit (bot_id token) update_id seen in
              (200, not duplicate, seen1))
    ]
