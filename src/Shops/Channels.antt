-- ===== src/Shops/Channels.antt =====
-- app/services/channel_service.py: the channels that users have to join. Whether a user is in a
-- channel is asked of Telegram, which is a parameter.
use kasb_o_kar_hoshmand.Base.{
  ℕ, String, Bool, true, false, ◌||◌, Option, none, some, List, [], ◌∷◌, ◌++◌, if◌then◌else◌,
  head_of, where_rows, sort_on,
}
use kasb_o_kar_hoshmand.Base.Texts.{same_text}
use kasb_o_kar_hoshmand.Base.Table.{get_row, save, delete_row, next_key}
use kasb_o_kar_hoshmand.Models.{
  MandatoryChannel-Keyed, MandatoryChannel, Db, Result, ok, raised, integrity_error,
}

-- Telegram's answer is the status of the member; an error gives none.
module _ (get_chat_member : String → ℕ → Option String) where
  abbrev pub is_missing : ℕ → MandatoryChannel → Bool
  is_missing user_id c = elim (get_chat_member c.channel_id user_id) [
    | none ↦ true
    | some status ↦ same_text status "left" || same_text status "kicked"
  ]

  unfoldable pub get_missing_channels : List MandatoryChannel → ℕ → List MandatoryChannel
  get_missing_channels channels user_id = where_rows (is_missing user_id) channels

-- the primary channel first, then by id
unfoldable pub get_mandatory_channels : Db → List MandatoryChannel
get_mandatory_channels db =
    sort_on (λ c. if c.is_primary then 0 else 1) (sort_on (λ c. c.id) db.channels)

unfoldable pub get_by_id : ℕ → Db → Option MandatoryChannel
get_by_id channel_id db = get_row channel_id db.channels

unfoldable pub get_primary_channel : Db → Option MandatoryChannel
get_primary_channel db = head_of (where_rows (λ c. c.is_primary) db.channels)

-- the channel that was the primary one is no more
unfoldable pub demote_primary : Bool → Db → Db
unfolding get_primary_channel
demote_primary is_primary db =
    if is_primary
    then (elim (get_primary_channel db) [
      | none ↦ db
      | some old ↦ record db { channels = save (record old { is_primary = false }) db.channels }
    ])
    else db

-- the column of Telegram's ids is unique
unfoldable pub create_channel :
    String → String → Option String → Bool → Db → Result (MandatoryChannel × Db)
unfolding demote_primary
create_channel channel_id name invite_link is_primary db =
    let db1 = demote_primary is_primary db in
    elim (where_rows (λ c. same_text c.channel_id channel_id) db1.channels) [
      | [] ↦
          let c : MandatoryChannel = record {
            id = next_key db1.channels;
            channel_id = channel_id;
            name = name;
            invite_link = invite_link;
            is_primary = is_primary;
          } in
          ok (c, record db1 { channels = db1.channels ++ c ∷ [] })
      | other ∷ rest ↦ raised integrity_error
    ]

unfoldable pub delete_channel : ℕ → Db → Db
delete_channel channel_id db = record db { channels = delete_row channel_id db.channels }
