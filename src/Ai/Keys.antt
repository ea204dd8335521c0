-- ===== src/Ai/Keys.antt =====
-- app/services/ai_pool_service.py: the keys in the table, and the service that is built of them.
use kasb_o_kar_hoshmand.Base.{
  ℕ, String, Bool, true, false, not, ◌&&◌, Option, none, some, List, [], ◌∷◌, ◌++◌, map, where_rows,
  sort_on,
}
use kasb_o_kar_hoshmand.Base.Int.{pos, negsuc}
use kasb_o_kar_hoshmand.Base.Table.{get_row, save, delete_row, next_key}
use kasb_o_kar_hoshmand.Models.{
  AiApiKeyPoolEntry-Keyed, AiApiKeyPoolEntry, AiKeyCapability, chat, vision, both, AdminSettings,
  Db,
}
use kasb_o_kar_hoshmand.Ai.Client.{default_ai_base_url}
use kasb_o_kar_hoshmand.Ai.Pool.{
  Entries, AiService, one_key, pooled, given, or_text, get_ai_service,
}

unfoldable pub get_all_entries : Db → List AiApiKeyPoolEntry
get_all_entries db = sort_on (λ e. e.id) db.ai_keys

-- `capability.in_([wanted, "both"])`
abbrev pub serves : AiKeyCapability → AiKeyCapability → Bool
serves wanted both = true
serves chat chat = true
serves vision vision = true
serves _ _ = false

unfoldable pub get_active_entries_for_capability : AiKeyCapability → Db → List AiApiKeyPoolEntry
get_active_entries_for_capability capability db =
    where_rows (λ e. e.is_active && serves capability e.capability) db.ai_keys

unfoldable pub add_entry :
    String → String → String → String → AiKeyCapability → Db → AiApiKeyPoolEntry × Db
add_entry label api_key model base_url capability db =
    let e : AiApiKeyPoolEntry = record {
      id = next_key db.ai_keys;
      label = label;
      api_key = api_key;
      model = model;
      base_url = base_url;
      capability = capability;
      is_active = true;
    } in
    (e, record db { ai_keys = db.ai_keys ++ e ∷ [] })

unfoldable pub get_by_id : ℕ → Db → Option AiApiKeyPoolEntry
get_by_id entry_id db = get_row entry_id db.ai_keys

unfoldable pub toggle_active : AiApiKeyPoolEntry → Db → Db
toggle_active e db = record db {
  ai_keys = save (record e { is_active = not e.is_active }) db.ai_keys;
}

unfoldable pub delete_entry : AiApiKeyPoolEntry → Db → Db
delete_entry e db = record db { ai_keys = delete_row e.id db.ai_keys }

-- the key of the settings, under 0
abbrev pub own_entry : AdminSettings → Entries
own_entry settings = elim (given settings.ai_api_key) [
  | none ↦ []
  | some key ↦
      (pos 0, record { api_key = key; model = settings.ai_model; base_url = settings.ai_base_url })
      ∷ []
]

-- the second key of the settings, under -1
abbrev pub fallback_entry : AdminSettings → Entries
fallback_entry settings = elim (given settings.ai_fallback_api_key) [
  | none ↦ []
  | some key ↦ elim (given settings.ai_fallback_model) [
    | none ↦ []
    | some model ↦
        (
          negsuc 0,
          record {
            api_key = key;
            model = model;
            base_url = or_text settings.ai_fallback_base_url default_ai_base_url;
          },
        )
        ∷ []
  ]
]

abbrev pub pool_entries : List AiApiKeyPoolEntry → Entries
pool_entries es =
    map (λ e. (pos e.id, record { api_key = e.api_key; model = e.model; base_url = e.base_url })) es

-- one entry needs no pool
abbrev pub service_of : Entries → AiService
service_of ((key_id, service) ∷ []) = one_key service
service_of entries = pooled entries

-- the service where the pool has no key that fits
abbrev pub without_pool : AdminSettings → Option AiService
without_pool settings = elim (given settings.ai_api_key) [
  | none ↦ none
  | some key ↦ some (
      get_ai_service key settings.ai_model settings.ai_base_url settings.ai_fallback_api_key
        settings.ai_fallback_model settings.ai_fallback_base_url)
]

unfoldable pub build_ai_service : AdminSettings → AiKeyCapability → Db → Option AiService
unfolding get_active_entries_for_capability get_ai_service
build_ai_service settings capability db = elim (get_active_entries_for_capability capability db) [
  | [] ↦ without_pool settings
  | e ∷ es ↦
      some (service_of (own_entry settings ++ (fallback_entry settings ++ pool_entries (e ∷ es))))
]
