-- ===== src/Settings.antt =====
-- app/services/admin_settings_service.py: the single settings row, made on first use.
use kasb_o_kar_hoshmand.Base.{none, some, ◌≡◌, refl, Option-cases, inl, inr, arith}
use kasb_o_kar_hoshmand.Models.{AdminSettings, default_settings, Db}

unfoldable pub get_admin_settings : Db → AdminSettings × Db
get_admin_settings db = elim db.settings [
  | none ↦ (default_settings, record db { settings = some default_settings })
  | some row ↦ (row, db)
]

-- `setattr` on one field is a function on the row.
unfoldable pub update_setting : (AdminSettings → AdminSettings) → Db → AdminSettings × Db
unfolding get_admin_settings
update_setting assign db =
    let (row, db1) = get_admin_settings db in
    (assign row, record db1 { settings = some (assign row) })

-- Reading the settings changes no other table.
pub get_admin_settings_keeps :
    (db : Db) → (get_admin_settings db).1 ≡ record db { settings = some (get_admin_settings db).0 }
unfolding get_admin_settings
get_admin_settings_keeps db = elim (Option-cases db.settings) [
  | inl missing ↦ rw (missing, get_admin_settings) refl
  | inr (row, found) ↦ ground (arith, found)
]
