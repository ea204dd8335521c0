-- ===== src/Platform/Roles.antt =====
-- app/services/admin_role_service.py: operators, who may do part of what the administrators may.
use kasb_o_kar_hoshmand.Base.{
  ℕ, Bool, Option, List, [], ◌∷◌, ◌++◌, ◌==◌, is_some, where_rows, sort_on,
}
use kasb_o_kar_hoshmand.Base.Table.{get_row, delete_row, next_key}
use kasb_o_kar_hoshmand.Models.{
  AdminRole-Keyed, AdminRole, operator, Db, Result, ok, raised, integrity_error, ◌>>=◌,
  scalar_one_or_none,
}

unfoldable pub get_all : Db → List AdminRole
get_all db = sort_on (λ r. r.id) db.admin_roles

unfoldable pub get_by_id : ℕ → Db → Option AdminRole
get_by_id role_id db = get_row role_id db.admin_roles

abbrev pub is_of : ℕ → AdminRole → Bool
is_of telegram_id r = r.telegram_id == telegram_id

unfoldable pub get_by_telegram_id : ℕ → Db → Result (Option AdminRole)
get_by_telegram_id telegram_id db =
    scalar_one_or_none (where_rows (is_of telegram_id) db.admin_roles)

unfoldable pub is_operator : ℕ → Db → Result Bool
unfolding get_by_telegram_id
is_operator telegram_id db = do role ← get_by_telegram_id telegram_id db; ok (is_some role)

-- the column of Telegram ids is unique
unfoldable pub grant_operator : ℕ → ℕ → Db → Result (AdminRole × Db)
grant_operator telegram_id granted_by_telegram_id db =
    elim (where_rows (is_of telegram_id) db.admin_roles) [
      | [] ↦
          let r : AdminRole = record {
            id = next_key db.admin_roles;
            telegram_id = telegram_id;
            role = operator;
            granted_by_telegram_id = granted_by_telegram_id;
          } in
          ok (r, record db { admin_roles = db.admin_roles ++ r ∷ [] })
      | other ∷ rest ↦ raised integrity_error
    ]

unfoldable pub revoke : AdminRole → Db → Db
revoke role db = record db { admin_roles = delete_row role.id db.admin_roles }
