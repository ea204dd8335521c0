-- ===== src/Admin/Roles.antt =====
-- `IsSuperAdmin` and `IsAdmin` of app/bots/main_bot/filters.py, and the handlers of
-- app/bots/main_bot/handlers/admin.py that make and unmake operators. `is_admin_id` is membership in
-- `settings.admin_ids`; the numbers of a role and of a user are those that the button or the text names.
use kasb_o_kar_hoshmand.Base.{ℕ, String, Bool, true, Option, none, some, if◌then◌else◌}
use kasb_o_kar_hoshmand.Models.{
  AdminRole, operator_admin_granted, operator_admin_revoked, Db, Result, ok, raised, telegram_error,
  ◌>>=◌,
}
use kasb_o_kar_hoshmand.Platform.Roles.{
  get_by_id, get_by_telegram_id, is_operator, grant_operator, revoke,
}
use kasb_o_kar_hoshmand.Platform.Audit.{log}

-- What an administrator is told.
pub data RoleAnswer : Type 0 where
  invalid_telegram_id already_super_admin already_operator generic_error : RoleAnswer
  granted revoked : RoleAnswer

-- `answers` says whether Telegram takes the answer; its error is not caught, and rolls back
abbrev pub say : Bool → RoleAnswer → Db → Result (RoleAnswer × Db)
say answers what db = if answers then ok (what, db) else raised telegram_error

module _ (is_admin_id : ℕ → Bool) where
  -- the filter on the handlers of prices, keys and operators
  abbrev pub is_super_admin : ℕ → Bool
  is_super_admin user_id = is_admin_id user_id

  -- the filter on all the other handlers
  unfoldable pub is_admin : ℕ → Db → Result Bool
  is_admin user_id db = if is_admin_id user_id then ok true else is_operator user_id db

  abbrev pub grant : Bool → ℕ → ℕ → String → Option AdminRole → Db → Result (RoleAnswer × Db)
  grant answers user_id telegram_id details (some role) db = say answers already_operator db
  grant answers user_id telegram_id details none db = do
    (role, db1) ← grant_operator telegram_id user_id db
    say answers granted (log operator_admin_granted none (some user_id) (some details) db1).1

  unfoldable pub admin_role_telegram_id_received :
      Bool → ℕ → Option ℕ → (ℕ → String) → Db → Result (RoleAnswer × Db)
  admin_role_telegram_id_received answers user_id none details db =
      say answers invalid_telegram_id db
  admin_role_telegram_id_received answers user_id (some telegram_id) details db =
      if is_admin_id telegram_id then say answers already_super_admin db else (do
        existing ← get_by_telegram_id telegram_id db
        grant answers user_id telegram_id (details telegram_id) existing db)

unfoldable pub cb_admin_role_revoke : Bool → ℕ → ℕ → (ℕ → String) → Db → Result (RoleAnswer × Db)
cb_admin_role_revoke answers user_id role_id details db = elim (get_by_id role_id db) [
  | none ↦ say answers generic_error db
  | some role ↦
      say answers revoked
        (log operator_admin_revoked none (some user_id) (some (details role.telegram_id))
          (revoke role db)).1
]
