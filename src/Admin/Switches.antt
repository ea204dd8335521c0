-- ===== src/Admin/Switches.antt =====
-- The switches of the platform, in app/bots/main_bot/handlers/admin.py. `details` is the text of the
-- audit log for the new position of a switch.
use kasb_o_kar_hoshmand.Base.{ℕ, String, Bool, not, ◌&&◌, none, some, if◌then◌else◌, is_some}
use kasb_o_kar_hoshmand.Models.{
  AdminSettings, kill_switch_toggled, Db, Result, ok, raised, telegram_error,
}
use kasb_o_kar_hoshmand.Settings.{get_admin_settings}
use kasb_o_kar_hoshmand.Platform.Audit.{log}
use kasb_o_kar_hoshmand.Ai.Pool.{given}
use kasb_o_kar_hoshmand.Wallet.Cost.{compute_cost_per_1k_tokens_from_formula}

-- `answers` says whether Telegram takes the answer; its error is not caught, and rolls back
abbrev pub switched : Bool → Db → Result Db
switched answers db = if answers then ok db else raised telegram_error

abbrev pub with_settings : AdminSettings → Db → Db
with_settings s db = record db { settings = some s }

unfoldable pub cb_toggle_zarinpal : Bool → Db → Result Db
cb_toggle_zarinpal answers db =
    let (s, db1) = get_admin_settings db in
    switched answers (with_settings (record s { zarinpal_enabled = not s.zarinpal_enabled }) db1)

-- without the provider's token it is not switched on
unfoldable pub cb_toggle_bale_pay : Bool → Db → Result Db
cb_toggle_bale_pay answers db =
    let (s, db1) = get_admin_settings db in
    if not s.bale_pay_enabled && not (is_some (given s.bale_provider_token))
    then switched answers db1
    else switched answers
        (with_settings (record s { bale_pay_enabled = not s.bale_pay_enabled }) db1)

unfoldable pub cb_recalc_wallet_cost : Bool → Db → Result Db
cb_recalc_wallet_cost answers db =
    let (s, db1) = get_admin_settings db in
    switched answers (
      with_settings
        (record s { wallet_cost_per_1k_tokens_toman = compute_cost_per_1k_tokens_from_formula s })
        db1)

module _ (details : Bool → String) where
  -- the settings as they are switched, and the entry of the audit log
  abbrev pub switch_logged : Bool → ℕ → AdminSettings → Bool → Db → Result Db
  switch_logged answers admin s position db =
      switched answers
        (log kill_switch_toggled none (some admin) (some (details position)) (with_settings s db)).1

  unfoldable pub cb_toggle_registrations : Bool → ℕ → Db → Result Db
  cb_toggle_registrations answers admin db =
      let (s, db1) = get_admin_settings db in
      let position = not s.allow_new_registrations in
      switch_logged answers admin (record s { allow_new_registrations = position }) position db1

  unfoldable pub cb_toggle_topups : Bool → ℕ → Db → Result Db
  cb_toggle_topups answers admin db =
      let (s, db1) = get_admin_settings db in
      let position = not s.allow_wallet_topups in
      switch_logged answers admin (record s { allow_wallet_topups = position }) position db1

  unfoldable pub cb_toggle_maintenance : Bool → ℕ → Db → Result Db
  cb_toggle_maintenance answers admin db =
      let (s, db1) = get_admin_settings db in
      let position = not s.maintenance_mode in
      switch_logged answers admin (record s { maintenance_mode = position }) position db1
