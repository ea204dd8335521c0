-- ===== src/Wallet/Remind.antt =====
-- `find_charges_needing_reminder` and `mark_reminder_sent` of app/services/wallet_service.py, and
-- the daily job of app/services/wallet_expiry_service.py that calls them.
use kasb_o_kar_hoshmand.Base.{
  ℕ, ◌+◌, ◌-◌, min, Bool, true, not, ◌&&◌, Option, none, some, List, [], ◌∷◌, ◌++◌, ltb, leb, ◌==◌,
  if◌then◌else◌, where_rows,
}
use kasb_o_kar_hoshmand.Base.Time.{Instant, days, whole_days}
use kasb_o_kar_hoshmand.Base.Table.{get_row, save}
use kasb_o_kar_hoshmand.Models.{ShopOwner-Keyed, WalletCharge-Keyed, WalletCharge, Db}
use kasb_o_kar_hoshmand.Wallet.Expire.{expire_stale_charges}

-- open, not empty, and expiring within 30 days
abbrev pub is_near_expiry : Instant → WalletCharge → Bool
is_near_expiry now c =
    not c.is_expired
    && (ltb 0 c.remaining_toman && (ltb now c.expires_at && leb c.expires_at (now + days 30)))

abbrev pub when : Bool → ℕ → List ℕ
when test days_left = if test then days_left ∷ [] else []

-- the thresholds that hold and that no closer reminder has passed
unfoldable pub candidates : ℕ → WalletCharge → List ℕ
candidates days_left c =
    when (leb days_left 1 && not c.reminder_1d_sent) 1
    ++ (when (leb days_left 7 && (not c.reminder_7d_sent && not c.reminder_1d_sent)) 7
        ++ when
            (leb days_left 30
              && (not c.reminder_30d_sent && (not c.reminder_7d_sent && not c.reminder_1d_sent)))
            30)

-- `min(candidates)`, if there is one
abbrev pub least : List ℕ → Option ℕ
least [] = none
least (x ∷ xs) = elim (least xs) [ none ↦ some x | some m ↦ some (min x m) ]

unfoldable pub reminder_for : Instant → WalletCharge → Option ℕ
unfolding candidates
reminder_for now c = least (candidates (whole_days (c.expires_at - now)) c)

unfoldable pub due_reminders : Instant → List WalletCharge → List (WalletCharge × ℕ)
due_reminders now [] = []
due_reminders now (c ∷ cs) =
    let rest = due_reminders now cs in
    elim (reminder_for now c) [ none ↦ rest | some d ↦ (c, d) ∷ rest ]

unfoldable pub find_charges_needing_reminder : Instant → Db → List (WalletCharge × ℕ)
unfolding due_reminders reminder_for
find_charges_needing_reminder now db =
    due_reminders now (where_rows (is_near_expiry now) db.charges)

unfoldable pub mark_charge : ℕ → WalletCharge → WalletCharge
mark_charge d c =
    if d == 30
    then record c { reminder_30d_sent = true }
    else if d == 7
    then record c { reminder_7d_sent = true }
    else if d == 1
    then record c { reminder_1d_sent = true }
    else c

unfoldable pub mark_reminder_sent : WalletCharge → ℕ → Db → Db
unfolding mark_charge
mark_reminder_sent c d db = record db { charges = save (mark_charge d c) db.charges }

-- `delivered telegram_id` says whether Telegram takes the message; a `TelegramAPIError` is logged
-- and leaves the reminder unmarked
module _ (delivered : ℕ → Bool) where
  unfoldable pub send_reminders : List (WalletCharge × ℕ) → Db → Db
  send_reminders [] db = db
  send_reminders ((c, d) ∷ due) db = elim (get_row c.shop_owner_id db.owners) [
    | none ↦ send_reminders due db
    | some o ↦
        send_reminders due (if delivered o.telegram_id then mark_reminder_sent c d db else db)
  ]

  unfoldable pub process_wallet_expiry_and_reminders : Instant → Db → Db
  process_wallet_expiry_and_reminders now db =
      let (count, db1) = expire_stale_charges now db in
      send_reminders (find_charges_needing_reminder now db1) db1
