-- ===== src/Jobs/Wallets.antt =====
-- The wallets under the job of app/services/wallet_expiry_service.py.
use kasb_o_kar_hoshmand.Base.{
  ℕ, ◌≡◌, inl, inr, Bool, none, List, [], ◌∷◌, arith, All-where_rows, Bool-cases, Option-cases,
}
use kasb_o_kar_hoshmand.Base.Time.{Instant}
use kasb_o_kar_hoshmand.Base.Table.{get_row, Unique, Rows, Rows-save, Rows-self, where_rows-Unique}
use kasb_o_kar_hoshmand.Models.{ShopOwner-Keyed, WalletCharge-Keyed, WalletCharge, Db}
use kasb_o_kar_hoshmand.Wallet.Expire.{expire_stale_charges}
use kasb_o_kar_hoshmand.Wallet.Remind.{
  is_near_expiry, reminder_for, due_reminders, find_charges_needing_reminder, mark_charge,
  mark_reminder_sent, send_reminders, process_wallet_expiry_and_reminders,
}
use kasb_o_kar_hoshmand.Wallet.Reach.{IsSound, WalletStep, WalletStep-IsSound}

mark_charge_id : (d : ℕ) (c : WalletCharge) → (mark_charge d c).id ≡ c.id
unfolding mark_charge
mark_charge_id d c = ground arith

module _ (delivered : ℕ → Bool) where
  send_reminders-IsSound :
      (now : Instant) (cs : List WalletCharge) (db : Db)
      → Unique cs
      → Rows db.charges cs
      → IsSound db
      → IsSound (send_reminders delivered (due_reminders now cs) db)
  unfolding send_reminders due_reminders
  send_reminders-IsSound now [] db u rows h = h
  send_reminders-IsSound now (c ∷ cs) db u rows h = elim (Option-cases (reminder_for now c)) [
    | inl undue ↦ rw (undue, due_reminders) (send_reminders-IsSound now cs db u.1 rows.1 h)
    | inr (d, due) ↦
        rw (due, due_reminders)
          (elim (Option-cases (get_row c.shop_owner_id db.owners)) [
            | inl missing ↦
                rw (missing, send_reminders) (send_reminders-IsSound now cs db u.1 rows.1 h)
            | inr (o, found) ↦
                rw (found, send_reminders)
                  (elim (Bool-cases (delivered o.telegram_id)) [
                    | inl sent ↦ rw sent (
                        send_reminders-IsSound now cs (mark_reminder_sent c d db) u.1
                          (marked c d cs db u.0 rows.1)
                          (WalletStep-IsSound (WalletStep.remind c d rows.0) h))
                    | inr lost ↦ rw lost (send_reminders-IsSound now cs db u.1 rows.1 h)
                  ])
          ])
  ]
    where
      marked :
          (c : WalletCharge) (d : ℕ) (cs : List WalletCharge) (db : Db)
          → get_row c.id cs ≡ none
          → Rows db.charges cs
          → Rows (mark_reminder_sent c d db).charges cs
      marked c d cs db n rows =
          unfold mark_reminder_sent in
          Rows-save (mark_charge d c) db.charges cs (rw (mark_charge_id d c) n) rows

  -- The job that ends charges and reminds of them keeps the wallets sound.
  pub wallet_job-IsSound :
      (now : Instant) (db : Db)
      → IsSound db
      → IsSound (process_wallet_expiry_and_reminders delivered now db)
  unfolding process_wallet_expiry_and_reminders find_charges_needing_reminder
  wallet_job-IsSound now db h =
      let db1 = (expire_stale_charges now db).1 in
      let h1 = WalletStep-IsSound (WalletStep.expire now) h in
      send_reminders-IsSound now _ db1
        (where_rows-Unique (is_near_expiry now) db1.charges h1.consistent.unique)
        (All-where_rows _ (is_near_expiry now) db1.charges
          (Rows-self db1.charges h1.consistent.unique))
        h1
