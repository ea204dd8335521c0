-- ===== src/Admin/Logged.antt =====
-- The operations of the wallet, app/services/wallet_service.py, and the audit log, which they leave alone.
use kasb_o_kar_hoshmand.Base.{
  ℕ, ◌+◌, ◌-◌, ◌*◌, min, ◌≡◌, refl, inl, inr, String, Bool, Option, none, some, List, [], ◌∷◌, ◌++◌,
  arith, Bool-cases, Option-cases,
}
use kasb_o_kar_hoshmand.Base.Int.{ℤ, pos, neg, pos_part, leb_ℤ}
use kasb_o_kar_hoshmand.Base.Time.{Instant, days}
use kasb_o_kar_hoshmand.Base.Table.{get_row, next_key}
use kasb_o_kar_hoshmand.Models.{
  ShopOwner-Keyed, WalletCharge-Keyed, WalletCharge, WalletTransactionReason, admin_correction, Db,
  Result-cases, ok,
}
use kasb_o_kar_hoshmand.Settings.{get_admin_settings}
use kasb_o_kar_hoshmand.Wallet.Charge.{
  apply_balance_delta, clear_notified, add_transaction, validity, new_charge, add_charge,
}
use kasb_o_kar_hoshmand.Wallet.Deduct.{deduct, deductible, drain, take_from}
use kasb_o_kar_hoshmand.Wallet.Invariant.Deducted.{drained, deduct-cases}

apply_balance_delta-audit_log :
    (i : ℕ) (delta : ℤ) (db : Db) {db' : Db}
    → apply_balance_delta i delta db ≡ ok db'
    → db'.audit_log ≡ db.audit_log
unfolding apply_balance_delta
apply_balance_delta-audit_log i delta db {db'} e = elim (Option-cases (get_row i db.owners)) [
  | inl missing ↦ ground (arith, missing, e)
  | inr (o, found) ↦ ground (arith, found, e)
]

clear_notified-audit_log : (i : ℕ) (db : Db) → (clear_notified i db).audit_log ≡ db.audit_log
unfolding clear_notified
clear_notified-audit_log i db = elim (Option-cases (get_row i db.owners)) [
  | inl missing ↦ ground (arith, missing)
  | inr (o, found) ↦ ground (arith, found)
]

settings-audit_log : (db : Db) → (get_admin_settings db).1.audit_log ≡ db.audit_log
unfolding get_admin_settings
settings-audit_log db = ground arith

pub add_charge-audit_log :
    (now : Instant) (i : ℕ) (amount : ℤ) (note : String) (db : Db) {c : WalletCharge} {db' : Db}
    → add_charge now i amount admin_correction none none (some note) db ≡ ok (c, db')
    → db'.audit_log ≡ db.audit_log
unfolding add_charge validity add_transaction
add_charge-audit_log now i amount note db {c} {db'} e =
    let (settings, db1) = get_admin_settings db in
    let made =
      new_charge (next_key db1.charges) i none (pos_part amount)
        (now + days (settings.wallet_topup_validity_months * 30)) in
    let charged = record db1 { charges = db1.charges ++ made ∷ [] } in
    elim (Bool-cases (leb_ℤ amount (pos 0))) [
      | inl nothing ↦ absurd (ground (arith, nothing, e))
      | inr positive ↦ elim (Result-cases (apply_balance_delta i amount charged)) [
        | inr (x, failed) ↦ absurd (ground (arith, positive, failed))
        | inl (db2, moved) ↦ ground (
          arith,
          positive,
          moved,
          apply_balance_delta-audit_log i amount charged moved,
          clear_notified-audit_log i db2,
          settings-audit_log db,
        )
      ]
    ]

drain-audit_log :
    (i : ℕ) (reason : WalletTransactionReason) (reference : Option String) (cs : List WalletCharge)
    (left : ℕ) (db : Db)
    → (drain i reason reference cs left db).1.audit_log ≡ db.audit_log
unfolding drain take_from add_transaction
drain-audit_log i reason reference [] left db = refl
drain-audit_log i reason reference (c ∷ cs) left db =
    let amount = min c.remaining_toman left in
    ground (
      arith,
      drain-audit_log i reason reference cs (left - amount)
          (take_from i reason reference c amount db),
    )

pub deduct-audit_log :
    (i : ℕ) (amount : ℤ) (reason : WalletTransactionReason) (reference : Option String) (db : Db)
    {done : Bool} {db' : Db}
    → deduct i amount reason reference db ≡ ok (done, db')
    → db'.audit_log ≡ db.audit_log
deduct-audit_log i amount reason reference db {done} {db'} e =
    elim (deduct-cases i amount reason reference db) [
      | inl (nothing, same) ↦ ground (arith, same, e)
      | inr (inl (positive, short, same)) ↦ ground (arith, same, e)
      | inr (inr (positive, enough, steps)) ↦
          let d = drained i amount reason reference db in
          elim (Result-cases (apply_balance_delta i (neg (pos_part amount)) d)) [
            | inr (x, failed) ↦ absurd (ground (arith, steps, failed, e))
            | inl (db2, moved) ↦ ground (
              arith,
              steps,
              moved,
              e,
              apply_balance_delta-audit_log i (neg (pos_part amount)) d moved,
              drain-audit_log i reason reference (deductible i db) (pos_part amount) db,
            )
          ]
    ]
