-- ===== src/Wallet/Charge.antt =====
-- `_apply_balance_delta`, `add_charge` and the queries of app/services/wallet_service.py.
use mathlib.Core.List.{reverse}
use kasb_o_kar_hoshmand.Base.{
  ℕ, ◌+◌, ◌*◌, String, Bool, false, Option, none, some, List, [], ◌∷◌, ◌++◌, ◌==◌, if◌then◌else◌,
  where_rows, take, sort_on, head_of, is_some,
}
use kasb_o_kar_hoshmand.Base.Int.{ℤ, pos, pos_part, ◌+ℤ◌, leb_ℤ}
use kasb_o_kar_hoshmand.Base.Time.{Instant, days}
use kasb_o_kar_hoshmand.Base.Table.{get_row, save, next_key}
use kasb_o_kar_hoshmand.Models.{
  ShopOwner-Keyed, WalletCharge-Keyed, WalletTransaction-Keyed, ShopOwner, WalletCharge,
  WalletTransaction, WalletTransactionReason, Db, Result, ok, raised, value_error, no_result_found,
  ◌>>=◌,
}
use kasb_o_kar_hoshmand.Settings.{get_admin_settings}

-- UPDATE shop_owners SET wallet_balance_toman = wallet_balance_toman + delta ... RETURNING,
-- with `scalar_one()` on what comes back
unfoldable pub apply_balance_delta : ℕ → ℤ → Db → Result Db
apply_balance_delta owner_id delta db = elim (get_row owner_id db.owners) [
  | none ↦ raised no_result_found
  | some o ↦ ok (record db {
    owners = save (record o { wallet_balance_toman = o.wallet_balance_toman +ℤ delta }) db.owners;
  })
]

-- `owner.wallet_empty_notified_at = None` and `owner.wallet_low_balance_notified_at = None`
unfoldable pub clear_notified : ℕ → Db → Db
clear_notified owner_id db = elim (get_row owner_id db.owners) [
  | none ↦ db
  | some o ↦ record db {
    owners =
        save (record o { wallet_low_balance_notified_at = none; wallet_empty_notified_at = none })
          db.owners;
  }
]

-- `session.add(WalletTransaction(...))`
unfoldable pub add_transaction :
    ℕ → Option ℕ → ℤ → WalletTransactionReason → Option String → Db → Db
add_transaction owner_id charge_id amount reason reference db = record db {
  transactions =
      db.transactions
      ++ record {
        id = next_key db.transactions;
        shop_owner_id = owner_id;
        wallet_charge_id = charge_id;
        amount_toman = amount;
        reason = reason;
        reference = reference;
      }
        ∷ [];
}

-- the months of validity: those given, or else the platform's setting
unfoldable pub validity : Option ℕ → Db → ℕ × Db
validity (some months) db = (months, db)
validity none db =
    let (settings, db1) = get_admin_settings db in (settings.wallet_topup_validity_months, db1)

-- `WalletCharge(...)` with its column defaults
unfoldable pub new_charge : ℕ → ℕ → Option ℕ → ℕ → Instant → WalletCharge
new_charge id owner_id payment_id amount expires_at = record {
  id = id;
  shop_owner_id = owner_id;
  payment_id = payment_id;
  amount_toman = amount;
  remaining_toman = amount;
  expires_at = expires_at;
  is_expired = false;
  reminder_30d_sent = false;
  reminder_7d_sent = false;
  reminder_1d_sent = false;
}

unfoldable pub add_charge :
    Instant
    → ℕ
    → ℤ
    → WalletTransactionReason
    → Option ℕ
    → Option ℕ
    → Option String
    → Db
    → Result (WalletCharge × Db)
add_charge now owner_id amount reason payment_id months reference db =
    if leb_ℤ amount (pos 0) then raised value_error else (do
      let (validity_months, db1) = validity months db
      let charge =
          new_charge (next_key db1.charges) owner_id payment_id (pos_part amount)
            (now + days (validity_months * 30))
      db2 ←
          apply_balance_delta owner_id amount (record db1 { charges = db1.charges ++ charge ∷ [] })
      ok (
        charge,
        add_transaction owner_id (some charge.id) amount reason reference
            (clear_notified owner_id db2),
      ))

-- `get_balance`
unfoldable pub get_balance : ShopOwner → ℤ
get_balance owner = owner.wallet_balance_toman

-- newest first, `limit` at most
unfoldable pub get_recent_transactions : ℕ → ℕ → Db → List WalletTransaction
get_recent_transactions owner_id limit db =
    take limit (
      reverse (sort_on (λ t. t.id) (where_rows (λ t. t.shop_owner_id == owner_id) db.transactions)))

unfoldable pub has_ever_had_wallet_activity : ℕ → Db → Bool
has_ever_had_wallet_activity owner_id db =
    is_some (head_of (where_rows (λ c. c.shop_owner_id == owner_id) db.charges))
