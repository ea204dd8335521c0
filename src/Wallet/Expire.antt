-- ===== src/Wallet/Expire.antt =====
-- `expire_stale_charges` of app/services/wallet_service.py: the daily job.
use kasb_o_kar_hoshmand.Base.{
  ℕ, ◌+◌, Bool, true, not, ◌&&◌, none, some, List, [], ◌∷◌, ltb, leb, where_rows,
}
use kasb_o_kar_hoshmand.Base.Int.{pos, neg, ◌-ℤ◌, max_ℤ}
use kasb_o_kar_hoshmand.Base.Time.{Instant}
use kasb_o_kar_hoshmand.Base.Table.{get_row, save}
use kasb_o_kar_hoshmand.Models.{
  ShopOwner-Keyed, WalletCharge-Keyed, ShopOwner, WalletCharge, expiry, Db,
}
use kasb_o_kar_hoshmand.Wallet.Charge.{add_transaction}

-- open, past its expiry, and not empty
abbrev pub is_stale : Instant → WalletCharge → Bool
is_stale now c = not c.is_expired && (leb c.expires_at now && ltb 0 c.remaining_toman)

-- SET wallet_balance_toman = GREATEST(0, wallet_balance_toman - amount)
unfoldable pub lower_balance : ShopOwner → ℕ → Db → Db
lower_balance o amount db = record db {
  owners =
      save
        (record o { wallet_balance_toman = max_ℤ (pos 0) (o.wallet_balance_toman -ℤ pos amount) })
        db.owners;
}

-- one round of the loop, for a charge whose owner is found
unfoldable pub expire_charge : ShopOwner → WalletCharge → Db → Db
expire_charge o c db =
    let db1 =
      add_transaction o.id (some c.id) (neg c.remaining_toman) expiry none
        (lower_balance o c.remaining_toman db) in
    record db1 { charges = save (record c { remaining_toman = 0; is_expired = true }) db1.charges }

-- The loop counts the charges that it closes. `owners_by_id` holds the rows of the owners of all
-- stale charges, so a miss there is a miss in the table.
unfoldable pub expire_all : List WalletCharge → ℕ → Db → ℕ × Db
expire_all [] count db = (count, db)
expire_all (c ∷ cs) count db = elim (get_row c.shop_owner_id db.owners) [
  | none ↦ expire_all cs count db
  | some o ↦ expire_all cs (count + 1) (expire_charge o c db)
]

unfoldable pub expire_stale_charges : Instant → Db → ℕ × Db
unfolding expire_all
expire_stale_charges now db = expire_all (where_rows (is_stale now) db.charges) 0 db
