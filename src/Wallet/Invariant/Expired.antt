-- ===== src/Wallet/Invariant/Expired.antt =====
-- The wallet invariant under `expire_stale_charges` of app/services/wallet_service.py.
use kasb_o_kar_hoshmand.Base.{
  ℕ, ◌+◌, ◌≡◌, refl, inl, inr, true, false, some, List, [], ◌∷◌, arith, ◌==◌, if◌then◌else◌,
  Option-cases, All, All-where_rows, where_rows, where_rows_pass,
}
use kasb_o_kar_hoshmand.Base.Int.{ℤ, pos, ◌-ℤ◌, max_ℤ, -ℤ_parts, eq_of_parts}
use kasb_o_kar_hoshmand.Base.Time.{Instant}
use kasb_o_kar_hoshmand.Base.Table.{
  get_row, save, Unique, Rows, get_row-key, save-Unique, sum_of-save, Rows-save, Rows-self,
  where_rows-Unique,
}
use kasb_o_kar_hoshmand.Models.{
  ShopOwner-Keyed, WalletCharge-Keyed, WalletTransaction-Keyed, ShopOwner, WalletCharge, Db,
}
use kasb_o_kar_hoshmand.Wallet.Charge.{add_transaction}
use kasb_o_kar_hoshmand.Wallet.Expire.{
  is_stale, lower_balance, expire_charge, expire_all, expire_stale_charges,
}
use kasb_o_kar_hoshmand.Wallet.Invariant.{live, available, IsConsistent, CachedAt-save}

unfoldable pub closed : WalletCharge → WalletCharge
closed c = record c { remaining_toman = 0; is_expired = true }

pub available-closed :
    (i : ℕ) (c : WalletCharge) (cs : List WalletCharge)
    → get_row c.id cs ≡ some c
    → c.is_expired ≡ false
    → available i (save (closed c) cs) + (if c.shop_owner_id == i then c.remaining_toman else 0)
      ≡ available i cs
unfolding closed
available-closed i c cs found open_charge =
    ground (arith, sum_of-save (live i) c (closed c) cs found)

-- The floor at zero is not reached: the balance covers what expires.
pub floor_exact :
    (b : ℤ) (a n a' : ℕ) → b ≡ pos a → a' + n ≡ a → max_ℤ (pos 0) (b -ℤ pos n) ≡ pos a'
floor_exact b a n a' p q =
    ground (arith, p, -ℤ_parts b (pos n), eq_of_parts (max_ℤ (pos 0) (b -ℤ pos n)) (pos a'))

pub expire_charge-IsConsistent :
    (o : ShopOwner) (c : WalletCharge) (db : Db)
    → get_row c.shop_owner_id db.owners ≡ some o
    → get_row c.id db.charges ≡ some c
    → c.is_expired ≡ false
    → IsConsistent db
    → IsConsistent (expire_charge o c db)
unfolding expire_charge lower_balance add_transaction closed
expire_charge-IsConsistent o c db owner_found found open_charge h =
    let owned : o.id ≡ c.shop_owner_id = get_row-key c.shop_owner_id db.owners owner_found in
    record {
      unique = save-Unique (closed c) db.charges h.unique;
      cached = λ i.
          CachedAt-save i o
            (record o {
              wallet_balance_toman =
                  max_ℤ (pos 0) (o.wallet_balance_toman -ℤ pos c.remaining_toman);
            })
            db.owners db.charges (save (closed c) db.charges) (simp owned owner_found) refl
            (λ p.
              floor_exact o.wallet_balance_toman (available o.id db.charges) c.remaining_toman
                (available o.id (save (closed c) db.charges)) p
                (ground (arith, available-closed o.id c db.charges found open_charge, owned)))
            (λ ne. ground (arith, available-closed i c db.charges found open_charge, owned))
            (h.cached i);
    }

module _ (now : Instant) where
  expire_all-IsConsistent :
      (cs : List WalletCharge) (n : ℕ) (db : Db)
      → All (λ c. is_stale now c ≡ true) cs
      → Unique cs
      → Rows db.charges cs
      → IsConsistent db
      → IsConsistent (expire_all cs n db).1
  unfolding expire_all closed expire_charge add_transaction lower_balance
  expire_all-IsConsistent [] n db stale u rows h = h
  expire_all-IsConsistent (c ∷ cs) n db stale u rows h =
      elim (Option-cases (get_row c.shop_owner_id db.owners)) [
        | inl missing ↦
            rw (missing, expire_all) (expire_all-IsConsistent cs n db stale.1 u.1 rows.1 h)
        | inr (o, found) ↦
            rw (found, expire_all)
              (expire_all-IsConsistent cs (n + 1) (expire_charge o c db) stale.1 u.1
                (Rows-save (closed c) db.charges cs u.0 rows.1)
                (expire_charge-IsConsistent o c db found rows.0 (ground (arith, stale.0)) h))
      ]

  -- The daily job keeps the cached balances right: what it takes off a balance, with its floor at
  -- zero, is exactly what the closed charges held.
  pub expire_stale_charges-IsConsistent :
      (db : Db) → IsConsistent db → IsConsistent (expire_stale_charges now db).1
  unfolding expire_stale_charges
  expire_stale_charges-IsConsistent db h =
      expire_all-IsConsistent (where_rows (is_stale now) db.charges) 0 db
        (where_rows_pass (is_stale now) db.charges)
        (where_rows-Unique (is_stale now) db.charges h.unique)
        (All-where_rows _ (is_stale now) db.charges (Rows-self db.charges h.unique)) h
