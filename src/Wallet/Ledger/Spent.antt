-- ===== src/Wallet/Ledger/Spent.antt =====
-- The entries that `deduct` and `expire_stale_charges` add to the ledger.
use kasb_o_kar_hoshmand.Base.{
  ℕ, ◌+◌, ◌-◌, ◌≤◌, ◌≡◌, refl, subst, inl, inr, String, Bool, true, false, Option, some, List, [],
  ◌∷◌, arith, Option-cases, All, All-where_rows, where_rows, where_rows_pass,
}
use kasb_o_kar_hoshmand.Base.Int.{
  ℤ, pos, pos_part, neg, ◌+ℤ◌, ◌-ℤ◌, max_ℤ, +ℤ_parts, neg_parts, eq_of_parts,
}
use kasb_o_kar_hoshmand.Base.Time.{Instant}
use kasb_o_kar_hoshmand.Base.Table.{
  get_row, get_row-key, Unique, Rows, Rows-save, Rows-self, where_rows-Unique,
}
use kasb_o_kar_hoshmand.Models.{
  ShopOwner-Keyed, WalletCharge-Keyed, WalletTransaction-Keyed, ShopOwner, WalletCharge,
  WalletTransactionReason, Db, Result-cases, ok,
}
use kasb_o_kar_hoshmand.Wallet.Ledger.Posted.{
  apply_balance_delta-BooksAt, apply_balance_delta-transactions, drain-account, drain-account_other,
}
use kasb_o_kar_hoshmand.Wallet.Ledger.{BooksAt, HasBooks, BooksAt-post}
use kasb_o_kar_hoshmand.Wallet.Invariant.{available, IsConsistent}
use kasb_o_kar_hoshmand.Wallet.Invariant.Drained.{drain-owners, sum_of-deductible}
use kasb_o_kar_hoshmand.Wallet.Invariant.Deducted.{drained, deduct-cases}
use kasb_o_kar_hoshmand.Wallet.Invariant.Expired.{
  closed, floor_exact, available-closed, expire_charge-IsConsistent,
}
use kasb_o_kar_hoshmand.Wallet.Deduct.{deductible, deduct}
use kasb_o_kar_hoshmand.Wallet.Expire.{
  is_stale, lower_balance, expire_charge, expire_all, expire_stale_charges,
}
use kasb_o_kar_hoshmand.Wallet.Charge.{add_transaction, apply_balance_delta}

module _ (owner_id : ℕ) (amount : ℤ) (reason : WalletTransactionReason) (reference : Option String)
    (db : Db) where
  drained-BooksAt :
      (i : ℕ) {db' : Db}
      → HasBooks db
      → pos_part amount ≤ available owner_id db.charges
      → apply_balance_delta owner_id
          (neg (pos_part amount))
          (drained owner_id amount reason reference db)
        ≡ ok db'
      → BooksAt i db'.owners (drained owner_id amount reason reference db).transactions
  drained-BooksAt i h enough step =
      let db1 = drained owner_id amount reason reference db in
      let cs = deductible owner_id db in
      apply_balance_delta-BooksAt i owner_id (neg (pos_part amount)) db1 db.transactions
        db1.transactions
        (λ b p. ground (
          arith,
          p,
          drain-account owner_id reason reference cs (pos_part amount) db,
          sum_of-deductible owner_id db,
        ))
        (λ j ne. drain-account_other owner_id reason reference j cs (pos_part amount) db ne)
        (λ j. rw (drain-owners owner_id reason reference cs (pos_part amount) db) (h.balanced j))
        step

  -- A deduction is posted: what it takes off the balance stands in the ledger, charge by charge.
  pub deduct-HasBooks :
      {b : Bool} {db' : Db}
      → HasBooks db
      → deduct owner_id amount reason reference db ≡ ok (b, db')
      → HasBooks db'
  deduct-HasBooks {b} {db'} h e =
      let db1 = drained owner_id amount reason reference db in
      elim (deduct-cases owner_id amount reason reference db) [
        | inl (_, same) ↦ subst HasBooks (ground (arith, same)) h
        | inr (inl (_, _, same)) ↦ subst HasBooks (ground (arith, same)) h
        | inr (inr (positive, enough, steps)) ↦
            elim (Result-cases (apply_balance_delta owner_id (neg (pos_part amount)) db1)) [
              | inl (db2, step) ↦ subst HasBooks {x = db2} (ground (arith, steps)) (record {
                balanced = λ i.
                    rw (apply_balance_delta-transactions owner_id _ db1 step)
                      (drained-BooksAt i h enough step);
              })
              | inr (x, failed) ↦ absurd (ground (arith, steps))
            ]
      ]

floor_as_delta : (b : ℤ) (a n : ℕ) → b ≡ pos a → n ≤ a → max_ℤ (pos 0) (b -ℤ pos n) ≡ b +ℤ neg n
floor_as_delta b a n p q = ground (
  arith,
  p,
  floor_exact b a n (a - n),
  +ℤ_parts b (neg n),
  neg_parts n,
  eq_of_parts (b +ℤ neg n) (pos (a - n)),
)

expire_charge-HasBooks :
    (o : ShopOwner) (c : WalletCharge) (db : Db)
    → get_row c.shop_owner_id db.owners ≡ some o
    → get_row c.id db.charges ≡ some c
    → c.is_expired ≡ false
    → IsConsistent db
    → HasBooks db
    → HasBooks (expire_charge o c db)
unfolding expire_charge lower_balance add_transaction
expire_charge-HasBooks o c db owner_found found open_charge h b =
    let owned : o.id ≡ c.shop_owner_id = get_row-key c.shop_owner_id db.owners owner_found in
    record {
      balanced = λ i.
          BooksAt-post i o
            (record o {
              wallet_balance_toman =
                  max_ℤ (pos 0) (o.wallet_balance_toman -ℤ pos c.remaining_toman);
            })
            _ db.owners db.transactions (simp owned owner_found) refl
            (floor_as_delta o.wallet_balance_toman (available o.id db.charges) c.remaining_toman
              (h.cached o.id o (simp owned owner_found))
              (ground (arith, available-closed o.id c db.charges found open_charge, owned)))
            (b.balanced i);
    }

expire_all-HasBooks :
    (now : Instant) (cs : List WalletCharge) (n : ℕ) (db : Db)
    → All (λ c. is_stale now c ≡ true) cs
    → Unique cs
    → Rows db.charges cs
    → IsConsistent db
    → HasBooks db
    → HasBooks (expire_all cs n db).1
unfolding expire_all closed expire_charge add_transaction lower_balance
expire_all-HasBooks now [] n db stale u rows h b = b
expire_all-HasBooks now (c ∷ cs) n db stale u rows h b =
    let open_charge : c.is_expired ≡ false = ground (arith, stale.0) in
    elim (Option-cases (get_row c.shop_owner_id db.owners)) [
      | inl missing ↦
          rw (missing, expire_all) (expire_all-HasBooks now cs n db stale.1 u.1 rows.1 h b)
      | inr (o, found) ↦
          rw (found, expire_all)
            (expire_all-HasBooks now cs (n + 1) (expire_charge o c db) stale.1 u.1
              (Rows-save (closed c) db.charges cs u.0 rows.1)
              (expire_charge-IsConsistent o c db found rows.0 open_charge h)
              (expire_charge-HasBooks o c db found rows.0 open_charge h b))
    ]

-- The daily job posts what it takes off each balance. That its entries, which are not floored at
-- zero, agree with the balances, which are, rests on the cached balances being right.
pub expire_stale_charges-HasBooks :
    (now : Instant) (db : Db)
    → IsConsistent db
    → HasBooks db
    → HasBooks (expire_stale_charges now db).1
unfolding expire_stale_charges
expire_stale_charges-HasBooks now db h b =
    expire_all-HasBooks now (where_rows (is_stale now) db.charges) 0 db
      (where_rows_pass (is_stale now) db.charges)
      (where_rows-Unique (is_stale now) db.charges h.unique)
      (All-where_rows _ (is_stale now) db.charges (Rows-self db.charges h.unique)) h b
