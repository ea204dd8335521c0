-- ===== src/Wallet/Deduct.antt =====
-- `deduct` of app/services/wallet_service.py: payment from the charges, oldest expiry first.
use kasb_o_kar_hoshmand.Base.{
  ℕ, ◌-◌, min, String, Bool, true, false, not, ◌&&◌, Option, some, List, [], ◌∷◌, ltb, ◌==◌,
  if◌then◌else◌, where_rows, sort_on, sum_of,
}
use kasb_o_kar_hoshmand.Base.Int.{ℤ, pos, pos_part, neg, leb_ℤ}
use kasb_o_kar_hoshmand.Base.Table.{save}
use kasb_o_kar_hoshmand.Models.{
  WalletCharge-Keyed, WalletCharge, WalletTransactionReason, Db, Result, ok, ◌>>=◌,
}
use kasb_o_kar_hoshmand.Wallet.Charge.{apply_balance_delta, add_transaction}

-- the `WHERE` of the query: the owner's charges that are open and hold something
abbrev pub is_deductible : ℕ → WalletCharge → Bool
is_deductible owner_id c =
    c.shop_owner_id == owner_id && (not c.is_expired && ltb 0 c.remaining_toman)

-- `ORDER BY expires_at ASC`
unfoldable pub deductible : ℕ → Db → List WalletCharge
deductible owner_id db =
    sort_on (λ c. c.expires_at) (where_rows (is_deductible owner_id) db.charges)

-- one round of the loop: `take` from the charge `c`, and its transaction
unfoldable pub take_from : ℕ → WalletTransactionReason → Option String → WalletCharge → ℕ → Db → Db
take_from owner_id reason reference c amount db =
    add_transaction owner_id (some c.id) (neg amount) reason reference (record db {
      charges = save (record c { remaining_toman = c.remaining_toman - amount }) db.charges;
    })

-- the loop; its result is `remaining_to_deduct` and the tables
unfoldable pub drain :
    ℕ → WalletTransactionReason → Option String → List WalletCharge → ℕ → Db → ℕ × Db
drain owner_id reason reference [] left db = (left, db)
drain owner_id reason reference (c ∷ cs) left db =
    let rest =
      (let amount = min c.remaining_toman left in
        drain owner_id reason reference cs (left - amount)
          (take_from owner_id reason reference c amount db)) in
    if left == 0 then (left, db) else rest

unfoldable pub deduct : ℕ → ℤ → WalletTransactionReason → Option String → Db → Result (Bool × Db)
unfolding deductible drain take_from
deduct owner_id amount reason reference db =
    let want = pos_part amount in
    let charges = deductible owner_id db in
    if leb_ℤ amount (pos 0)
    then ok (true, db)
    else if ltb (sum_of (λ c. c.remaining_toman) charges) want
    then ok (false, db)
    else (let (left, db1) = drain owner_id reason reference charges want db in
        if ltb 0 left
        then ok (false, db1)
        else (do db2 ← apply_balance_delta owner_id (neg want) db1; ok (true, db2)))
