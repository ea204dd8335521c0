-- ===== src/Wallet/Closed.antt =====
-- The charges that `expire_stale_charges` of app/services/wallet_service.py writes.
use kasb_o_kar_hoshmand.Base.{
  ℕ, ◌+◌, ◌≡◌, inl, inr, Bool, true, false, ◌&&◌, none, some, List, [], ◌∷◌, arith, ◌==◌,
  if◌then◌else◌, is_some, All-where_rows, Option-cases, Bool-cases, where_rows,
}
use kasb_o_kar_hoshmand.Base.Int.{pos, ◌-ℤ◌, max_ℤ}
use kasb_o_kar_hoshmand.Base.Time.{Instant}
use kasb_o_kar_hoshmand.Base.Table.{
  get_row, Unique, Rows, get_row-key, get_row-save, Rows-save, Rows-self, where_rows-Unique,
  get_row-where_rows,
}
use kasb_o_kar_hoshmand.Base.Found.{where_rows_kept}
use kasb_o_kar_hoshmand.Models.{ShopOwner-Keyed, WalletCharge-Keyed, ShopOwner, WalletCharge, Db}
use kasb_o_kar_hoshmand.Wallet.Charge.{add_transaction}
use kasb_o_kar_hoshmand.Wallet.Expire.{
  is_stale, lower_balance, expire_charge, expire_all, expire_stale_charges,
}

-- A row that a query does not select is not in what it gives.
where_rows_dropped :
    (i : ℕ) (p : WalletCharge → Bool) (rs : List WalletCharge) {r : WalletCharge}
    → Unique rs
    → get_row i rs ≡ some r
    → p r ≡ false
    → get_row i (where_rows p rs) ≡ none
where_rows_dropped i p [] {r} u e h = absurd (ground arith)
where_rows_dropped i p (x ∷ rs) {r} u e h = elim (Bool-cases (x.id == i)) [
  | inl here ↦
      let same : x ≡ r = ground (arith, here) in
      ground (arith, here, same, get_row-where_rows i p rs, u.0)
  | inr there ↦ ground (arith, there, where_rows_dropped i p rs {r = r} u.1)
]

selected :
    (i : ℕ) (p : WalletCharge → Bool) (rs : List WalletCharge) {r : WalletCharge}
    → Unique rs
    → get_row i rs ≡ some r
    → is_some (get_row i (where_rows p rs)) ≡ p r
selected i p rs {r} u e = elim (Bool-cases (p r)) [
  | inl pass ↦ ground (arith, pass, where_rows_kept i p rs {r = r} u e pass)
  | inr fail ↦ ground (arith, fail, where_rows_dropped i p rs {r = r} u e fail)
]

unfoldable pub emptied : Bool → WalletCharge → WalletCharge
emptied b c = if b then record c { remaining_toman = 0; is_expired = true } else c

expire_charge-known :
    (j : ℕ) (o : ShopOwner) (c : WalletCharge) (db : Db) {r : ShopOwner}
    → get_row o.id db.owners ≡ some r
    → is_some (get_row j (expire_charge o c db).owners) ≡ is_some (get_row j db.owners)
unfolding expire_charge lower_balance add_transaction
expire_charge-known j o c db {r} found = ground (
  arith,
  get_row-save j
      (record o {
        wallet_balance_toman = max_ℤ (pos 0) (o.wallet_balance_toman -ℤ pos c.remaining_toman);
      })
      db.owners,
)

expire_charge-row :
    (i : ℕ) (o : ShopOwner) (x : WalletCharge) (db : Db) {c : WalletCharge}
    → get_row i db.charges ≡ some c
    → get_row x.id db.charges ≡ some x
    → get_row i (expire_charge o x db).charges ≡ some (emptied (x.id == i) c)
unfolding expire_charge lower_balance add_transaction emptied
expire_charge-row i o x db {c} e row =
    ground (arith, get_row-save i (record x { remaining_toman = 0; is_expired = true }) db.charges)

expire_charge-Rows :
    (o : ShopOwner) (x : WalletCharge) (db : Db) (cs : List WalletCharge)
    → get_row x.id cs ≡ none
    → Rows db.charges cs
    → Rows (expire_charge o x db).charges cs
unfolding expire_charge lower_balance add_transaction
expire_charge-Rows o x db cs out rows =
    Rows-save (record x { remaining_toman = 0; is_expired = true }) db.charges cs out rows

owner_row :
    (o : ShopOwner) (x : WalletCharge) (db : Db)
    → get_row x.shop_owner_id db.owners ≡ some o
    → get_row o.id db.owners ≡ some o
owner_row o x db found = ground (arith, get_row-key x.shop_owner_id db.owners found)

expire_all-row :
    (i : ℕ) (cs : List WalletCharge) (n : ℕ) (db : Db) {c : WalletCharge}
    → Unique cs
    → Rows db.charges cs
    → get_row i db.charges ≡ some c
    → get_row i (expire_all cs n db).1.charges
      ≡ some (emptied (is_some (get_row i cs) && is_some (get_row c.shop_owner_id db.owners)) c)
unfolding expire_all emptied
expire_all-row i [] n db {c} u rows e = e
expire_all-row i (x ∷ cs) n db {c} u rows e =
    elim (Option-cases (get_row x.shop_owner_id db.owners)) [
      | inl missing ↦
          rw (missing, expire_all)
            (elim (Bool-cases (x.id == i)) [
              | inl here ↦
                  let same : x ≡ c = ground (arith, here, rows.0) in
                  ground (arith, here, missing, same, expire_all-row i cs n db {c = c} u.1 rows.1 e)
              | inr there ↦ ground (arith, there, expire_all-row i cs n db {c = c} u.1 rows.1 e)
            ])
      | inr (o, found) ↦
          rw (found, expire_all)
            (let step =
                expire_all-row i cs (n + 1) (expire_charge o x db) {c = emptied (x.id == i) c} u.1
                  (expire_charge-Rows o x db cs u.0 rows.1)
                  (expire_charge-row i o x db {c = c} e rows.0) in
              let kept = λ (j : ℕ). expire_charge-known j o x db {r = o} (owner_row o x db found) in
              elim (Bool-cases (x.id == i)) [
                | inl here ↦
                    let same : x ≡ c = ground (arith, here, rows.0) in
                    ground (arith, here, found, same, step, u.0)
                | inr there ↦ ground (arith, there, step, kept c.shop_owner_id)
              ])
    ]

module _ (now : Instant) where
  -- After the daily job, a charge that was stale and whose owner is known is closed with nothing
  -- left on it, and every other charge is as it was.
  pub expire_stale_charges_exact :
      (i : ℕ) (db : Db) {c : WalletCharge}
      → Unique db.charges
      → get_row i db.charges ≡ some c
      → get_row i (expire_stale_charges now db).1.charges
        ≡ some (
            if is_stale now c && is_some (get_row c.shop_owner_id db.owners)
            then record c { remaining_toman = 0; is_expired = true }
            else c)
  unfolding expire_stale_charges emptied
  expire_stale_charges_exact i db {c} u e = ground (
    arith,
    selected i (is_stale now) db.charges {r = c} u e,
    expire_all-row i (where_rows (is_stale now) db.charges) 0 db {c = c}
        (where_rows-Unique (is_stale now) db.charges u)
        (All-where_rows _ (is_stale now) db.charges (Rows-self db.charges u)) e,
  )
