-- ===== src/Wallet/Invariant/Drained.antt =====
-- The charges that `deduct` selects, and what its loop does to them.
use kasb_o_kar_hoshmand.Base.{
  ℕ, ◌+◌, ◌-◌, ◌≤◌, ◌≡◌, refl, ◌∙◌, min, String, true, Option, none, some, List, [], ◌∷◌, arith,
  ◌==◌, if◌then◌else◌, sum_of, sum_of-sort_on, All, All-sort_on, All-where_rows, where_rows,
  where_rows_pass,
}
use kasb_o_kar_hoshmand.Base.Table.{
  get_row, Unique, Rows, save-Unique, sum_of-save, Rows-save, Rows-self, where_rows-Unique,
  sort_on-Unique,
}
use kasb_o_kar_hoshmand.Models.{
  ShopOwner-Keyed, WalletCharge-Keyed, WalletTransaction-Keyed, WalletCharge,
  WalletTransactionReason, Db,
}
use kasb_o_kar_hoshmand.Wallet.Charge.{add_transaction}
use kasb_o_kar_hoshmand.Wallet.Deduct.{is_deductible, deductible, take_from, drain}
use kasb_o_kar_hoshmand.Wallet.Invariant.{live, available}

abbrev pub remaining : WalletCharge → ℕ
remaining c = c.remaining_toman

module _ (owner_id : ℕ) (reason : WalletTransactionReason) (reference : Option String) where
  -- What the loop leaves to deduct: the amount less all that the charges hold.
  pub drain_left :
      (cs : List WalletCharge) (left : ℕ) (db : Db)
      → (drain owner_id reason reference cs left db).0 ≡ left - sum_of remaining cs
  unfolding drain
  drain_left [] left db = omega arith
  drain_left (c ∷ cs) left db =
      let amount = min c.remaining_toman left in
      ground
        (arith, drain_left cs (left - amount) (take_from owner_id reason reference c amount db))

  pub drain-owners :
      (cs : List WalletCharge) (left : ℕ) (db : Db)
      → (drain owner_id reason reference cs left db).1.owners ≡ db.owners
  unfolding drain take_from add_transaction
  drain-owners [] left db = refl
  drain-owners (c ∷ cs) left db =
      let amount = min c.remaining_toman left in
      ground
        (arith, drain-owners cs (left - amount) (take_from owner_id reason reference c amount db))

  -- One round moves what is available by what it takes.
  take_from-available :
      (i : ℕ) (c : WalletCharge) (amount : ℕ) (db : Db)
      → is_deductible owner_id c ≡ true
      → get_row c.id db.charges ≡ some c
      → amount ≤ c.remaining_toman
      → available i (take_from owner_id reason reference c amount db).charges
          + (if i == owner_id then amount else 0)
        ≡ available i db.charges
  unfolding take_from add_transaction
  take_from-available i c amount db open_charge found fits = ground (
    arith,
    sum_of-save (live i) c (record c { remaining_toman = c.remaining_toman - amount }) db.charges
        found,
  )

  pub take_from-Rows :
      (c : WalletCharge) (amount : ℕ) (cs : List WalletCharge) (db : Db)
      → get_row c.id cs ≡ none
      → Rows db.charges cs
      → Rows (take_from owner_id reason reference c amount db).charges cs
  unfolding take_from add_transaction
  take_from-Rows c amount cs db new h = Rows-save _ db.charges cs new h

  -- The loop moves what the owner has available by what it took, and no other owner's.
  pub drain-available :
      (i : ℕ) (cs : List WalletCharge) (left : ℕ) (db : Db)
      → All (λ c. is_deductible owner_id c ≡ true) cs
      → Unique cs
      → Rows db.charges cs
      → let (left', db') = drain owner_id reason reference cs left db in
        available i db'.charges + (if i == owner_id then left else 0)
        ≡ available i db.charges + (if i == owner_id then left' else 0)
  unfolding drain
  drain-available i [] left db open_charges u h = refl
  drain-available i (c ∷ cs) left db open_charges u h =
      let amount = min c.remaining_toman left in
      let db1 = take_from owner_id reason reference c amount db in
      ground (
        arith,
        take_from-available i c amount db open_charges.0 h.0,
        drain_left cs (left - amount) db1,
        drain-available i cs (left - amount) db1 open_charges.1 u.1
            (take_from-Rows c amount cs db u.0 h.1),
      )

  pub drain-Unique :
      (cs : List WalletCharge) (left : ℕ) (db : Db)
      → Unique db.charges
      → Unique (drain owner_id reason reference cs left db).1.charges
  unfolding drain take_from add_transaction
  drain-Unique [] left db h = h
  drain-Unique (c ∷ cs) left db h =
      let amount = min c.remaining_toman left in
      ground (
        arith,
        h,
        drain-Unique cs (left - amount) (take_from owner_id reason reference c amount db)
            (save-Unique _ db.charges h),
      )

-- What the query selects.
pub sum_of-deductible :
    (owner_id : ℕ) (db : Db)
    → sum_of remaining (deductible owner_id db) ≡ available owner_id db.charges
unfolding deductible
sum_of-deductible owner_id db =
    sum_of-sort_on remaining (λ c. c.expires_at) (where_rows (is_deductible owner_id) db.charges)
    ∙ go db.charges
  where
    go :
        (cs : List WalletCharge)
        → sum_of remaining (where_rows (is_deductible owner_id) cs) ≡ available owner_id cs
    go [] = refl
    go (c ∷ cs) = ground (arith, go cs)

pub deductible_open :
    (owner_id : ℕ) (db : Db) → All (λ c. is_deductible owner_id c ≡ true) (deductible owner_id db)
unfolding deductible
deductible_open owner_id db =
    All-sort_on _ (λ c. c.expires_at) _ (where_rows_pass (is_deductible owner_id) db.charges)

pub deductible-Unique :
    (owner_id : ℕ) (db : Db) → Unique db.charges → Unique (deductible owner_id db)
unfolding deductible
deductible-Unique owner_id db h =
    sort_on-Unique (λ c. c.expires_at) _ (where_rows-Unique (is_deductible owner_id) db.charges h)

pub deductible-Rows :
    (owner_id : ℕ) (db : Db) → Unique db.charges → Rows db.charges (deductible owner_id db)
unfolding deductible
deductible-Rows owner_id db h =
    All-sort_on _ (λ c. c.expires_at) _
      (All-where_rows _ (is_deductible owner_id) _ (Rows-self db.charges h))
