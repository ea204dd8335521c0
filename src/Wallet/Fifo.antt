-- ===== src/Wallet/Fifo.antt =====
-- The order in which `deduct` of app/services/wallet_service.py spends charges.
use kasb_o_kar_hoshmand.Base.{
  ℕ, ◌-◌, ◌≤◌, ◌<◌, ◌≡◌, ◌≢◌, refl, subst, ap, sym, ◌∙◌, ◌⊎◌, inl, inr, min, String, true, Option,
  none, some, List, [], ◌∷◌, arith, leb, ◌==◌, if◌then◌else◌, Bool-cases, where_rows, IsSortedOn,
  sort_on-IsSortedOn,
}
use kasb_o_kar_hoshmand.Base.Int.{ℤ, pos_part, neg}
use kasb_o_kar_hoshmand.Base.Table.{
  get_row, Unique, Rows, get_row-key, get_row-save, where_rows-Unique,
}
use kasb_o_kar_hoshmand.Base.Found.{All-get_row, where_rows_kept, sort_on_row}
use kasb_o_kar_hoshmand.Models.{
  WalletCharge-Keyed, WalletCharge, WalletTransactionReason, Db, Result-cases, ok,
}
use kasb_o_kar_hoshmand.Wallet.Charge.{add_transaction, apply_balance_delta}
use kasb_o_kar_hoshmand.Wallet.Deduct.{is_deductible, deductible, take_from, drain, deduct}
use kasb_o_kar_hoshmand.Wallet.Invariant.{apply_balance_delta-charges}
use kasb_o_kar_hoshmand.Wallet.Invariant.Drained.{
  take_from-Rows, deductible-Unique, deductible-Rows,
}
use kasb_o_kar_hoshmand.Wallet.Invariant.Deducted.{drained, deduct-cases}

deductible_row :
    (owner_id i : ℕ) (db : Db) {a : WalletCharge}
    → Unique db.charges
    → get_row i db.charges ≡ some a
    → is_deductible owner_id a ≡ true
    → get_row i (deductible owner_id db) ≡ some a
unfolding deductible
deductible_row owner_id i db u e h =
    sort_on_row i (λ c. c.expires_at) (where_rows (is_deductible owner_id) db.charges)
      (where_rows-Unique (is_deductible owner_id) db.charges u)
    ∙ where_rows_kept i (is_deductible owner_id) db.charges u e h

deductible-IsSortedOn :
    (owner_id : ℕ) (db : Db) → IsSortedOn (λ c. c.expires_at) (deductible owner_id db)
unfolding deductible
deductible-IsSortedOn owner_id db =
    sort_on-IsSortedOn (λ c. c.expires_at) (where_rows (is_deductible owner_id) db.charges)

module _ (owner_id : ℕ) (reason : WalletTransactionReason) (reference : Option String) where
  drain_stops :
      (cs : List WalletCharge) (db : Db) → drain owner_id reason reference cs 0 db ≡ (0, db)
  unfolding drain
  drain_stops [] db = refl
  drain_stops (c ∷ cs) db = refl

  take_from_row :
      (i : ℕ) (c : WalletCharge) (amount : ℕ) (db : Db)
      → get_row c.id db.charges ≡ some c
      → get_row i (take_from owner_id reason reference c amount db).charges ≡ (
          if c.id == i
          then some (record c { remaining_toman = c.remaining_toman - amount })
          else get_row i db.charges)
  unfolding take_from add_transaction
  take_from_row i c amount db found = ground (
    arith,
    get_row-save i (record c { remaining_toman = c.remaining_toman - amount }) db.charges,
    found,
  )

  drain_untouched :
      (i : ℕ) (cs : List WalletCharge) (left : ℕ) (db : Db)
      → get_row i cs ≡ none
      → Unique cs
      → Rows db.charges cs
      → get_row i (drain owner_id reason reference cs left db).1.charges ≡ get_row i db.charges
  unfolding drain
  drain_untouched i [] left db h u rows = refl
  drain_untouched i (c ∷ cs) left db h u rows =
      let amount = min c.remaining_toman left in
      let db1 = take_from owner_id reason reference c amount db in
      ground (
        arith,
        take_from_row i c amount db rows.0,
        drain_untouched i cs (left - amount) db1,
        take_from-Rows owner_id reason reference c amount cs db u.0 rows.1,
        u.1,
      )

  row_of :
      (i : ℕ) (cs rs : List WalletCharge) {a : WalletCharge}
      → Rows rs cs
      → get_row i cs ≡ some a
      → get_row i rs ≡ some a
  row_of i cs rs {a} rows e =
      subst (λ n. get_row n rs ≡ some a) (get_row-key i cs e)
        (All-get_row (λ r. get_row r.id rs ≡ some r) i cs rows e)

  -- In the order of expiry, a charge that is touched has only empty ones before it.
  drain_fifo :
      (i j : ℕ) (cs : List WalletCharge) (left : ℕ) (db : Db) {a b a' b' : WalletCharge}
      → IsSortedOn (λ c. c.expires_at) cs
      → Unique cs
      → Rows db.charges cs
      → get_row i cs ≡ some a
      → get_row j cs ≡ some b
      → a.expires_at < b.expires_at
      → get_row i (drain owner_id reason reference cs left db).1.charges ≡ some a'
      → get_row j (drain owner_id reason reference cs left db).1.charges ≡ some b'
      → b'.remaining_toman ≢ b.remaining_toman
      → a'.remaining_toman ≡ 0
  unfolding drain
  drain_fifo i j [] left db sorted u rows ea eb before fa fb touched = absurd (ground arith)
  drain_fifo i j (c ∷ cs) left db {a} {b} {a'} {b'} sorted u rows ea eb before fa fb touched =
      let amount = min c.remaining_toman left in
      let db1 = take_from owner_id reason reference c amount db in
      let rows1 = take_from-Rows owner_id reason reference c amount cs db u.0 rows.1 in
      let kept : get_row j db.charges ≡ some b = row_of j (c ∷ cs) db.charges rows eb in
      elim (Bool-cases (left == 0)) [
        | inl done ↦ absurd (ground (arith, done, kept))
        | inr more ↦ elim (Bool-cases (c.id == i)) [
          | inl first ↦
              let new : get_row i cs ≡ none =
                subst (λ n. get_row n cs ≡ none) (ground (arith, first)) u.0 in
              let same : c ≡ a = ground (arith, first) in
              elim (Bool-cases (leb c.remaining_toman left)) [
                | inl drunk ↦ ground (
                  arith,
                  more,
                  first,
                  drunk,
                  take_from_row i c amount db rows.0,
                  drain_untouched i cs (left - amount) db1 new u.1 rows1,
                )
                | inr enough ↦
                    let none_left : left - amount ≡ 0 = ground (arith, enough) in
                    absurd (
                      ground (
                        arith,
                        more,
                        none_left,
                        same,
                        kept,
                        take_from_row j c amount db rows.0,
                        drain_stops cs db1,
                      ))
              ]
          | inr later ↦ elim (Bool-cases (c.id == j)) [
            | inl swapped ↦
                let same : c ≡ b = ground (arith, swapped) in
                let ordered : c.expires_at ≤ a.expires_at =
                  All-get_row (λ x. c.expires_at ≤ x.expires_at) i cs {r = a} sorted.0
                    (ground (arith, later)) in
                absurd (ground (arith, same, ordered))
            | inr apart ↦
                drain_fifo i j cs (left - amount) db1 {a = a} {b = b} {a' = a'} {b' = b'} sorted.1
                  u.1 rows1 (ground (arith, later)) (ground (arith, apart)) before
                  (ground (arith, more)) (ground (arith, more)) touched
          ]
        ]
      ]

drained_charges :
    (owner_id : ℕ) (amount : ℤ) (reason : WalletTransactionReason) (reference : Option String)
    (db : Db) {db' : Db}
    → deduct owner_id amount reason reference db ≡ ok (true, db')
    → (db' ≡ db)
      ⊎ (db'.charges
          ≡ (drain owner_id reason reference
              (deductible owner_id db)
              (pos_part amount)
              db).1.charges)
drained_charges owner_id amount reason reference db {db'} e =
    elim (deduct-cases owner_id amount reason reference db) [
      | inl (nothing, same) ↦ inl (ground (arith, same))
      | inr (inl (positive, short, same)) ↦ absurd (ground (arith, same))
      | inr (inr (positive, enough, steps)) ↦
          elim (Result-cases (
            apply_balance_delta owner_id (neg (pos_part amount))
              (drained owner_id amount reason reference db))) [
                | inl (db2, step) ↦ inr (
                    ground (
                      arith,
                      steps,
                      step,
                      apply_balance_delta-charges owner_id _
                          (drained owner_id amount reason reference db) step,
                    ))
                | inr (x, failed) ↦ absurd (ground (arith, steps, failed))
              ]
    ]

-- A deduction that goes through touches a charge only once every charge of the owner that can be
-- spent and expires earlier is empty: the oldest expiry is spent first.
pub deduct_fifo :
    (owner_id : ℕ) (amount : ℤ) (reason : WalletTransactionReason) (reference : Option String)
    (i j : ℕ) (db : Db) {db' : Db} {a b a' b' : WalletCharge}
    → Unique db.charges
    → deduct owner_id amount reason reference db ≡ ok (true, db')
    → get_row i db.charges ≡ some a
    → get_row j db.charges ≡ some b
    → is_deductible owner_id a ≡ true
    → is_deductible owner_id b ≡ true
    → a.expires_at < b.expires_at
    → get_row i db'.charges ≡ some a'
    → get_row j db'.charges ≡ some b'
    → b'.remaining_toman ≢ b.remaining_toman
    → a'.remaining_toman ≡ 0
deduct_fifo owner_id amount reason reference i j db {db'} {a} {b} {a'} {b'} u e ea eb pa pb before
      fa fb touched =
    elim (drained_charges owner_id amount reason reference db e) [
      | inl same ↦ absurd (ground (arith, same))
      | inr charges ↦
          drain_fifo owner_id reason reference i j (deductible owner_id db) (pos_part amount) db
            {a = a} {b = b} {a' = a'} {b' = b'} (deductible-IsSortedOn owner_id db)
            (deductible-Unique owner_id db u) (deductible-Rows owner_id db u)
            (deductible_row owner_id i db u ea pa) (deductible_row owner_id j db u eb pb) before
            (ap (get_row i) (sym charges) ∙ fa) (ap (get_row j) (sym charges) ∙ fb) touched
    ]
