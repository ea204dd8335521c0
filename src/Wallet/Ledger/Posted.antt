-- ===== src/Wallet/Ledger/Posted.antt =====
-- The entries of the ledger beside the cached balance, for every operation on wallets.
use kasb_o_kar_hoshmand.Base.{
  ℕ, ◌-◌, ◌≡◌, ◌≢◌, refl, inl, inr, min, String, Option, none, some, List, [], ◌∷◌, ◌++◌, arith,
  ◌==◌, if◌then◌else◌, sum_of, Option-cases,
}
use kasb_o_kar_hoshmand.Base.Int.{ℤ, pos, neg, ◌+ℤ◌, +ℤ_zero, neg_add, neg_zero}
use kasb_o_kar_hoshmand.Base.Time.{Instant}
use kasb_o_kar_hoshmand.Base.Table.{get_row, save, get_row-key, get_row-save}
use kasb_o_kar_hoshmand.Models.{
  ShopOwner-Keyed, WalletCharge-Keyed, WalletTransaction-Keyed, WalletCharge, WalletTransaction,
  WalletTransactionReason, Db, ok,
}
use kasb_o_kar_hoshmand.Wallet.Ledger.{account, account-append, BooksAt, HasBooks}
use kasb_o_kar_hoshmand.Wallet.Invariant.Charged.{add_charge_steps}
use kasb_o_kar_hoshmand.Wallet.Invariant.Drained.{remaining}
use kasb_o_kar_hoshmand.Wallet.Deduct.{take_from, drain}
use kasb_o_kar_hoshmand.Settings.{get_admin_settings}
use kasb_o_kar_hoshmand.Wallet.Charge.{
  add_transaction, apply_balance_delta, clear_notified, validity, add_charge,
}

clear_notified-BooksAt :
    (i owner_id : ℕ) (db : Db) (ts : List WalletTransaction)
    → BooksAt i db.owners ts
    → BooksAt i (clear_notified owner_id db).owners ts
unfolding clear_notified
clear_notified-BooksAt i owner_id db ts h p q = elim (Option-cases (get_row owner_id db.owners)) [
  | inl missing ↦ ground (arith, h p)
  | inr (o, found) ↦ ground (
    arith,
    get_row-save i
        (record o { wallet_low_balance_notified_at = none; wallet_empty_notified_at = none })
        db.owners,
    get_row-key owner_id db.owners found,
    h p,
    h o,
  )
]

-- A delta on the balance, and ledger entries of as much, keep the books.
pub apply_balance_delta-BooksAt :
    (i owner_id : ℕ) (delta : ℤ) (db : Db) (ts ts' : List WalletTransaction) {db' : Db}
    → ((b : ℤ) → b ≡ account owner_id ts → b +ℤ delta ≡ account owner_id ts')
    → ((j : ℕ) → j ≢ owner_id → account j ts' ≡ account j ts)
    → ((j : ℕ) → BooksAt j db.owners ts)
    → apply_balance_delta owner_id delta db ≡ ok db'
    → BooksAt i db'.owners ts'
unfolding apply_balance_delta
apply_balance_delta-BooksAt i owner_id delta db ts ts' {db'} owned others h e =
    elim (Option-cases (get_row owner_id db.owners)) [
      | inl missing ↦ absurd (ground arith)
      | inr (o, found) ↦ λ p q. ground (
        arith,
        get_row-save i (record o { wallet_balance_toman = o.wallet_balance_toman +ℤ delta })
            db.owners,
        get_row-key owner_id db.owners found,
        h i p,
        h owner_id o found,
        owned o.wallet_balance_toman,
        others i,
      )
    ]

pub apply_balance_delta-transactions :
    (owner_id : ℕ) (delta : ℤ) (db : Db) {db' : Db}
    → apply_balance_delta owner_id delta db ≡ ok db'
    → db'.transactions ≡ db.transactions
unfolding apply_balance_delta
apply_balance_delta-transactions owner_id delta db e = ground arith

clear_notified-transactions :
    (owner_id : ℕ) (db : Db) → (clear_notified owner_id db).transactions ≡ db.transactions
unfolding clear_notified
clear_notified-transactions owner_id db = ground arith

validity-HasBooks : (months : Option ℕ) (db : Db) → HasBooks db → HasBooks (validity months db).1
unfolding validity get_admin_settings
validity-HasBooks none db h = record { balanced = λ i o p. ground (arith, h.balanced i o) }
validity-HasBooks (some n) db h = h

pub account-add_transaction :
    (i owner_id : ℕ) (charge_id : Option ℕ) (amount : ℤ) (reason : WalletTransactionReason)
    (reference : Option String) (db : Db)
    → account i (add_transaction owner_id charge_id amount reason reference db).transactions
      ≡ account i db.transactions +ℤ (if owner_id == i then amount else pos 0)
unfolding add_transaction
account-add_transaction i owner_id charge_id amount reason reference db =
    account-append i db.transactions _

-- A charge is posted: the amount goes to the balance and to the ledger.
pub add_charge-HasBooks :
    (now : Instant) (owner_id : ℕ) (amount : ℤ) (reason : WalletTransactionReason)
    (payment_id months : Option ℕ) (reference : Option String) (db : Db) {c : WalletCharge}
    {db' : Db}
    → HasBooks db
    → add_charge now owner_id amount reason payment_id months reference db ≡ ok (c, db')
    → HasBooks db'
unfolding add_transaction clear_notified
add_charge-HasBooks now owner_id amount reason payment_id months reference db {c} {db'} h e =
    let (positive, shape, (db2, step, done)) =
      add_charge_steps now owner_id amount reason payment_id months reference db e in
    let db1 = (validity months db).1 in
    let after =
      add_transaction owner_id (some c.id) amount reason reference (clear_notified owner_id db2) in
    let same : db2.transactions ≡ db1.transactions =
      apply_balance_delta-transactions owner_id amount _ step in
    rw done (record {
      balanced = λ i. clear_notified-BooksAt i owner_id db2 after.transactions (
          apply_balance_delta-BooksAt i owner_id amount
            (record db1 { charges = db1.charges ++ c ∷ [] }) db1.transactions after.transactions
            (λ b p.
              (ground (
                arith,
                p,
                same,
                clear_notified-transactions owner_id db2,
                account-add_transaction owner_id owner_id (some c.id) amount reason reference
                    (clear_notified owner_id db2),
              )))
            (λ j ne.
              (ground (
                arith,
                +ℤ_zero (account j db1.transactions),
                same,
                clear_notified-transactions owner_id db2,
                account-add_transaction j owner_id (some c.id) amount reason reference
                    (clear_notified owner_id db2),
              )))
            (validity-HasBooks months db h).balanced step);
    })

module _ (owner_id : ℕ) (reason : WalletTransactionReason) (reference : Option String) where
  posted :
      (i : ℕ) (c : WalletCharge) (amount : ℕ) (db : Db)
      → account i (take_from owner_id reason reference c amount db).transactions
        ≡ account i db.transactions +ℤ (if owner_id == i then neg amount else pos 0)
  unfolding take_from
  posted i c amount db =
      account-add_transaction i owner_id (some c.id) (neg amount) reason reference (record db {
        charges = save (record c { remaining_toman = c.remaining_toman - amount }) db.charges;
      })

  -- The loop posts what it takes, to the owner's account and to no other.
  pub drain-account :
      (cs : List WalletCharge) (left : ℕ) (db : Db)
      → account owner_id (drain owner_id reason reference cs left db).1.transactions
        ≡ account owner_id db.transactions +ℤ neg (min left (sum_of remaining cs))
  unfolding drain take_from
  drain-account [] left db = ground (arith, neg_zero (account owner_id db.transactions))
  drain-account (c ∷ cs) left db =
      let amount = min c.remaining_toman left in
      let db1 = take_from owner_id reason reference c amount db in
      ground (
        arith,
        drain-account cs (left - amount) db1,
        posted owner_id c amount db,
        neg_zero (account owner_id db.transactions),
        neg_add (account owner_id db.transactions) amount
            (min (left - amount) (sum_of remaining cs)),
      )

  pub drain-account_other :
      (i : ℕ) (cs : List WalletCharge) (left : ℕ) (db : Db)
      → i ≢ owner_id
      → account i (drain owner_id reason reference cs left db).1.transactions
        ≡ account i db.transactions
  unfolding drain take_from
  drain-account_other i [] left db ne = refl
  drain-account_other i (c ∷ cs) left db ne =
      let amount = min c.remaining_toman left in
      ground (
        arith,
        drain-account_other i cs (left - amount) (take_from owner_id reason reference c amount db)
            ne,
        posted i c amount db,
        +ℤ_zero (account i db.transactions),
      )
