-- ===== src/Billing/Frame.antt =====
-- The tables that each operation of billing and of the wallets leaves as they were.
use kasb_o_kar_hoshmand.Base.{ℕ, ◌≡◌, refl, String, Option, none, some, arith}
use kasb_o_kar_hoshmand.Base.Int.{ℤ}
use kasb_o_kar_hoshmand.Base.Time.{Instant}
use kasb_o_kar_hoshmand.Models.{
  ShopOwner-Keyed, DiscountCode-Keyed, WalletCharge, WalletTransactionReason, Db, ok,
}
use kasb_o_kar_hoshmand.Settings.{get_admin_settings}
use kasb_o_kar_hoshmand.Wallet.Charge.{
  apply_balance_delta, clear_notified, add_transaction, validity, add_charge,
}
use kasb_o_kar_hoshmand.Wallet.Invariant.Charged.{add_charge_steps}
use kasb_o_kar_hoshmand.Wallet.Reach.{IsSound}
use kasb_o_kar_hoshmand.Billing.Discount.{count_use, record_usage}

-- Two databases with the same payments, uses of codes and referrals.
abbrev pub SamePapers : Db → Db → Type 0
SamePapers db db' =
    (db'.payments ≡ db.payments) × (db'.usages ≡ db.usages) × (db'.referrals ≡ db.referrals)

-- Two databases with the same wallets.
abbrev pub SameWallets : Db → Db → Type 0
SameWallets db db' =
    (db'.owners ≡ db.owners) × (db'.charges ≡ db.charges) × (db'.transactions ≡ db.transactions)

pub SameWallets-IsSound : (db db' : Db) → SameWallets db db' → IsSound db → IsSound db'
SameWallets-IsSound db db' same h = record {
  consistent = record {
    unique = rw same.1 h.consistent.unique;
    cached = λ i. rw same.0 (rw same.1 (h.consistent.cached i));
  };
  books = record { balanced = λ i. rw same.0 (rw same.2 (h.books.balanced i)) };
}

pub settings-SamePapers : (db : Db) → SamePapers db (get_admin_settings db).1
unfolding get_admin_settings
settings-SamePapers db = ground arith

pub settings-SameWallets : (db : Db) → SameWallets db (get_admin_settings db).1
unfolding get_admin_settings
settings-SameWallets db = ground arith

validity-SamePapers : (months : Option ℕ) (db : Db) → SamePapers db (validity months db).1
unfolding validity
validity-SamePapers none db = settings-SamePapers db
validity-SamePapers (some n) db = (refl, refl, refl)

clear_notified-SamePapers : (i : ℕ) (db : Db) → SamePapers db (clear_notified i db)
unfolding clear_notified
clear_notified-SamePapers i db = ground arith

apply_balance_delta-SamePapers :
    (i : ℕ) (delta : ℤ) (db : Db) {db' : Db}
    → apply_balance_delta i delta db ≡ ok db'
    → SamePapers db db'
unfolding apply_balance_delta
apply_balance_delta-SamePapers i delta db e = ground arith

pub add_charge-SamePapers :
    (now : Instant) (owner_id : ℕ) (amount : ℤ) (reason : WalletTransactionReason)
    (payment_id months : Option ℕ) (reference : Option String) (db : Db) {c : WalletCharge}
    {db' : Db}
    → add_charge now owner_id amount reason payment_id months reference db ≡ ok (c, db')
    → SamePapers db db'
unfolding add_transaction
add_charge-SamePapers now owner_id amount reason payment_id months reference db {c} {db'} e =
    let (positive, shape, (db2, step, done)) =
      add_charge_steps now owner_id amount reason payment_id months reference db e in
    ground (
      arith,
      validity-SamePapers months db,
      clear_notified-SamePapers owner_id db2,
      apply_balance_delta-SamePapers owner_id amount _ step,
    )

count_use-SameWallets : (code_id : ℕ) (db : Db) → SameWallets db (count_use code_id db)
unfolding count_use
count_use-SameWallets code_id db = ground arith

pub count_use-usages : (code_id : ℕ) (db : Db) → (count_use code_id db).usages ≡ db.usages
unfolding count_use
count_use-usages code_id db = ground arith

count_use-payments : (code_id : ℕ) (db : Db) → (count_use code_id db).payments ≡ db.payments
unfolding count_use
count_use-payments code_id db = ground arith

pub record_usage-SameWallets :
    (code_id owner_id payment_id : ℕ) (db : Db) {db' : Db}
    → record_usage code_id owner_id payment_id db ≡ ok db'
    → SameWallets db db'
unfolding record_usage
record_usage-SameWallets code_id owner_id payment_id db {db'} e =
    ground (arith, count_use-SameWallets code_id)

pub record_usage-payments :
    (code_id owner_id payment_id : ℕ) (db : Db) {db' : Db}
    → record_usage code_id owner_id payment_id db ≡ ok db'
    → db'.payments ≡ db.payments
unfolding record_usage
record_usage-payments code_id owner_id payment_id db {db'} e =
    ground (arith, count_use-payments code_id)
