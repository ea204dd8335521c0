-- ===== src/Wallet/Reach.antt =====
-- The wallet as a state machine: whatever the platform does with wallets, in any order.
use kasb_o_kar_hoshmand.Base.{
  ℕ, ◌≡◌, refl, inl, inr, String, Bool, Option, some, arith, Option-cases, Bool-cases,
}
use kasb_o_kar_hoshmand.Base.Int.{ℤ}
use kasb_o_kar_hoshmand.Base.Time.{Instant, hours}
use kasb_o_kar_hoshmand.Base.Table.{get_row, save, get_row-key, save-Unique, sum_of-save}
use kasb_o_kar_hoshmand.Models.{
  ShopOwner-Keyed, WalletCharge-Keyed, WalletTransaction-Keyed, ShopOwner, WalletCharge,
  WalletTransactionReason, Db, ok,
}
use kasb_o_kar_hoshmand.Wallet.Remind.{mark_charge, mark_reminder_sent}
use kasb_o_kar_hoshmand.Wallet.Notify.{
  try_claim_empty_notification, try_claim_low_balance_notification, is_due, empty_renotify_hours,
  low_balance_renotify_hours,
}
use kasb_o_kar_hoshmand.Wallet.Ledger.Posted.{add_charge-HasBooks}
use kasb_o_kar_hoshmand.Wallet.Ledger.Spent.{deduct-HasBooks, expire_stale_charges-HasBooks}
use kasb_o_kar_hoshmand.Wallet.Invariant.Charged.{add_charge-IsConsistent}
use kasb_o_kar_hoshmand.Wallet.Invariant.Expired.{expire_stale_charges-IsConsistent}
use kasb_o_kar_hoshmand.Wallet.Ledger.{HasBooks, BooksAt-save}
use kasb_o_kar_hoshmand.Wallet.Invariant.{live, save-CachedAt, IsConsistent}
use kasb_o_kar_hoshmand.Wallet.Invariant.Deducted.{deduct-IsConsistent}
use kasb_o_kar_hoshmand.Wallet.Deduct.{deduct}
use kasb_o_kar_hoshmand.Wallet.Expire.{expire_stale_charges}
use kasb_o_kar_hoshmand.Wallet.Charge.{add_charge}

-- One operation on the wallets.
pub data WalletStep : Db → Db → Type 0 where
  charge :
      {db db' : Db} (now : Instant) (owner_id : ℕ) (amount : ℤ) (reason : WalletTransactionReason)
      (payment_id months : Option ℕ) (reference : Option String) (c : WalletCharge)
      → add_charge now owner_id amount reason payment_id months reference db ≡ ok (c, db')
      → WalletStep db db'
  spend :
      {db db' : Db} (owner_id : ℕ) (amount : ℤ) (reason : WalletTransactionReason)
      (reference : Option String) (done : Bool)
      → deduct owner_id amount reason reference db ≡ ok (done, db')
      → WalletStep db db'
  expire : {db : Db} (now : Instant) → WalletStep db (expire_stale_charges now db).1
  remind :
      {db : Db} (c : WalletCharge) (d : ℕ)
      → get_row c.id db.charges ≡ some c
      → WalletStep db (mark_reminder_sent c d db)
  notify_empty :
      {db : Db} (now : Instant) (owner_id : ℕ)
      → WalletStep db (try_claim_empty_notification now owner_id db).1
  notify_low :
      {db : Db} (now : Instant) (owner_id : ℕ)
      → WalletStep db (try_claim_low_balance_notification now owner_id db).1

pub data WalletReach (start : Db) : Db → Type 0 where
  here : WalletReach start start
  next : {db db' : Db} → WalletReach start db → WalletStep db db' → WalletReach start db'

-- The invariant of the wallets.
pub record IsSound (db : Db) : Type 0 where
  pub consistent : IsConsistent db
  pub books : HasBooks db

-- An owner's row saved with the balance it had.
save_owner-IsSound :
    (o o' : ShopOwner) (db : Db)
    → get_row o.id db.owners ≡ some o
    → o'.id ≡ o.id
    → o'.wallet_balance_toman ≡ o.wallet_balance_toman
    → IsSound db
    → IsSound (record db { owners = save o' db.owners })
save_owner-IsSound o o' db found same kept h = record {
  consistent = record {
    unique = h.consistent.unique;
    cached = λ i. save-CachedAt i o o' db.owners db.charges found same kept (h.consistent.cached i);
  };
  books = record {
    balanced =
        λ i. BooksAt-save i o o' db.owners db.transactions found same kept (h.books.balanced i);
  };
}

owner_row :
    (i : ℕ) (db : Db) {o : ShopOwner}
    → get_row i db.owners ≡ some o
    → get_row o.id db.owners ≡ some o
owner_row i db {o} found = simp (get_row-key i db.owners found) found

notify_empty-IsSound :
    (now : Instant) (owner_id : ℕ) (db : Db)
    → IsSound db
    → IsSound (try_claim_empty_notification now owner_id db).1
unfolding try_claim_empty_notification
notify_empty-IsSound now owner_id db h = elim (Option-cases (get_row owner_id db.owners)) [
  | inl missing ↦ rw (missing, try_claim_empty_notification) h
  | inr (o, found) ↦
      rw (found, try_claim_empty_notification)
        (elim (Bool-cases (is_due now (hours empty_renotify_hours) o.wallet_empty_notified_at)) [
          | inl due ↦ rw due (save_owner-IsSound o _ db (owner_row owner_id db found) refl refl h)
          | inr early ↦ rw early h
        ])
]

notify_low-IsSound :
    (now : Instant) (owner_id : ℕ) (db : Db)
    → IsSound db
    → IsSound (try_claim_low_balance_notification now owner_id db).1
unfolding try_claim_low_balance_notification
notify_low-IsSound now owner_id db h = elim (Option-cases (get_row owner_id db.owners)) [
  | inl missing ↦ rw (missing, try_claim_low_balance_notification) h
  | inr (o, found) ↦
      rw (found, try_claim_low_balance_notification)
        (elim (Bool-cases
          (is_due now (hours low_balance_renotify_hours) o.wallet_low_balance_notified_at)) [
            | inl due ↦ rw due (save_owner-IsSound o _ db (owner_row owner_id db found) refl refl h)
            | inr early ↦ rw early h
          ])
]

mark_charge-live :
    (i d : ℕ) (c : WalletCharge)
    → (live i (mark_charge d c) ≡ live i c) × ((mark_charge d c).id ≡ c.id)
unfolding mark_charge
mark_charge-live i d c = ground arith

remind-IsSound :
    (c : WalletCharge) (d : ℕ) (db : Db)
    → get_row c.id db.charges ≡ some c
    → IsSound db
    → IsSound (mark_reminder_sent c d db)
unfolding mark_reminder_sent
remind-IsSound c d db found h = record {
  consistent = record {
    unique = save-Unique (mark_charge d c) db.charges h.consistent.unique;
    cached = λ i o p. ground (
      arith,
      h.consistent.cached i o p,
      sum_of-save (live i) c (mark_charge d c) db.charges,
      found,
      mark_charge-live i d c,
    );
  };
  books = record { balanced = h.books.balanced };
}

pub WalletStep-IsSound : {db db' : Db} → WalletStep db db' → IsSound db → IsSound db'
WalletStep-IsSound {db} {db'} (charge now owner_id amount reason payment_id months reference c e)
      h =
    record {
      consistent =
          add_charge-IsConsistent now owner_id amount reason payment_id months reference _
            h.consistent e;
      books =
          add_charge-HasBooks now owner_id amount reason payment_id months reference _ h.books e;
    }
WalletStep-IsSound (spend owner_id amount reason reference done e) h = record {
  consistent = deduct-IsConsistent owner_id amount reason reference _ h.consistent e;
  books = deduct-HasBooks owner_id amount reason reference _ h.books e;
}
WalletStep-IsSound (expire now) h = record {
  consistent = expire_stale_charges-IsConsistent now _ h.consistent;
  books = expire_stale_charges-HasBooks now _ h.consistent h.books;
}
WalletStep-IsSound (remind c d found) h = remind-IsSound c d _ found h
WalletStep-IsSound (notify_empty now owner_id) h = notify_empty-IsSound now owner_id _ h
WalletStep-IsSound (notify_low now owner_id) h = notify_low-IsSound now owner_id _ h

-- From a database whose wallets are sound, any operations on wallets, in any order, lead to one
-- whose wallets are sound: the cached balance of each owner is the sum of what remains on the
-- owner's open charges, and the sum of the owner's ledger.
pub WalletReach-IsSound : {start db : Db} → IsSound start → WalletReach start db → IsSound db
WalletReach-IsSound h here = h
WalletReach-IsSound h (next r step) = WalletStep-IsSound step (WalletReach-IsSound h r)
