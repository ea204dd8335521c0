-- ===== src/Wallet/Invariant/Charged.antt =====
-- The wallet invariant under `add_charge` of app/services/wallet_service.py.
use kasb_o_kar_hoshmand.Base.{
  ap, ◌*◌, ℕ, ◌+◌, ◌≡◌, ◌≢◌, refl, inl, inr, String, false, Option, none, some, List, [], ◌∷◌, ◌++◌,
  arith, sum_of-append, Option-cases,
}
use kasb_o_kar_hoshmand.Base.Int.{ℤ, pos, pos_part, ◌+ℤ◌, leb_ℤ, +ℤ_parts, eq_of_parts}
use kasb_o_kar_hoshmand.Base.Time.{Instant, days}
use kasb_o_kar_hoshmand.Base.Table.{
  get_row, next_key, Unique, get_row-key, get_row-save, append-Unique, get_row-next_key,
}
use kasb_o_kar_hoshmand.Models.{
  ShopOwner-Keyed, WalletCharge-Keyed, WalletTransaction-Keyed, WalletCharge,
  WalletTransactionReason, Db, ok, Result-cases,
}
use kasb_o_kar_hoshmand.Settings.{get_admin_settings}
use kasb_o_kar_hoshmand.Wallet.Invariant.{
  live, available, CachedAt, IsConsistent, apply_balance_delta-CachedAt,
  apply_balance_delta-charges,
}
use kasb_o_kar_hoshmand.Wallet.Charge.{
  apply_balance_delta, clear_notified, add_transaction, validity, new_charge, add_charge,
}

clear_notified-CachedAt :
    (i owner_id : ℕ) (db : Db)
    → CachedAt i db.owners db.charges
    → CachedAt i (clear_notified owner_id db).owners (clear_notified owner_id db).charges
unfolding clear_notified
clear_notified-CachedAt i owner_id db h p q = elim (Option-cases (get_row owner_id db.owners)) [
  | inl missing ↦ ground (arith, h p)
  | inr (o, found) ↦ ground (
    arith,
    get_row-save i
        (record o { wallet_low_balance_notified_at = none; wallet_empty_notified_at = none })
        db.owners,
    get_row-key owner_id db.owners found,
    h p,
    h o,
  )
]

available-append :
    (i : ℕ) (cs : List WalletCharge) (c : WalletCharge)
    → available i (cs ++ c ∷ []) ≡ available i cs + live i c
available-append i cs c = omega (arith, sum_of-append (live i) cs (c ∷ []))

append_next-Unique :
    (cs : List WalletCharge) (c : WalletCharge)
    → c.id ≡ next_key cs
    → Unique cs
    → Unique (cs ++ c ∷ [])
append_next-Unique cs c e h = append-Unique cs c h (get_row-next_key c.id cs (omega arith))

-- The settings row that a charge may make is no part of the wallet.
pub validity_keeps :
    (months : Option ℕ) (db : Db)
    → ((validity months db).1.charges ≡ db.charges) × ((validity months db).1.owners ≡ db.owners)
unfolding validity get_admin_settings
validity_keeps none db = ground arith
validity_keeps (some n) db = (refl, refl)

-- The steps of a charge that goes through.
pub add_charge_steps :
    (now : Instant) (owner_id : ℕ) (amount : ℤ) (reason : WalletTransactionReason)
    (payment_id months : Option ℕ) (reference : Option String) (db : Db) {c : WalletCharge}
    {db' : Db}
    → add_charge now owner_id amount reason payment_id months reference db ≡ ok (c, db')
    → let (n, db1) = validity months db in
      (leb_ℤ amount (pos 0) ≡ false)
      × (c
          ≡ new_charge
              (next_key db1.charges)
              owner_id
              payment_id
              (pos_part amount)
              (now + days (n * 30)))
      × ((db2 : Db) × (apply_balance_delta owner_id amount
              (record db1 { charges = db1.charges ++ c ∷ [] })
            ≡ ok db2)
          × (db'
              ≡ add_transaction owner_id
                  (some c.id)
                  amount
                  reason
                  reference
                  (clear_notified owner_id db2)))
unfolding add_charge
add_charge_steps now owner_id amount reason payment_id months reference db {c} {db'} e =
    let db1 = (validity months db).1 in
    let c0 =
      new_charge (next_key db1.charges) owner_id payment_id (pos_part amount)
        (now + days ((validity months db).0 * 30)) in
    elim (Result-cases
      (apply_balance_delta owner_id amount (record db1 { charges = db1.charges ++ c0 ∷ [] }))) [
        | inl (db2, step) ↦ (ground arith, ground arith, (db2, ground arith, ground arith))
        | inr (x, failed) ↦ absurd (ground arith)
      ]

pub clear_notified-charges :
    (owner_id : ℕ) (db : Db) → (clear_notified owner_id db).charges ≡ db.charges
unfolding clear_notified
clear_notified-charges owner_id db = ground arith

validity-IsConsistent :
    (months : Option ℕ) (db : Db) → IsConsistent db → IsConsistent (validity months db).1
unfolding validity get_admin_settings
validity-IsConsistent none db h = record {
  unique = ground (arith, h.unique);
  cached = λ i o p. ground (arith, h.cached i o);
}
validity-IsConsistent (some n) db h = h

-- A new charge of the owner raises what is available by its amount.
new_charge_owned :
    (id owner_id : ℕ) (payment_id : Option ℕ) (amount : ℤ) (t : Instant) (cs : List WalletCharge)
    (b : ℤ)
    → leb_ℤ amount (pos 0) ≡ false
    → b ≡ pos (available owner_id cs)
    → b +ℤ amount
      ≡ pos (available owner_id (cs ++ new_charge id owner_id payment_id (pos_part amount) t ∷ []))
unfolding new_charge
new_charge_owned id owner_id payment_id amount t cs b positive p = ground (
  arith,
  available-append owner_id cs (new_charge id owner_id payment_id (pos_part amount) t),
  +ℤ_parts b amount,
  eq_of_parts (b +ℤ amount) (pos (available owner_id cs + pos_part amount)),
)

new_charge_others :
    (i id owner_id : ℕ) (payment_id : Option ℕ) (amount : ℕ) (t : Instant) (cs : List WalletCharge)
    → i ≢ owner_id
    → available i (cs ++ new_charge id owner_id payment_id amount t ∷ []) ≡ available i cs
unfolding new_charge
new_charge_others i id owner_id payment_id amount t cs other =
    ground (arith, available-append i cs (new_charge id owner_id payment_id amount t))

-- A charge keeps the cached balances right.
pub add_charge-IsConsistent :
    (now : Instant) (owner_id : ℕ) (amount : ℤ) (reason : WalletTransactionReason)
    (payment_id months : Option ℕ) (reference : Option String) (db : Db) {c : WalletCharge}
    {db' : Db}
    → IsConsistent db
    → add_charge now owner_id amount reason payment_id months reference db ≡ ok (c, db')
    → IsConsistent db'
unfolding add_transaction new_charge validity
add_charge-IsConsistent now owner_id amount reason payment_id months reference db {c} {db'} h e =
    let (positive, shape, (db2, step, done)) =
      add_charge_steps now owner_id amount reason payment_id months reference db e in
    let db1 = (validity months db).1 in
    let h1 = validity-IsConsistent months db h in
    let cs = db1.charges ++ c ∷ [] in
    let at : (i : ℕ) → CachedAt i db2.owners db2.charges = λ i.
      apply_balance_delta-CachedAt owner_id amount cs db1
        (λ b p. rw shape (new_charge_owned _ owner_id payment_id amount _ db1.charges b positive p))
        (λ j ne. rw shape (new_charge_others j _ owner_id payment_id _ _ db1.charges ne)) i
        h1.cached step in
    rw done (record {
      unique = rw (clear_notified-charges owner_id db2) (
          rw (apply_balance_delta-charges owner_id amount _ step)
            (append_next-Unique db1.charges c (ap (λ x. x.id) shape) h1.unique));
      cached = λ i. clear_notified-CachedAt i owner_id db2 (at i);
    })
